-- ===== src/Controller/Webhook/Headers.antt =====
-- internal/controller/webhook/webhook.go: the headers of a webhook's request, of its own and of the
-- tenant. `canonical` is textproto.CanonicalMIMEHeaderKey, by which http.Header.Set names a header,
-- and `parse` is json.Unmarshal of the stored headers, none for an error.
use text.Mathlib.Text.{◌==◌ as str_eq}
use jobplane.Base.{String, not, Option, none, some, [], ◌∷◌, select, if◌then◌else◌}
use jobplane.Store.Models.{Json, Execution}
use jobplane.Api.{Headers}
use jobplane.Controller.Handlers.Jobs.{is_empty}

module _ (canonical : String → String) (parse : Json → Option Headers) where
  -- http.Header.Set
  unfoldable pub set_header : String → String → Headers → Headers
  set_header name value headers =
      (canonical name, value) ∷ select (λ entry. not (str_eq (entry.0) (canonical name))) headers

  unfoldable pub set_headers : Headers → Headers → Headers
  unfolding set_header
  set_headers [] headers = headers
  set_headers (entry ∷ entries) headers =
      set_headers entries (set_header (entry.0) (entry.1) headers)

  abbrev or_none : Option Headers → Headers
  or_none none = []
  or_none (some headers) = headers

  -- The headers of the tenant; those that cannot be parsed are left out.
  unfoldable pub custom_headers : Option Json → Headers
  custom_headers none = []
  custom_headers (some json) = if is_empty json then [] else or_none (parse json)

  unfoldable pub request_headers : Execution → Headers
  unfolding set_header set_headers custom_headers
  request_headers execution = set_headers (custom_headers execution.callback_headers) (
      set_header "User-Agent" "jobplane-webhook/1.0"
        (set_header "Content-Type" "application/json" []))
