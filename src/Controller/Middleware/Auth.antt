-- ===== src/Controller/Middleware/Auth.antt =====
-- internal/controller/middleware/auth.go and internal_auth.go. A header that is missing is the
-- empty text.
use Prim.Native.Char.{Char}
use Prim.Native.String.{◌∷◌ as before, ◌++◌ as followed_by}
use text.Mathlib.Text.{◌==◌ as str_eq}
use text.Mathlib.TextEquality.{eq_iff}
use jobplane.Base.{
  ℕ, ◌≡◌, ◌⊎◌, refl, inl, inr, String, Option, none, some, List, [], ◌∷◌, first, Bool-cases,
  Option-cases, subst, if◌then◌else◌,
}
use jobplane.Base.Text.{split, Lacks, split-two_parts}
use jobplane.Store.Models.{has_json, Tenant}
use jobplane.Store.Db.{Db, TenantRow}
use jobplane.Store.Exec.{Result, ok, err, no_rows, next_fault}
use jobplane.Store.Tenants.{get_tenant_by_api_key_hash}
use jobplane.Api.{Response, plain_text}
use jobplane.Controller.Handlers.{
  hash_key, Library, Server, Reply, done, going, Handler, ◌>>=◌, respond, keep,
}
use jobplane.Controller.Handlers.Jobs.{is_empty}

abbrev pub space : Char
space = " "

-- http.Error
abbrev pub plain_error : {A : Type 0} → String → ℕ → Handler A
plain_error message code = respond code (plain_text message)

-- `len(parts) != 2 || parts[0] != "Bearer"`, and else the second part.
abbrev pub token_of : List String → Option String
token_of (scheme ∷ token ∷ []) = if str_eq scheme "Bearer" then some token else none
token_of (scheme ∷ token ∷ more ∷ parts) = none
token_of (scheme ∷ []) = none
token_of [] = none

abbrev pub given_token : Option String → Handler String
given_token none = plain_error "Invalid authorization header" 401
given_token (some token) = keep token

unfoldable pub bearer_token : String → Handler String
bearer_token header =
    if is_empty header
    then plain_error "Missing authorization header" 401
    else given_token (token_of (split space header))

abbrev pub tenant_or_error : Result Tenant → Handler Tenant
tenant_or_error (ok tenant) = keep tenant
tenant_or_error (err no_rows) = plain_error "Invalid API key" 401
tenant_or_error (err e) = plain_error "internal server error" 500

unfoldable pub find_tenant : Library → String → Handler Tenant
unfolding get_tenant_by_api_key_hash
find_tenant lib api_key s =
    let (r, w) = get_tenant_by_api_key_hash (hash_key lib api_key) s.world in
    tenant_or_error r (record s { world = w })

-- AuthMiddleware: the handler `next` runs with the tenant in its context.
unfoldable pub authenticate : Library → String → Handler Tenant
unfolding bearer_token find_tenant
authenticate lib header = do api_key ← bearer_token header; find_tenant lib api_key

unfoldable pub auth_middleware :
    Library → String → (Option Tenant → Handler Response) → Handler Response
unfolding authenticate
auth_middleware lib header next = do tenant ← authenticate lib header; next (some tenant)

-- RequireInternalAuth: the token is the system's secret.
unfoldable pub require_internal_auth : String → String → Handler Response → Handler Response
unfolding bearer_token
require_internal_auth system_secret header next = do
  token ← bearer_token header
  if str_eq token system_secret then next else plain_error "Invalid authorization token" 401

-- The header names the token after the scheme, with one space between and none in the token.
abbrev pub Bears : String → String → Type 0
Bears token header = (header ≡ followed_by "Bearer" (before space token)) × Lacks space token

token_of-some :
    (parts : List String) (token : String)
    → token_of parts ≡ some token
    → parts ≡ "Bearer" ∷ token ∷ []
token_of-some [] token h = absurd (cc)
token_of-some (scheme ∷ []) token h = absurd (cc)
token_of-some (scheme ∷ t ∷ more ∷ parts) token h = absurd (cc)
token_of-some (scheme ∷ t ∷ []) token h = elim (Bool-cases (str_eq scheme "Bearer")) [
  | inr other ↦ let e = rw other at h in absurd (cc)
  | inl bearer ↦
      let e = rw bearer at h in let same : scheme ≡ "Bearer" = (eq_iff _ _).0 bearer in cc
]

token_of-Bears :
    (header token : String) → token_of (split space header) ≡ some token → Bears token header
token_of-Bears header token h =
    let e = token_of-some _ token h in
    let parts = split-two_parts space header "Bearer" token e in (parts.0, parts.2)

given_token-going :
    (header : String) (s : Server) (token : String)
    → (given_token (token_of (split space header)) s).0 ≡ going token
    → Bears token header × ((given_token (token_of (split space header)) s).1 ≡ s)
given_token-going header s token h = elim (Option-cases (token_of (split space header))) [
  | inl bad ↦ let e = rw bad at h in absurd (cc)
  | inr (t, good) ↦
      let e = rw good at h in
      let same : t ≡ token = cc in
      (subst (λ x. Bears x header) same (token_of-Bears header t good), rw good)
]

pub bearer_token-going :
    (header : String) (s : Server) (token : String)
    → (bearer_token header s).0 ≡ going token
    → Bears token header × ((bearer_token header s).1 ≡ s)
unfolding bearer_token
bearer_token-going header s token h = elim (Bool-cases (is_empty header)) [
  | inl missing ↦ let e = rw missing at h in absurd (cc)
  | inr there ↦ rw there (given_token-going header s token (rw there at h))
]

-- The tenant that a key stands for.
pub record HasKey (lib : Library) (key : String) (t : Tenant) (db : Db) : Type 0 where
  pub row : TenantRow
  pub found : first (λ r. str_eq r.api_key_hash (hash_key lib key)) db.tenants ≡ some row
  pub same : row.tenant ≡ t

pub Reply-cases :
    {A : Type 0} (r : Reply A) → ((x : Response) × (r ≡ done x)) ⊎ ((a : A) × (r ≡ going a))
Reply-cases (done x) = inl (x, refl)
Reply-cases (going a) = inr (a, refl)

module _ (lib : Library) (s : Server) where
  find_tenant-going :
      (key : String) (t : Tenant)
      → (find_tenant lib key s).0 ≡ going t
      → HasKey lib key t s.db × ((find_tenant lib key s).1.db ≡ s.db)
  unfolding find_tenant get_tenant_by_api_key_hash
  find_tenant-going key t h = elim (Bool-cases (next_fault s.faults)) [
    | inl fault ↦ let e = rw fault at h in absurd (cc)
    | inr quiet ↦
        elim (Option-cases (first (λ r. str_eq r.api_key_hash (hash_key lib key)) s.db.tenants)) [
          | inl gone ↦ let e = rw (quiet, gone) at h in absurd (cc)
          | inr (row, found) ↦ elim (Bool-cases (has_json row.tenant.callback_headers)) [
            | inl read ↦
                let e = rw (quiet, found, read) at h in
                (record { row = row; found = found; same = cc }, rw (quiet, found, read))
            | inr null ↦ let e = rw (quiet, found, null) at h in absurd (cc)
          ]
        ]
  ]

  -- A request passes as tenant `t` only if its header bears a key whose hash the row of `t` has,
  -- and the middleware changes no table.
  pub authenticate-HasKey :
      (header : String) (t : Tenant)
      → (authenticate lib header s).0 ≡ going t
      → ((key : String) × Bears key header × HasKey lib key t s.db)
        × ((authenticate lib header s).1.db ≡ s.db)
  unfolding authenticate
  authenticate-HasKey header t h = elim (Reply-cases (bearer_token header s).0) [
    | inl (r, refused) ↦ let e = rw refused at h in absurd (cc)
    | inr (key, given) ↦
        let bears = bearer_token-going header s key given in
        let ran = find_tenant-going key t (rw (given, bears.1) at h) in
        ((key, bears.0, ran.0), rw (given, bears.1) ran.1)
  ]
