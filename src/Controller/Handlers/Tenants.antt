-- ===== src/Controller/Handlers/Tenants.antt =====
-- internal/controller/handlers/tenants.go: CreateTenant and UpdateTenant. `api_key` is the random key
-- that CreateTenant makes, `none` where the system has no entropy.
use jobplane.Base.{String, Bool, Option, some, ◌&&◌, if◌then◌else◌}
use jobplane.Base.Int.{ℤ, pos, leb_ℤ}
use jobplane.Store.Models.{Tenant}
use jobplane.Store.Tenants.{create_tenant, update_tenant}
use jobplane.Api.{CreateTenantRequest, UpdateTenantRequest, Response, no_body, tenant_created}
use jobplane.Controller.Handlers.{
  hash_key, Library, Call, Hooks, tenant_updated, notify, Handler, ◌>>=◌, ◌>>◌, require, store,
  ok_response,
}
use jobplane.Controller.Handlers.Jobs.{is_empty}

abbrev is_zero : ℤ → Bool
is_zero n = leb_ℤ n (pos 0) && leb_ℤ (pos 0) n

-- `if n == 0 { n = default }`
abbrev pub zero_default : ℤ → ℤ → ℤ
zero_default n default = if is_zero n then default else n

module _ (lib : Library) where
  unfoldable pub new_tenant : Call → CreateTenantRequest → Tenant
  new_tenant call req = record {
    id = call.new_uuid;
    name = req.name;
    rate_limit = zero_default req.rate_limit (pos 100);
    rate_limit_burst = zero_default req.rate_limit_burst (pos 100);
    max_concurrent_executions = req.max_concurrent_executions;
    callback_url = req.callback_url;
    callback_headers = some (lib.marshal_headers req.callback_headers);
    created_at = call.now;
  }

  unfoldable pub create_tenant_handler :
      Call → Option String → Option CreateTenantRequest → Handler Response
  unfolding new_tenant create_tenant
  create_tenant_handler call api_key body = do
    req ← require body "Invalid request body" 400
    key ← require api_key "Entropy failure" 500
    store (create_tenant (new_tenant call req) (hash_key lib key)) "Failed to create tenant" 500
    ok_response 201 (tenant_created call.new_uuid req.name key)

  -- What a request leaves out stays, but for the callback, which is always replaced.
  unfoldable pub updated_tenant : UpdateTenantRequest → Tenant → Tenant
  updated_tenant req t = record t {
    name = if is_empty req.name then t.name else req.name;
    rate_limit = zero_default req.rate_limit t.rate_limit;
    rate_limit_burst = zero_default req.rate_limit_burst t.rate_limit_burst;
    max_concurrent_executions =
        zero_default req.max_concurrent_executions t.max_concurrent_executions;
    callback_url = req.callback_url;
    callback_headers = some (lib.marshal_headers req.callback_headers);
  }

  unfoldable pub update_tenant_handler :
      Hooks → Option Tenant → Option UpdateTenantRequest → Handler Response
  unfolding updated_tenant update_tenant
  update_tenant_handler hooks tenant_of body = do
    req ← require body "Invalid request body" 400
    tenant ← require tenant_of "Unauthorized" 401
    store (update_tenant (updated_tenant req tenant)) "Failed to update tenant" 500
    notify hooks.has_on_tenant_updated (tenant_updated tenant.id)
    ok_response 204 no_body
