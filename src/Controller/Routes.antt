-- ===== src/Controller/Routes.antt =====
-- internal/controller/server.go, New: which middleware stands before a handler.
pub mod Guarded
use jobplane.Base.{ℕ, ◌+◌, String, Bool, Option, none, some, List, [], ◌∷◌, length, drop}
use jobplane.Store.Models.{Uuid, Time, Tenant}
use jobplane.Api.{Response, Body, plain_text, error_response}
use jobplane.Controller.Handlers.{
  Library, Server, Notice, webhook_started, tenant_updated, Reply, done, going, Handler, serve,
}
use jobplane.Controller.Middleware.Auth.{authenticate, require_internal_auth}
use jobplane.Controller.Middleware.RateLimit.{
  Bucket, RateLimiter, Verdict, unauthorized, too_many_requests, passes, rate_middleware,
  invalidate_tenant,
}

-- The server with the rate limiter that its routes share.
pub record Front (L : Type 0) : Type 0 where
  pub server : Server
  pub limiter : RateLimiter L

-- OnTenantUpdated is InvalidateTenant.
abbrev pub heed : {L : Type 0} → List Notice → RateLimiter L → RateLimiter L
heed [] rl = rl
heed (webhook_started i ∷ ns) rl = heed ns rl
heed (tenant_updated i ∷ ns) rl = heed ns (invalidate_tenant i rl)

-- The handler runs, and the limiter heeds what it tells.
unfoldable pub run_handler :
    {L : Type 0} → Handler Response → Server → RateLimiter L → Response × Front L
run_handler next s rl =
    let (r, s') = serve next s in
    (r, record { server = s'; limiter = heed (drop (length s.notices) s'.notices) rl })

module _ {L : Type 0} (lib : Library) (bucket : Bucket L) where
  abbrev pub by_verdict : Verdict → Handler Response → Server → RateLimiter L → Response × Front L
  by_verdict unauthorized next s rl = (
    record { status = 401; body = error_response "Unauthorized" 401 },
    record { server = s; limiter = rl },
  )
  by_verdict too_many_requests next s rl = (
    record { status = 429; body = plain_text "Too Many Requests" },
    record { server = s; limiter = rl },
  )
  by_verdict passes next s rl = run_handler next s rl

  abbrev pub limited :
      Time
      → Reply Tenant
      → (Option Tenant → Handler Response)
      → Server
      → RateLimiter L
      → Response × Front L
  limited now (done r) next s rl = (r, record { server = s; limiter = rl })
  limited now (going t) next s rl =
      let (v, rl') = rate_middleware bucket now (some t) rl in by_verdict v (next (some t)) s rl'

  -- authMW(rateMW(next))
  unfoldable pub tenant_route :
      Time → String → (Option Tenant → Handler Response) → Front L → Response × Front L
  unfolding run_handler
  tenant_route now header next f =
      let (r, s) = authenticate lib header f.server in limited now r next s f.limiter

-- internalAuth(next)
unfoldable pub internal_route : String → String → Handler Response → Server → Response × Server
internal_route system_secret header next s =
    serve (require_internal_auth system_secret header next) s
