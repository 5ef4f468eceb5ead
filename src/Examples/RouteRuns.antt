-- ===== src/Examples/RouteRuns.antt =====
-- The theorems about routes on the example tables.
use jobplane.Base.{ℕ, ◌≤◌, ◌≡◌, ◌⊎◌, Option, some, []}
use jobplane.Base.Int.{pos}
use jobplane.Store.Models.{Tenant}
use jobplane.Api.{Response}
use jobplane.Controller.Handlers.{Handler, serve}
use jobplane.Controller.Handlers.Executions.{get_execution}
use jobplane.Controller.Handlers.Internal.{internal_dequeue}
use jobplane.Controller.Middleware.Auth.{Bears}
use jobplane.Controller.Routes.{Front, tenant_route, internal_route}
use jobplane.Controller.Routes.Guarded.{IsGuarded, tenant_route-IsGuarded, internal_route-guarded}
use jobplane.Examples.Rows.{now, server, lib, call, counter}

abbrev gets : Option Tenant → Handler Response
gets = get_execution lib "waiting"

abbrev front : Front ℕ
front = record { server = server; limiter = record { ttl = 300; limiters = [] } }

tenant_route-IsGuarded_example :
    let (r, f) = tenant_route lib counter now "Bearer key" gets front in
    IsGuarded lib "Bearer key" gets server r f.server.db
tenant_route-IsGuarded_example = tenant_route-IsGuarded lib counter now "Bearer key" gets front

abbrev asks : Handler Response
asks = internal_dequeue call [] (some (record { limit = pos 1; tenant_ids = [] }))

internal_route-guarded_example :
    let (r, s) = internal_route "secret" "Bearer secret" asks server in
    ((400 ≤ r.status) × (s.db ≡ server.db))
    ⊎ (Bears "secret" "Bearer secret" × ((r, s) ≡ serve asks server))
internal_route-guarded_example = internal_route-guarded "secret" "Bearer secret" asks server
