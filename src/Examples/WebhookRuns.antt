-- ===== src/Examples/WebhookRuns.antt =====
-- The theorems about the dispatcher's goroutines and about a tenant's key on small runs.
use jobplane.Base.{Option, String, ℕ, ◌≤◌, ◌≡◌, ◌⊎◌, refl, some, none, [], ◌∷◌, arith}
use jobplane.Base.Int.{pos}
use jobplane.Base.Text.{Lacks}
use jobplane.Store.Models.{Execution, running}
use jobplane.Auth.{hash_with}
use jobplane.Api.{CreateTenantRequest, tenant_created}
use jobplane.Controller.Handlers.{going, serve, serving}
use jobplane.Controller.Handlers.Tenants.{new_tenant, create_tenant_handler}
use jobplane.Controller.Middleware.Auth.{authenticate}
use jobplane.Controller.Webhook.{Outcome, answered}
use jobplane.Controller.Webhook.Pool.{
  Pool, new_pool, Works, acquires, Reaches, at_start, delivers, works, IsIdle, ShutdownReturns,
}
use jobplane.Controller.Webhook.Pool.Drained.{
  Answers, Holds, Runs, steps_left, reached-Holds, shutdown_drains,
}
use jobplane.Cli.Client.{JobClient, authorization_of}
use jobplane.Cli.Client.Keys.{created_key_authenticates}
use jobplane.Examples.Rows.{world, tables, lib, call, execution_at}

abbrev accepts : Execution → ℕ → Outcome
accepts e attempt = answered 204

abbrev first : Execution
first = execution_at 100 running 1

abbrev second : Execution
second = execution_at 101 running 1

-- The first delivery is under way, and the second one waits.
abbrev busy : Pool
busy = record (new_pool world) { waiting = second ∷ []; active = first ∷ [] }

busy_reached : Reaches accepts world busy (second ∷ first ∷ [])
busy_reached =
    delivers (record (new_pool world) { active = first ∷ [] }) (first ∷ []) second
      (works (record (new_pool world) { waiting = first ∷ [] })
        (record (new_pool world) { active = first ∷ [] }) (first ∷ [])
        (delivers (new_pool world) [] first at_start refl)
        (acquires [] [] first refl (omega arith) refl))
      refl

reached-Holds_example : Holds busy (second ∷ first ∷ [])
reached-Holds_example = reached-Holds accepts world busy (second ∷ first ∷ []) busy_reached

shutdown_drains_example :
    ((n : ℕ) (q : Pool)
      → Runs accepts n busy q
      → (IsIdle q ⊎ ((r : Pool) × Works accepts q r))
        × (n ≤ steps_left busy)
        × ((context_error r : Option String)
            → ShutdownReturns q context_error r
            → Answers q context_error r))
    × ((q : Pool)
        → Runs accepts (steps_left busy) busy q
        → IsIdle q × ((context_error : Option String) → ShutdownReturns q context_error none))
shutdown_drains_example = shutdown_drains accepts world busy (second ∷ first ∷ []) busy_reached

abbrev newcomer : CreateTenantRequest
newcomer = record {
  name = "new";
  rate_limit = pos 0;
  rate_limit_burst = pos 5;
  max_concurrent_executions = pos 1;
  callback_url = none;
  callback_headers = none;
}

abbrev client : JobClient
client = record { base_url = "http://localhost:6161"; token = "0a1b" }

created_key_authenticates_example :
    let (r, s) =
      serve (create_tenant_handler lib call (some "0a1b") (some newcomer)) (serving tables) in
    (r ≡ record { status = 201; body = tenant_created call.new_uuid "new" "0a1b" })
    × (authenticate lib (authorization_of client) s ≡ (going (new_tenant lib call newcomer), s))
unfolding Lacks hash_with
created_key_authenticates_example =
    created_key_authenticates lib call "0a1b" newcomer tables client refl
      (refl, (refl, (refl, (refl, tt)))) refl refl
