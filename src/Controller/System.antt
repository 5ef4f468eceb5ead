-- ===== src/Controller/System.antt =====
-- The controller over time (internal/controller/server.go): the requests that its routes lead to a
-- handler, the deliveries of the webhook dispatcher, and an environment that lets statements fail.
pub mod Invariant
pub mod Safety
use jobplane.Base.{ℕ, String, Bool, Option, List, [], ◌∷◌}
use jobplane.Store.Models.{Uuid, Tenant, CallbackStatus}
use jobplane.Store.Executions.{update_callback_status}
use jobplane.Api.{
  CreateTenantRequest, UpdateTenantRequest, CreateJobRequest, DequeueRequest,
  ExecutionResultRequest, AddLogRequest, Response,
}
use jobplane.Controller.Handlers.{Library, Call, Hooks, Server, Handler, serve}
use jobplane.Controller.Handlers.Jobs.{RunJobBody, create_job_handler, run_job}
use jobplane.Controller.Handlers.Executions.{get_execution, get_dlq_executions, retry_dlq_execution}
use jobplane.Controller.Handlers.Internal.{
  internal_dequeue, internal_heartbeat, internal_update_result,
}
use jobplane.Controller.Handlers.Logs.{internal_add_logs, get_logs}
use jobplane.Controller.Handlers.Tenants.{create_tenant_handler, update_tenant_handler}

-- One thing that happens. A tenant is the one that the middleware put into the context.
pub data Event : Type 0 where
  creates_tenant : Call → Option String → Option CreateTenantRequest → Event
  updates_tenant : Option Tenant → Option UpdateTenantRequest → Event
  creates_job : Call → Option Tenant → Option CreateJobRequest → Event
  runs_job : Call → String → Option Tenant → RunJobBody → Event
  gets_execution : String → Option Tenant → Event
  gets_logs : String → Option Tenant → String → String → Event
  lists_dlq : Option Tenant → String → String → Event
  retries : Call → Option Tenant → String → Event
  dequeues : Call → List ℕ → Option DequeueRequest → Event
  beats : Call → String → Event
  reports : Call → String → Option ExecutionResultRequest → Event
  logs : Call → String → Option AddLogRequest → Event
  delivers : Uuid → CallbackStatus → Event
  fails_next : List Bool → Event

module _ (lib : Library) (hooks : Hooks) (extension : ℕ) where
  unfoldable pub handler_of : Event → Server → Server
  handler_of (creates_tenant call key body) s =
      (serve (create_tenant_handler lib call key body) s).1
  handler_of (updates_tenant tenant body) s =
      (serve (update_tenant_handler lib hooks tenant body) s).1
  handler_of (creates_job call tenant body) s =
      (serve (create_job_handler lib call tenant body) s).1
  handler_of (runs_job call id tenant body) s = (serve (run_job lib call id tenant body) s).1
  handler_of (gets_execution id tenant) s = (serve (get_execution lib id tenant) s).1
  handler_of (gets_logs id tenant limit after) s = (serve (get_logs lib id tenant limit after) s).1
  handler_of (lists_dlq tenant limit offset) s =
      (serve (get_dlq_executions lib tenant limit offset) s).1
  handler_of (retries call tenant id) s = (serve (retry_dlq_execution lib call tenant id) s).1
  handler_of (dequeues call locked body) s = (serve (internal_dequeue call locked body) s).1
  handler_of (beats call id) s = (serve (internal_heartbeat lib extension call id) s).1
  handler_of (reports call id body) s = (serve (internal_update_result lib hooks call id body) s).1
  handler_of (logs call id body) s = (serve (internal_add_logs lib call id body) s).1
  handler_of (delivers id status) s = record s {
    world = (update_callback_status id status s.world).1;
  }
  handler_of (fails_next faults) s = record s { world = record { db = s.db; faults = faults } }

  unfoldable pub run : Server → List Event → Server
  run s [] = s
  run s (e ∷ es) = run (handler_of e s) es
