-- ===== src/Controller/System/Invariant.antt =====
-- What the store keeps, the controller keeps over any history (internal/controller/server.go).
use jobplane.Base.{ℕ, String, ◌≡◌, refl, true, Option, none, some, List, [], ◌∷◌}
use jobplane.Store.Models.{LogEntry, Uuid, Time, Tenant, Job, Execution, is_active}
use jobplane.Store.Db.{Db}
use jobplane.Store.Exec.Triple.{Keeps, Keeps-statement, result_post as as_kept, Triple-bind}
use jobplane.Store.Invariant.Kept.{KeptByStore}
use jobplane.Store.Jobs.{get_job_by_id, as_inserted}
use jobplane.Store.Executions.{
  update_callback_status, get_execution_by_id, list_dlq, count_running_executions,
}
use jobplane.Store.Logs.{get_execution_logs}
use jobplane.Controller.Handlers.{Library, Call, Hooks, Server}
use jobplane.Controller.Handlers.Rules.{
  Ensures, Holds, Ensures-bind, Ensures-keep, Ensures-store, Holds-in_transaction,
  Holds-store-in_transaction, Ensures-weaken, serve_holds, holds_rules,
}
use jobplane.Controller.Handlers.Jobs.{
  run_job, create_job_handler, start_execution, check_concurrency, scheduled_time, limit_running,
  new_execution, RunJobBody, status_of,
}
use jobplane.Controller.Handlers.Executions.{
  get_execution, owned_execution, get_dlq_executions, retry_dlq_execution,
}
use jobplane.Controller.System.{
  Event, creates_tenant, updates_tenant, creates_job, runs_job, gets_execution, gets_logs,
  lists_dlq, retries, dequeues, beats, reports, logs, delivers, fails_next, handler_of, run,
}
use jobplane.Api.{
  RunJobRequest, CreateJobRequest, CreateTenantRequest, UpdateTenantRequest, AddLogRequest,
  DequeueRequest, ExecutionResultRequest,
}
use jobplane.Base.Int.{ℤ}
use jobplane.Controller.Handlers.Logs.{get_logs, internal_add_logs}
use jobplane.Controller.Handlers.Tenants.{create_tenant_handler, update_tenant_handler}
use jobplane.Controller.Handlers.Internal.{
  internal_heartbeat, internal_dequeue, internal_update_result, record_result,
}
use native.Mathlib.Omega.{arith}

module _ {I : Db → Type 0} {Created : Execution → Db → Type 0} (kept : KeptByStore I Created) where
  get_job-Keeps : (i : Uuid) → Keeps I (get_job_by_id i)
  unfolding get_job_by_id
  get_job-Keeps i = Keeps-statement _ (λ db v. v)

  get_execution-Keeps : (i : Uuid) → Keeps I (get_execution_by_id i)
  unfolding get_execution_by_id
  get_execution-Keeps i = Keeps-statement _ (λ db v. v)

  owned-Holds : (i tenant_id : Uuid) → Holds I (owned_execution i tenant_id)
  unfolding owned_execution
  owned-Holds i tenant_id = search (holds_rules, get_execution-Keeps)

  get_execution-Holds :
      (lib : Library) (id : String) (tenant : Option Tenant) → Holds I (get_execution lib id tenant)
  unfolding get_execution
  get_execution-Holds lib id tenant = search (holds_rules, owned-Holds)

  list_dlq-Keeps : (i : Uuid) (limit offset : ℤ) → Keeps I (list_dlq i limit offset)
  unfolding list_dlq
  list_dlq-Keeps i limit offset = Keeps-statement _ (λ db v. ground arith)

  get_logs-Keeps :
      (tie : LogEntry → ℕ) (i : Uuid) (after_id limit : ℤ)
      → Keeps I (get_execution_logs tie i after_id limit)
  unfolding get_execution_logs
  get_logs-Keeps tie i after_id limit = Keeps-statement _ (λ db v. ground arith)

  count_running-Keeps : (i : Uuid) → Keeps I (count_running_executions i)
  unfolding count_running_executions
  count_running-Keeps i =
      Triple-bind {R = λ _. I} _ _ (Keeps-statement _ (λ db v. v))
        (λ _. Keeps-statement _ (λ db v. v))

  module _ (lib : Library) where
    get_dlq-Holds :
        (tenant : Option Tenant) (limit offset : String)
        → Holds I (get_dlq_executions lib tenant limit offset)
    unfolding get_dlq_executions
    get_dlq-Holds tenant limit offset = search (holds_rules, list_dlq-Keeps)

    get_logs-Holds :
        (id : String) (tenant : Option Tenant) (limit after_id : String)
        → Holds I (get_logs lib id tenant limit after_id)
    unfolding get_logs
    get_logs-Holds id tenant limit after_id =
        search (holds_rules, owned-Holds, get_logs-Keeps) depth 7

    retry-Holds :
        (call : Call) (tenant : Option Tenant) (id : String)
        → Holds I (retry_dlq_execution lib call tenant id)
    unfolding retry_dlq_execution
    retry-Holds call tenant id = search (holds_rules, owned-Holds, kept.by_retry_from_dlq) depth 7

    heartbeat-Holds :
        (extension : ℕ) (call : Call) (id : String)
        → Holds I (internal_heartbeat lib extension call id)
    unfolding internal_heartbeat
    heartbeat-Holds extension call id = search (holds_rules, kept.by_set_visible_after)

    add_logs-Holds :
        (call : Call) (id : String) (body : Option AddLogRequest)
        → Holds I (internal_add_logs lib call id body)
    unfolding internal_add_logs
    add_logs-Holds call id body = search (holds_rules, kept.by_add_log_entry)

    create_tenant-Holds :
        (call : Call) (key : Option String) (body : Option CreateTenantRequest)
        → Holds I (create_tenant_handler lib call key body)
    unfolding create_tenant_handler
    create_tenant-Holds call key body = search (holds_rules, kept.by_create_tenant)

    update_tenant-Holds :
        (hooks : Hooks) (tenant : Option Tenant) (body : Option UpdateTenantRequest)
        → Holds I (update_tenant_handler lib hooks tenant body)
    unfolding update_tenant_handler
    update_tenant-Holds hooks tenant body = search (holds_rules, kept.by_update_tenant) depth 7

    record_result-Holds :
        (call : Call) (i : Uuid) (req : ExecutionResultRequest) → Holds I (record_result call i req)
    unfolding record_result
    record_result-Holds call i req = search (holds_rules, kept.by_complete, kept.by_fail)

    update_result-Holds :
        (hooks : Hooks) (call : Call) (id : String) (body : Option ExecutionResultRequest)
        → Holds I (internal_update_result lib hooks call id body)
    unfolding internal_update_result
    update_result-Holds hooks call id body = search (holds_rules, record_result-Holds) depth 7

    create_job-Holds :
        (call : Call) (tenant : Option Tenant) (body : Option CreateJobRequest)
        → Holds I (create_job_handler lib call tenant body)
    unfolding create_job_handler
    create_job-Holds call tenant body =
        search (holds_rules, Holds-store-in_transaction, kept.by_create_job) depth 9

  dequeue-Holds :
      (call : Call) (locked : List ℕ) (body : Option DequeueRequest)
      → Holds I (internal_dequeue call locked body)
  unfolding internal_dequeue
  dequeue-Holds call locked body = search (holds_rules, kept.by_dequeue_batch)

  limit_running-Holds : (tenant : Tenant) → Holds I (limit_running tenant)
  unfolding limit_running
  limit_running-Holds tenant = search (holds_rules, count_running-Keeps)

  check_concurrency-Holds : (tenant : Tenant) → Holds I (check_concurrency tenant)
  unfolding check_concurrency
  check_concurrency-Holds tenant = search (holds_rules, limit_running-Holds)

  status_of-active : (t : Option Time) → is_active (status_of t) ≡ true
  status_of-active none = refl
  status_of-active (some t) = refl

  module _ (lib : Library) where
    start_execution-Ensures :
        (call : Call) (job_id : Uuid) (req : RunJobRequest) (tenant : Tenant) (job : Job)
        → Ensures I (start_execution lib call job_id req tenant job) (λ _. I) (λ _. Unit {0})
    unfolding start_execution new_execution
    start_execution-Ensures call job_id req tenant job =
        let e = new_execution lib call job_id req tenant job in
        let active = status_of-active req.scheduled_at in
        Ensures-bind {R = λ _. I} _ _ (Ensures-weaken (check_concurrency-Holds tenant)) λ _.
          Ensures-bind {R = λ _. Created (as_inserted e)} _ _
            (Ensures-weaken (Ensures-store _ _ _ (kept.by_create_execution e active)))
            λ _.
              Ensures-bind {R = λ _. I} _ _
                (Ensures-weaken (
                  Ensures-store _ _ _ (
                    kept.by_enqueue (as_inserted e) active call.now (lib.marshal_payload job)
                      (scheduled_time call.now req.scheduled_at))))
                (λ _. Ensures-keep tt (λ db v. v))

    run_job-Holds :
        (call : Call) (id : String) (tenant : Option Tenant) (body : RunJobBody)
        → Holds I (run_job lib call id tenant body)
    unfolding run_job
    run_job-Holds call id tenant body =
        search (holds_rules, get_job-Keeps, Holds-in_transaction, start_execution-Ensures) depth 12

    module _ (hooks : Hooks) (extension : ℕ) where
      -- Every request, delivery and failure keeps the invariant.
      pub handler_of-keeps :
          (e : Event) (s : Server) → I s.db → I (handler_of lib hooks extension e s).db
      unfolding handler_of
      handler_of-keeps (creates_tenant call key body) s v =
          serve_holds _ s (create_tenant-Holds lib call key body) v
      handler_of-keeps (updates_tenant tenant body) s v =
          serve_holds _ s (update_tenant-Holds lib hooks tenant body) v
      handler_of-keeps (creates_job call tenant body) s v =
          serve_holds _ s (create_job-Holds lib call tenant body) v
      handler_of-keeps (runs_job call id tenant body) s v =
          serve_holds _ s (run_job-Holds call id tenant body) v
      handler_of-keeps (gets_execution id tenant) s v =
          serve_holds _ s (get_execution-Holds lib id tenant) v
      handler_of-keeps (gets_logs id tenant limit after) s v =
          serve_holds _ s (get_logs-Holds lib id tenant limit after) v
      handler_of-keeps (lists_dlq tenant limit offset) s v =
          serve_holds _ s (get_dlq-Holds lib tenant limit offset) v
      handler_of-keeps (retries call tenant id) s v =
          serve_holds _ s (retry-Holds lib call tenant id) v
      handler_of-keeps (dequeues call locked body) s v =
          serve_holds _ s (dequeue-Holds call locked body) v
      handler_of-keeps (beats call id) s v =
          serve_holds _ s (heartbeat-Holds lib extension call id) v
      handler_of-keeps (reports call id body) s v =
          serve_holds _ s (update_result-Holds lib hooks call id body) v
      handler_of-keeps (logs call id body) s v = serve_holds _ s (add_logs-Holds lib call id body) v
      handler_of-keeps (delivers id status) s v =
          as_kept I (update_callback_status id status s.world).0 _
            ((kept.by_update_callback_status id status).at s.world v)
      handler_of-keeps (fails_next faults) s v = v

      pub run-keeps : (es : List Event) (s : Server) → I s.db → I (run lib hooks extension s es).db
      unfolding run
      run-keeps [] s v = v
      run-keeps (e ∷ es) s v = run-keeps es _ (handler_of-keeps e s v)
