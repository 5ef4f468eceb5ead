-- ===== src/Examples/ServerRuns.antt =====
-- The controller's theorems on the example tables.
use Prim.Native.String.{String}
use jobplane.Base.{
  ℕ, ◌≡◌, ◌≢◌, ◌≤◌, refl, true, false, Option, none, some, List, [], ◌∷◌, arith, length, leb, ◌==◌,
  if◌then◌else◌,
}
use jobplane.Base.Sort.{order_by, insert_by}
use jobplane.Base.Int.{ℤ, pos}
use jobplane.Store.Models.{Uuid, Time, Tenant, Execution, QueueItem, pending, running, failed}
use jobplane.Store.Db.{find_execution}
use jobplane.Store.Exec.{ok}
use jobplane.Store.Queue.{
  dequeue_batch, dequeue_body, select_batch, claim_batch, update_claimed, update_started,
  insert_queued, enqueue,
}
use jobplane.Store.Queue.Exclusive.{delivers}
use jobplane.Store.Jobs.{get_job_by_id, create_execution}
use jobplane.Store.Executions.{count_running_executions}
use jobplane.Store.Tenants.{get_tenant_by_api_key_hash}
use jobplane.Store.Invariant.Backed.{IsConsistent}
use jobplane.Store.Invariant.Finishing.{Unqueued}
use jobplane.Store.Invariant.Ended.{HasEnded}
use jobplane.Auth.{hash_with}
use jobplane.Api.{
  Response, CreateJobRequest, DequeueRequest, ExecutionResultRequest, run_started, dequeued,
}
use jobplane.Controller.Handlers.{serving, going, serve}
use jobplane.Controller.Handlers.Jobs.{
  RunJobBody, absent, run_job, create_job_handler, start_execution, check_concurrency,
  limit_running, new_execution,
}
use jobplane.Controller.Handlers.Executions.{get_execution, retry_dlq_execution}
use jobplane.Controller.Handlers.Internal.{
  internal_dequeue, internal_update_result, trigger_webhook,
}
use jobplane.Controller.Handlers.Logs.{get_logs}
use jobplane.Controller.Handlers.Isolation.{not_found, after_one, hidden_not_found}
use jobplane.Controller.Handlers.Atomicity.{IsAtomic, handlers-IsAtomic}
use jobplane.Controller.Handlers.Admission.{IsStarted, run_job_ok}
use jobplane.Controller.Handlers.Batches.{dequeue_within_limit}
use jobplane.Controller.System.{Event, runs_job, dequeues, reports, fails_next, run}
use jobplane.Controller.System.Safety.{start, reachable-IsConsistent, ended_forever}
use jobplane.Controller.Webhook.{Outcome, answered, deliver_with_retry, max_retries}
use jobplane.Controller.Webhook.Attempts.{Ends, deliver_with_retry-Ends}
use jobplane.Controller.Handlers.Unread.{failure_unread}
use jobplane.Controller.Middleware.Auth.{
  Bears, HasKey, authenticate, authenticate-HasKey, bearer_token, find_tenant,
}
use jobplane.Controller.Middleware.RateLimit.{
  Visit, requests, changes, visit_all, load, invalidate_tenant,
}
use jobplane.Controller.Middleware.RateLimit.Fresh.{
  IsCurrent, settings_expire, invalidated-IsCurrent,
}
use jobplane.Base.Text.{split}
use jobplane.Examples.Rows.{
  counter, acme, other_tenant, tables, server, lib, call, hooks, execution_at,
}

-- A day of requests: a run, a batch, a report, and a statement that is lost.
abbrev history : List Event
history =
    runs_job call "job" (some acme) absent
    ∷ dequeues call [] (some (record { limit = pos 2; tenant_ids = [] }))
    ∷ fails_next (true ∷ [])
    ∷ reports call "waiting" (some (record { exit_code = some (pos 0); error = ""; result = none }))
    ∷ []

reachable-IsConsistent_example : IsConsistent (run lib hooks 60 start history).db
reachable-IsConsistent_example = reachable-IsConsistent lib hooks 60 history

pub tables-IsConsistent : IsConsistent tables
tables-IsConsistent = record {
  executions_distinct = (refl, (refl, (refl, (refl, tt))));
  queue_distinct = (refl, (refl, (refl, tt)));
  dlq_distinct = (refl, tt);
  backed = (
    record {
      execution = execution_at 100 pending 0;
      found = refl;
      active = refl;
      same_tenant = refl;
      same_priority = refl;
    },
    (
      record {
        execution = execution_at 101 running 1;
        found = refl;
        active = refl;
        same_tenant = refl;
        same_priority = refl;
      },
      (
        record {
          execution = execution_at 102 running 6;
          found = refl;
          active = refl;
          same_tenant = refl;
          same_priority = refl;
        },
        tt,
      ),
    ),
  );
  known = (record { execution = execution_at 103 failed 6; found = refl }, tt);
}

ended_forever_example :
    let t = run lib hooks 60 server history in
    HasEnded 103 t.db
    × Unqueued 103 t.db
    × ((n : Time) (locked : List ℕ) (tenants : List Uuid) (limit : ℤ) (items : List QueueItem)
        → (dequeue_batch n locked tenants limit t.world).0 ≡ ok items
        → delivers 103 items ≡ false)
ended_forever_example =
    ended_forever lib hooks 60 103 server tables-IsConsistent
      (record { execution = execution_at 103 failed 6; found = refl; over = refl }) history

handlers-IsAtomic_example :
    ((body : RunJobBody) → IsAtomic (run_job lib call "job" (some acme) body))
    × ((body : Option CreateJobRequest) → IsAtomic (create_job_handler lib call (some acme) body))
    × IsAtomic (retry_dlq_execution lib call (some acme) "job")
    × ((locked : List ℕ) (body : Option DequeueRequest)
        → IsAtomic (internal_dequeue call locked body))
handlers-IsAtomic_example = handlers-IsAtomic lib call "job" (some acme)

abbrev roomy : Tenant
roomy = record acme { max_concurrent_executions = pos 3 }

roomy-accepted :
    (run_job lib call "job" (some roomy) absent server).0
    ≡ going (record { status = 200; body = run_started 200 })
unfolding run_job start_execution check_concurrency limit_running new_execution get_job_by_id
    create_execution enqueue insert_queued count_running_executions
roomy-accepted = refl

run_job_ok_example :
    ◌≡◌ {A = Response}
      (record { status = 200; body = run_started 200 })
      (record { status = 200; body = run_started call.new_uuid })
    × IsStarted lib call roomy "job" absent tables
        (run_job lib call "job" (some roomy) absent server).1.db
run_job_ok_example = run_job_ok lib call roomy "job" absent server roomy-accepted

hidden_not_found_example :
    (serve (get_execution lib "waiting" (some other_tenant)) server ≡ (not_found, after_one server))
    × (serve (get_logs lib "waiting" (some other_tenant) "" "") server
        ≡ (not_found, after_one server))
    × (serve (retry_dlq_execution lib call (some other_tenant) "waiting") server
        ≡ (not_found, after_one server))
hidden_not_found_example =
    hidden_not_found 100 other_tenant server lib "waiting" refl call "" "" foreign
  where
    foreign : (e : Execution) → find_execution 100 tables.executions ≡ some e → e.tenant_id ≢ 2
    foreign e h = ground arith

abbrev ask_one : DequeueRequest
ask_one = record { limit = pos 1; tenant_ids = [] }

abbrev one_item : List QueueItem
one_item = record { execution_id = 100; payload = "{}" } ∷ []

answers_one :
    (serve (internal_dequeue call [] (some ask_one)) server).0
    ≡ record { status = 200; body = dequeued one_item }
unfolding internal_dequeue dequeue_batch dequeue_body select_batch order_by insert_by claim_batch
    update_claimed update_started
answers_one = refl

dequeue_within_limit_example :
    (length one_item ≤ 100) × ((n : ℕ) → 1 ≤ n → ◌≡◌ {A = ℤ} (pos 1) (pos n) → length one_item ≤ n)
dequeue_within_limit_example = dequeue_within_limit call [] ask_one server one_item answers_one

-- The first answer is 503, the second 200.
abbrev recovering : ℕ → Outcome
recovering n = if leb n 0 then answered 503 else answered 200

deliver_with_retry-Ends_example : Ends recovering 0 max_retries (deliver_with_retry recovering)
deliver_with_retry-Ends_example = deliver_with_retry-Ends recovering

abbrev crash : ExecutionResultRequest
crash = record { exit_code = some (pos 1); error = "boom"; result = none }

failure_unread_example :
    let s = serving tables in
    let (r, s') = serve (internal_update_result lib hooks call "runs" (some crash)) s in
    (trigger_webhook 101 s'.world ≡ none)
    × (serve (get_execution lib "runs" (some acme)) s' ≡ (not_found, after_one s'))
    × (serve (get_logs lib "runs" (some acme) "" "") s' ≡ (not_found, after_one s'))
failure_unread_example =
    failure_unread lib 101 "runs" refl call hooks crash tables (execution_at 101 running 1) refl
      refl refl acme "" ""

knows_key : (authenticate lib "Bearer key" server).0 ≡ going acme
unfolding hash_with authenticate bearer_token find_tenant get_tenant_by_api_key_hash split
knows_key = refl

authenticate-HasKey_example :
    ((key : String) × Bears key "Bearer key" × HasKey lib key acme tables)
    × ((authenticate lib "Bearer key" server).1.db ≡ tables)
authenticate-HasKey_example = authenticate-HasKey lib server "Bearer key" acme knows_key

abbrev visits : List (Visit counter)
visits = requests 100 (some acme) ∷ changes 1 ∷ requests 200 (some acme) ∷ []

settings_expire_example :
    IsCurrent counter acme 500 (visit_all counter visits (record { ttl = 300; limiters = [] }))
settings_expire_example =
    settings_expire counter 200 visits 300 500 acme (omega arith, (tt, (omega arith, tt)))
      (omega arith)

invalidated-IsCurrent_example :
    let rl = visit_all counter visits (record { ttl = 300; limiters = [] }) in
    IsCurrent counter acme 250 (invalidate_tenant 1 rl)
    × ((i : Uuid)
        → (i == 1) ≡ false
        → load i (invalidate_tenant 1 rl).limiters ≡ load i rl.limiters)
invalidated-IsCurrent_example =
    invalidated-IsCurrent counter acme 250
      (visit_all counter visits (record { ttl = 300; limiters = [] }))
