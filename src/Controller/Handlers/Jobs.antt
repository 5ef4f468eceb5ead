-- ===== src/Controller/Handlers/Jobs.antt =====
-- internal/controller/handlers/jobs.go: CreateJob and RunJob. A body that does not decode is `none`,
-- and for RunJob `none` is an empty body. The counters of the metrics are left out.
use jobplane.Base.{
  String, Bool, false, Option, none, some, ◌||◌, ◌==◌, not, ltb, leb, if◌then◌else◌,
}
use jobplane.Base.Int.{pos, pos_part, ltb_ℤ}
use text.Mathlib.Text.{◌==◌ as str_eq}
use jobplane.Store.Models.{
  Uuid, Time, Json, Tenant, Job, Execution, ExecutionStatus, CallbackStatus, pending, scheduled,
  callback_pending,
}
use jobplane.Store.Jobs.{create_job, get_job_by_id, create_execution}
use jobplane.Store.Queue.{enqueue}
use jobplane.Store.Executions.{count_running_executions}
use jobplane.Api.{
  Headers, CreateJobRequest, RunJobRequest, Response, job_created, run_started, priority_min,
  priority_max,
}
use jobplane.Controller.Handlers.{
  Library, Call, Handler, ◌>>=◌, ◌>>◌, require, unless, store, in_transaction, ok_response, keep,
}

-- `x := default; if override != nil { x = override }`
abbrev pub override : {A : Type 0} → Option A → Option A → Option A
override none d = d
override (some a) d = some a

abbrev pub is_empty : String → Bool
is_empty s = str_eq s ""

-- `nil`, or a pointer to the empty string.
abbrev pub has_url : Option String → Bool
has_url none = false
has_url (some url) = not (is_empty url)

abbrev pub callback_status_of : Option String → Option CallbackStatus
callback_status_of url = if has_url url then some callback_pending else none

abbrev pub in_past : Time → Option Time → Bool
in_past now none = false
in_past now (some t) = ltb t now

abbrev pub status_of : Option Time → ExecutionStatus
status_of none = pending
status_of (some t) = scheduled

abbrev pub scheduled_time : Time → Option Time → Time
scheduled_time now none = now
scheduled_time now (some t) = t

-- `MaxConcurrentExecutions > 0`, and then the count of running executions against it.
unfoldable pub limit_running : Tenant → Handler (Unit {0})
unfolding count_running_executions
limit_running tenant = do
  count ← store (count_running_executions tenant.id) "Failed to count running executions" 500
  unless (leb (pos_part tenant.max_concurrent_executions) count)
      "Max concurrent executions for tenant reached" 429

unfoldable pub check_concurrency : Tenant → Handler (Unit {0})
unfolding limit_running
check_concurrency tenant =
    if ltb_ℤ (pos 0) tenant.max_concurrent_executions then limit_running tenant else keep tt

abbrev pub no_request : RunJobRequest
no_request = record { scheduled_at = none; callback_url = none; callback_headers = none }

-- The body of RunJob may be left out.
pub data RunJobBody : Type 0 where
  absent : RunJobBody
  malformed : RunJobBody
  given : RunJobRequest → RunJobBody

abbrev pub run_job_request : RunJobBody → Option RunJobRequest
run_job_request absent = some no_request
run_job_request malformed = none
run_job_request (given req) = some req

module _ (lib : Library) where
  -- `if headers != nil { x, _ = json.Marshal(headers) }`
  abbrev pub override_headers : Option Headers → Option Json → Option Json
  override_headers none d = d
  override_headers (some hs) d = some (lib.marshal_headers (some hs))

  unfoldable pub new_job : Call → CreateJobRequest → Tenant → Job
  new_job call req tenant = record {
    id = call.new_uuid;
    tenant_id = tenant.id;
    name = req.name;
    image = req.image;
    command = req.command;
    default_timeout = req.default_timeout;
    priority = req.priority;
    callback_url = override req.callback_url tenant.callback_url;
    callback_headers = override_headers req.callback_headers tenant.callback_headers;
    created_at = call.now;
  }

  unfoldable pub create_job_handler :
      Call → Option Tenant → Option CreateJobRequest → Handler Response
  unfolding new_job create_job
  create_job_handler call tenant_of body = do
    req ← require body "Invalid request body" 400
    unless (is_empty req.name || is_empty req.image) "Name and Image are required" 400
    unless (ltb_ℤ req.priority priority_min || ltb_ℤ priority_max req.priority)
        "Priority must be between 0 and 100" 400
    tenant ← require tenant_of "Unauthorized" 401
    in_transaction (store (create_job (new_job call req tenant)) "Failed to create job" 500)
    ok_response 200 (job_created call.new_uuid)

  unfoldable pub new_execution : Call → Uuid → RunJobRequest → Tenant → Job → Execution
  new_execution call job_id req tenant job = record {
    id = call.new_uuid;
    job_id = job_id;
    tenant_id = tenant.id;
    status = status_of req.scheduled_at;
    priority = job.priority;
    attempt = 0;
    exit_code = none;
    error_message = none;
    retried_from = none;
    callback_url = override req.callback_url job.callback_url;
    callback_headers = override_headers req.callback_headers job.callback_headers;
    callback_status = callback_status_of (override req.callback_url job.callback_url);
    result = none;
    scheduled_at = some (scheduled_time call.now req.scheduled_at);
    created_at = call.now;
    started_at = none;
    completed_at = none;
  }

  unfoldable pub start_execution : Call → Uuid → RunJobRequest → Tenant → Job → Handler (Unit {0})
  unfolding check_concurrency create_execution enqueue new_execution
  start_execution call job_id req tenant job = do
    check_concurrency tenant
    store (create_execution (new_execution call job_id req tenant job)) "Failed to create execution"
        500
    store
        (enqueue call.now call.new_uuid (lib.marshal_payload job)
          (scheduled_time call.now req.scheduled_at))
        "Failed to enqueue" 500
    keep tt

  unfoldable pub run_job : Call → String → Option Tenant → RunJobBody → Handler Response
  unfolding start_execution get_job_by_id
  run_job call job_id_str tenant_of body = do
    job_id ← require (lib.parse_uuid job_id_str) "Invalid job id" 400
    tenant ← require tenant_of "Unauthorized" 401
    req ← require (run_job_request body) "Invalid request body" 400
    job ← store (get_job_by_id job_id) "Related job not found" 404
    unless (not (job.tenant_id == tenant.id)) "Related job not found" 404
    unless (in_past call.now req.scheduled_at) "Scheduled time cannot be in the past" 400
    in_transaction (start_execution call job_id req tenant job)
    ok_response 200 (run_started call.new_uuid)
