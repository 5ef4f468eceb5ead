-- ===== src/Controller/Handlers/Executions.antt =====
-- internal/controller/handlers/executions.go, the endpoints of a tenant: GetExecution,
-- GetDQLExecutions and RetryDQLExecution.
use jobplane.Base.{String, Option, none, some, not, ◌&&◌, ◌==◌, map, if◌then◌else◌}
use jobplane.Base.Int.{ℤ, pos, ltb_ℤ, leb_ℤ}
use jobplane.Store.Models.{Uuid, Tenant, Execution, DlqEntry}
use jobplane.Store.Executions.{get_execution_by_id, list_dlq, retry_from_dlq}
use jobplane.Api.{
  ExecutionResponse, DlqExecutionResponse, Response, execution_found, dlq_listed, retry_started,
}
use jobplane.Controller.Handlers.{
  Library, Call, Handler, ◌>>=◌, ◌>>◌, require, unless, store, keep, ok_response,
}
use jobplane.Controller.Handlers.Jobs.{is_empty}

unfoldable pub to_response : Execution → ExecutionResponse
to_response e = record {
  id = e.id;
  status = e.status;
  priority = e.priority;
  attempt = e.attempt;
  scheduled_at = e.scheduled_at;
  started_at = e.started_at;
  completed_at = e.completed_at;
  exit_code = e.exit_code;
  error = e.error_message;
  result = e.result;
  callback_url = e.callback_url;
  callback_status = e.callback_status;
}

unfoldable pub to_dlq_response : DlqEntry → DlqExecutionResponse
to_dlq_response d = record {
  id = d.id;
  execution_id = d.execution_id;
  job_id = d.job_id;
  job_name = d.job_name;
  priority = d.priority;
  error_message = d.error_message;
  attempts = d.attempts;
  failed_at = d.failed_at;
}

-- TenantIDFromContext
abbrev pub tenant_id_of : Option Tenant → Option Uuid
tenant_id_of none = none
tenant_id_of (some t) = some t.id

-- `err != nil || execution.TenantID != tenantID`: a foreign execution looks like a missing one.
unfoldable pub owned_execution : Uuid → Uuid → Handler Execution
unfolding get_execution_by_id
owned_execution execution_id tenant_id = do
  execution ← store (get_execution_by_id execution_id) "Execution not found" 404
  unless (not (execution.tenant_id == tenant_id)) "Execution not found" 404
  keep execution

-- A `limit` counts if it is a number from 1 to 10000.
abbrev pub limit_or : ℤ → Option ℤ → ℤ
limit_or default none = default
limit_or default (some n) = if ltb_ℤ (pos 0) n && leb_ℤ n (pos 10000) then n else default

abbrev pub number_or : ℤ → Option ℤ → ℤ
number_or default none = default
number_or default (some n) = n

module _ (lib : Library) where
  -- A parameter of the query; the empty string is one that is not there.
  abbrev pub query_number : String → Option ℤ
  query_number s = if is_empty s then none else lib.atoi s

  unfoldable pub get_execution : String → Option Tenant → Handler Response
  unfolding owned_execution to_response
  get_execution execution_id_str tenant_of = do
    execution_id ← require (lib.parse_uuid execution_id_str) "Invalid execution id" 400
    tenant_id ← require (tenant_id_of tenant_of) "Unauthorized" 401
    execution ← owned_execution execution_id tenant_id
    ok_response 200 (execution_found (to_response execution))

  unfoldable pub get_dlq_executions : Option Tenant → String → String → Handler Response
  unfolding list_dlq to_dlq_response
  get_dlq_executions tenant_of limit offset = do
    tenant_id ← require (tenant_id_of tenant_of) "Unauthorized" 401
    entries ←
        store
          (list_dlq tenant_id (limit_or (pos 20) (query_number limit))
            (number_or (pos 0) (query_number offset)))
          "Failed to list DLQ executions" 500
    ok_response 200 (dlq_listed (map to_dlq_response entries))

  unfoldable pub retry_dlq_execution : Call → Option Tenant → String → Handler Response
  unfolding owned_execution retry_from_dlq
  retry_dlq_execution call tenant_of execution_id_str = do
    tenant_id ← require (tenant_id_of tenant_of) "Unauthorized" 401
    execution_id ← require (lib.parse_uuid execution_id_str) "Invalid execution id" 400
    execution ← owned_execution execution_id tenant_id
    new_id ←
        store (retry_from_dlq call.now call.new_uuid execution_id) "Failed to retry DLQ execution"
          500
    ok_response 200 (retry_started new_id)
