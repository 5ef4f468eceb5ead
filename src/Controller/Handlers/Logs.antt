-- ===== src/Controller/Handlers/Logs.antt =====
-- internal/controller/handlers/logs.go: InternalAddLogs and GetExecutionLogs.
use jobplane.Base.{String, Option, map}
use jobplane.Base.Int.{pos}
use jobplane.Store.Models.{Tenant, LogEntry}
use jobplane.Store.Logs.{add_log_entry, get_execution_logs}
use jobplane.Api.{AddLogRequest, LogLine, Response, no_body, logs_listed}
use jobplane.Controller.Handlers.{Library, Call, Handler, ◌>>=◌, ◌>>◌, require, store, ok_response}
use jobplane.Controller.Handlers.Executions.{
  tenant_id_of, owned_execution, limit_or, number_or, query_number,
}

unfoldable pub to_log_line : LogEntry → LogLine
to_log_line l = record { id = l.id; content = l.content; created_at = l.created_at }

module _ (lib : Library) where
  unfoldable pub internal_add_logs : Call → String → Option AddLogRequest → Handler Response
  unfolding add_log_entry
  internal_add_logs call execution_id_str body = do
    execution_id ← require (lib.parse_uuid execution_id_str) "Invalid execution id" 400
    req ← require body "Invalid request body" 400
    store (add_log_entry call.now execution_id req.content) "Failed to persist log" 500
    ok_response 202 no_body

  unfoldable pub get_logs : String → Option Tenant → String → String → Handler Response
  unfolding owned_execution get_execution_logs to_log_line
  get_logs execution_id_str tenant_of limit after_id = do
    execution_id ← require (lib.parse_uuid execution_id_str) "Invalid execution id" 400
    tenant_id ← require (tenant_id_of tenant_of) "Unauthorized" 401
    execution ← owned_execution execution_id tenant_id
    logs ←
        store
          (get_execution_logs lib.log_tie execution_id
            (number_or (pos 0) (query_number lib after_id))
            (limit_or (pos 1000) (query_number lib limit)))
          "Failed to fetch logs" 500
    ok_response 200 (logs_listed (map to_log_line logs))
