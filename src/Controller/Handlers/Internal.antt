-- ===== src/Controller/Handlers/Internal.antt =====
-- internal/controller/handlers/executions.go, the endpoints of the workers: InternalDequeue,
-- InternalHeartbeat and InternalUpdateResult, with triggerWebhook.
use jobplane.Base.{ℕ, ◌+◌, String, Bool, false, Option, none, some, List, ◌&&◌, if◌then◌else◌}
use jobplane.Base.Int.{ℤ, pos, negsuc, ltb_ℤ, leb_ℤ}
use jobplane.Store.Models.{Uuid, Execution}
use jobplane.Store.Exec.{World, Result, ok, err}
use jobplane.Store.Queue.{dequeue_batch, complete, fail, set_visible_after}
use jobplane.Store.Executions.{get_execution_by_id}
use jobplane.Api.{DequeueRequest, ExecutionResultRequest, Response, no_body, dequeued}
use jobplane.Controller.Handlers.{
  Library, Call, Hooks, webhook_started, notify, Handler, ◌>>=◌, ◌>>◌, require, store, ok_response,
}
use jobplane.Controller.Handlers.Jobs.{is_empty}

-- The batch size of a request, from 1 to 100.
abbrev pub clamp_limit : ℤ → ℤ
clamp_limit n = if leb_ℤ n (pos 0) then pos 1 else (if ltb_ℤ (pos 100) n then pos 100 else n)

unfoldable pub internal_dequeue : Call → List ℕ → Option DequeueRequest → Handler Response
unfolding dequeue_batch
internal_dequeue call locked body = do
  req ← require body "Invalid request body" 400
  items ←
      store (dequeue_batch call.now locked req.tenant_ids (clamp_limit req.limit))
        "Failed to dequeue executions" 500
  ok_response 200 (dequeued items)

abbrev is_zero : Option ℤ → Bool
is_zero (some (pos n)) = leb_ℤ (pos n) (pos 0)
is_zero (some (negsuc n)) = false
is_zero none = false

-- `req.ExitCode != nil && *req.ExitCode == 0 && req.Error == ""`
abbrev pub is_success : ExecutionResultRequest → Bool
is_success req = is_zero req.exit_code && is_empty req.error

unfoldable pub record_result : Call → Uuid → ExecutionResultRequest → Handler (Unit {0})
unfolding complete fail
record_result call execution_id req =
    if is_success req
    then store (complete call.now execution_id (pos 0) req.result) "Failed to mark complete" 500
    else store (fail call.now execution_id req.exit_code req.error) "Failed to mark failed" 500

module _ (lib : Library) where
  -- `extension` is `VisibilityExtension`.
  unfoldable pub internal_heartbeat : ℕ → Call → String → Handler Response
  unfolding set_visible_after
  internal_heartbeat extension call execution_id_str = do
    execution_id ← require (lib.parse_uuid execution_id_str) "Invalid execution id" 400
    store (set_visible_after execution_id (call.now + extension)) "Failed to update heartbeat" 500
    ok_response 200 no_body

  unfoldable pub internal_update_result :
      Hooks → Call → String → Option ExecutionResultRequest → Handler Response
  unfolding record_result
  internal_update_result hooks call execution_id_str body = do
    execution_id ← require (lib.parse_uuid execution_id_str) "Invalid execution id" 400
    req ← require body "Invalid body" 400
    record_result call execution_id req
    notify hooks.has_webhook (webhook_started execution_id)
    ok_response 200 no_body

-- triggerWebhook. What the goroutine of InternalUpdateResult hands to the dispatcher: an execution with a callback.
abbrev pub with_callback : Execution → Option Execution
with_callback e = elim e.callback_url [ none ↦ none | some url ↦ some e ]

abbrev found_callback : Result Execution → Option Execution
found_callback (ok e) = with_callback e
found_callback (err x) = none

unfoldable pub trigger_webhook : Uuid → World → Option Execution
unfolding get_execution_by_id
trigger_webhook execution_id w = found_callback (get_execution_by_id execution_id w).0
