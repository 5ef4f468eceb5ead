-- ===== src/Worker/Calls.antt =====
-- internal/worker/agent.go, the calls of the controller: fetchWork, sendLogs, sendResultWithResult
-- and the loop of runHeartbeat. `bearer` is the Authorization header of each of them.
use Prim.Native.String.{◌++◌}
use jobplane.Base.{
  ℕ, String, Bool, true, false, Option, none, some, List, [], ◌∷◌, ◌==◌, if◌then◌else◌,
}
use jobplane.Base.Int.{ℤ}
use jobplane.Store.Models.{Uuid, QueueItem}
use jobplane.Api.{DequeueRequest}
use jobplane.Worker.Config.{AgentConfig}
use jobplane.Worker.Retry.{Network, Sent, response, do_with_retry}

abbrev pub bearer : AgentConfig → String
bearer config = "Bearer " ++ config.system_secret

-- How a call without retries ends: no request, no answer, or a status with the executions that the
-- body holds, where it can be decoded.
pub data Reply : Type 0 where
  no_request no_answer : String → Reply
  status_with : ℕ → Option (List QueueItem) → Reply

pub data Fetched : Type 0 where
  fetch_error : String → Fetched
  fetched : List QueueItem → Fetched

-- The body of fetchWork.
unfoldable pub dequeue_request : List Uuid → ℤ → DequeueRequest
dequeue_request tenant_ids limit = record { limit = limit; tenant_ids = tenant_ids }

module _ (show_status : ℕ → String) where
  abbrev pub decoded : Option (List QueueItem) → Fetched
  decoded none = fetch_error "failed to decode response"
  decoded (some items) = fetched items

  unfoldable pub fetch_work : Reply → Fetched
  fetch_work (no_request text) = fetch_error ("failed to create request: " ++ text)
  fetch_work (no_answer text) = fetch_error ("http request failed: " ++ text)
  fetch_work (status_with status items) =
      if status == 200
      then decoded items
      else fetch_error ("api returned status " ++ show_status status)

  -- The error of sendLogs.
  unfoldable pub send_logs : Reply → Option String
  send_logs (no_request text) = some text
  send_logs (no_answer text) = some text
  send_logs (status_with status items) =
      if status == 202 then none else some ("api returned status " ++ show_status status)

abbrev pub is_response : Sent → Bool
is_response (response status) = true
is_response sent = false

-- Whether the result has arrived, after all attempts of doWithRetry.
unfoldable pub send_result : Network → Bool
unfolding do_with_retry
send_result net = is_response (do_with_retry net).sent

-- What the select of runHeartbeat takes: a tick, with the network of its call, or the context's end.
pub data Beat : Type 0 where
  beat : Network → Beat
  execution_ended : Beat

-- For each tick until the context ends, whether the heartbeat has arrived; a failure ends nothing.
unfoldable pub run_heartbeat : List Beat → List Bool
unfolding do_with_retry
run_heartbeat [] = []
run_heartbeat (execution_ended ∷ later) = []
run_heartbeat (beat net ∷ later) = is_response (do_with_retry net).sent ∷ run_heartbeat later
