-- ===== src/Controller/Webhook.antt =====
-- internal/controller/webhook/webhook.go. The network is a function `client`, which says how the
-- HTTP client ends each attempt; metrics and log lines are left out.
pub mod Attempts
pub mod Pool
pub mod Headers
use jobplane.Base.{
  ℕ, suc, zero, ◌+◌, ◌-◌, ◌*◌, ◌/◌, String, Bool, true, false, not, ◌&&◌, ◌||◌, Option, none, some,
  List, [], ◌∷◌, ltb, leb, ◌==◌, if◌then◌else◌,
}
use jobplane.Base.Int.{ℤ, pos, negsuc}
use jobplane.Store.Models.{
  Uuid, Time, Json, Execution, ExecutionStatus, is_failed, callback_delivered, callback_failed,
  second,
}
use jobplane.Store.Exec.{Exec, pure}
use jobplane.Store.Executions.{update_callback_status}
use jobplane.Controller.Handlers.Jobs.{has_url}

abbrev pub max_retries : ℕ
max_retries = 3

-- `retryBackoffs[attempt-1]`; no attempt comes after the last one.
abbrev pub retry_backoff : ℕ → ℕ
retry_backoff attempt =
    if attempt == 1
    then 1 * second
    else (if attempt == 2 then 5 * second else (if attempt == 3 then 25 * second else 0))

-- How one attempt ends: no request can be made, the client fails, or an answer has a status.
pub data Outcome : Type 0 where
  no_request : Outcome
  network_error : Outcome
  answered : ℕ → Outcome

pub record DeliveryError : Type 0 where
  pub status_code : ℕ
  pub retryable : Bool

-- What `doPost` returns: nil, an error of another type, or a deliveryError.
pub data PostError : Type 0 where
  no_error : PostError
  other_error : PostError
  delivery_error : DeliveryError → PostError

unfoldable pub do_post : Outcome → PostError
do_post no_request = other_error
do_post network_error = delivery_error (record { status_code = 0; retryable = true })
do_post (answered status) =
    if leb 200 status && ltb status 300
    then no_error
    else delivery_error
        (record { status_code = status; retryable = leb 500 status || status == 429 })

-- What a delivery did: was it delivered, how many requests, and how long it slept before each retry.
pub record Delivery : Type 0 where
  pub delivered : Bool
  pub posts : ℕ
  pub slept : List ℕ

abbrev pub stop : Bool → Delivery
stop delivered = record { delivered = delivered; posts = 1; slept = [] }

-- One request more before the rest, and the sleep before the next one.
abbrev pub again : ℕ → Delivery → Delivery
again backoff rest = record {
  delivered = rest.delivered;
  posts = suc rest.posts;
  slept = backoff ∷ rest.slept;
}

-- What follows a request: `rest` is the loop from its next round on.
abbrev pub after_post : PostError → Delivery → Delivery
after_post no_error rest = stop true
after_post other_error rest = rest
after_post (delivery_error e) rest = if e.retryable then rest else stop false

-- The loop from `attempt`, with `left` attempts more to come after it.
unfoldable pub deliver_from : (ℕ → Outcome) → ℕ → ℕ → Delivery
unfolding do_post
deliver_from client zero attempt = after_post (do_post (client attempt)) (stop false)
deliver_from client (suc left) attempt =
    let rest = deliver_from client left (suc attempt) in
    after_post (do_post (client attempt)) (again (retry_backoff (suc attempt)) rest)

unfoldable pub deliver_with_retry : (ℕ → Outcome) → Delivery
unfolding deliver_from
deliver_with_retry client = deliver_from client max_retries 0

-- The goroutine of `Deliver`: nothing without a URL, else the loop, and the status of the callback.
unfoldable pub deliver : (ℕ → Outcome) → Execution → Exec (Unit {0})
unfolding deliver_with_retry update_callback_status
deliver client execution =
    if has_url execution.callback_url
    then update_callback_status execution.id
        (if (deliver_with_retry client).delivered then callback_delivered else callback_failed)
    else pure tt

pub record WebhookPayload : Type 0 where
  pub event : String
  pub execution_id : Uuid
  pub job_id : Uuid
  pub status : ExecutionStatus
  pub exit_code : Option ℤ
  pub result : Option Json
  pub duration : ℤ
  pub timestamp : Time

abbrev negate : ℕ → ℤ
negate zero = pos 0
negate (suc n) = negsuc n

-- `b.Sub(a).Milliseconds()`, rounded towards zero.
abbrev pub milliseconds_between : Time → Time → ℤ
milliseconds_between a b = if leb a b then pos ((b - a) / 1000000) else negate ((a - b) / 1000000)

abbrev pub duration_of : Option Time → Option Time → ℤ
duration_of (some started) (some completed) = milliseconds_between started completed
duration_of (some started) none = pos 0
duration_of none completed = pos 0

unfoldable pub build_payload : Time → Execution → WebhookPayload
build_payload now e = record {
  event = if is_failed e.status then "execution.failed" else "execution.completed";
  execution_id = e.id;
  job_id = e.job_id;
  status = e.status;
  exit_code = e.exit_code;
  result = e.result;
  duration = duration_of e.started_at e.completed_at;
  timestamp = now;
}
