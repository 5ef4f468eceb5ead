-- ===== src/Worker/Retry.antt =====
-- internal/worker/agent.go, doWithRetry. The network, the jitter and the cancellation of the
-- context are functions of the attempt.
pub mod Attempts
use jobplane.Base.{
  ℕ, suc, zero, ◌+◌, ◌-◌, ◌*◌, ◌^◌, Bool, true, false, ◌||◌, List, [], ◌∷◌, ltb, leb, ◌==◌, min,
  if◌then◌else◌,
}
use jobplane.Store.Models.{second}

abbrev pub max_retries : ℕ
max_retries = 5

-- How one attempt ends: no request can be made, the client fails, or an answer has a status.
pub data Outcome : Type 0 where
  no_request : Outcome
  network_error : Outcome
  answered : ℕ → Outcome

-- What the call returns: the answer, or one of its errors.
pub data Sent : Type 0 where
  response : ℕ → Sent
  cancelled : Sent
  request_error : Sent
  fatal_status : ℕ → Sent
  retries_exceeded : Sent

pub record Network : Type 0 where
  pub client : ℕ → Outcome
  pub jitter : ℕ → ℕ
  pub is_cancelled : ℕ → Bool

-- The wait before attempt `suc n`: 2 ^ n seconds and at most 30, and the jitter.
abbrev pub backoff_before : ℕ → ℕ → ℕ
backoff_before n jitter = min (2 ^ n * second) (30 * second) + jitter

pub record Call : Type 0 where
  pub sent : Sent
  pub waits : List ℕ

abbrev pub stop : Sent → Call
stop sent = record { sent = sent; waits = [] }

abbrev pub wait : ℕ → Call → Call
wait backoff rest = record rest { waits = backoff ∷ rest.waits }

-- The answer is worth another attempt.
abbrev pub is_retriable : ℕ → Bool
is_retriable status = leb 500 status || status == 429

-- What follows an attempt: `rest` is the loop from its next round on.
unfoldable pub after_attempt : Outcome → Call → Call
after_attempt no_request rest = stop request_error
after_attempt network_error rest = rest
after_attempt (answered status) rest =
    if is_retriable status
    then rest
    else (if leb 400 status then stop (fatal_status status) else stop (response status))

module _ (net : Network) where
  -- The loop from `attempt`, with `left` attempts more to come after it.
  unfoldable pub attempt_from : ℕ → ℕ → Call
  unfolding after_attempt
  attempt_from zero attempt = after_attempt (net.client attempt) (stop retries_exceeded)
  attempt_from (suc left) attempt =
      let rest = attempt_from left (suc attempt) in
      after_attempt (net.client attempt) (
        wait (backoff_before attempt (net.jitter attempt))
          (if net.is_cancelled attempt then stop cancelled else rest))

  unfoldable pub do_with_retry : Call
  unfolding attempt_from
  do_with_retry = attempt_from max_retries 0
