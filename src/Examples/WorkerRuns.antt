-- ===== src/Examples/WorkerRuns.antt =====
-- The agent's theorems on small runs.
use jobplane.Base.{
  ℕ, ◌≤◌, ◌≡◌, ◌↔◌, refl, true, false, none, some, List, [], ◌∷◌, ◌++◌, arith, All, length, leb,
  if◌then◌else◌,
}
use jobplane.Base.Int.{pos}
use jobplane.Store.Models.{Uuid, Json, Job}
use jobplane.Controller.Handlers.Internal.{is_success}
use jobplane.Worker.Pull.{
  Loop, Reaches, at_start, then_step, fetches, acquires, after_fetch, dispatch, started,
}
use jobplane.Worker.Pull.Capacity.{Fits, reached-Fits}
use jobplane.Worker.Report.{Host, exited, content, Run, process_item, job_of}
use jobplane.Worker.Report.Outcome.{Succeeds, IsResultOf, process_item-success}
use jobplane.Worker.Retry.{Network, answered, network_error, do_with_retry, max_retries}
use jobplane.Worker.Retry.Attempts.{Ends, do_with_retry-Ends}
use jobplane.Worker.LogStream.{Signal, line, tick, closed, new_stream, stream_logs}
use jobplane.Worker.LogStream.Lossless.{flat, lines_of, IsBatch, stream_logs-lossless}
use jobplane.Examples.Rows.{build}

-- A controller that keeps to the limit.
abbrev KeepsLimit : ℕ → List Uuid → Type 0
KeepsLimit limit items = length items ≤ limit

-- The loop claims two executions for its two slots and hands out the first.
abbrev claimed : Loop
claimed = after_fetch 2 1000 30000 (some (100 ∷ 101 ∷ [])) (started 2 1000 30000)

abbrev one_runs : Loop
one_runs = dispatch 2 1000 30000 100 (101 ∷ []) false claimed

one_runs_reached : Reaches 2 1000 30000 KeepsLimit one_runs
unfolding after_fetch
one_runs_reached =
    then_step claimed one_runs
      (then_step (started 2 1000 30000) claimed at_start
        (fetches (100 ∷ 101 ∷ []) refl refl (omega arith) (omega arith)))
      (acquires 100 (101 ∷ []) false refl (omega arith))

reached-Fits_example : Fits 2 1000 30000 KeepsLimit (λ limit items h. h) one_runs
reached-Fits_example =
    reached-Fits 2 1000 30000 KeepsLimit (λ limit items h. h) one_runs one_runs_reached

abbrev pub host : Host
host = record {
  decode_wrapper = λ payload. some build;
  decode_job = λ payload. none;
  decode_error = λ payload. "bad";
  show_int = λ n. "1";
  show_duration = λ d. "1m0s";
  size = λ json. 2;
  is_json = λ json. true;
}

abbrev exits_well : Job → Run
exits_well job = Run.started (exited (pos 0) none) (content "{}")

process_item-success_example :
    let req = process_item host "{}" exits_well in
    ((is_success req ≡ true)
      ↔ ((job : Job) × (job_of host "{}" ≡ some job) × Succeeds (exits_well job)))
    × ((json : Json)
        → req.result ≡ some json
        → (job : Job) × (job_of host "{}" ≡ some job)
          × Succeeds (exits_well job)
          × IsResultOf host json (exits_well job))
process_item-success_example = process_item-success host "{}" exits_well

abbrev flaky : Network
flaky = record {
  client = λ n. if leb n 1 then network_error else answered 200;
  jitter = λ n. 0;
  is_cancelled = λ n. false;
}

do_with_retry-Ends_example : Ends flaky 0 max_retries (do_with_retry flaky).sent
do_with_retry-Ends_example = do_with_retry-Ends flaky

abbrev output : List Signal
output = line "one" ∷ tick ∷ line "two" ∷ []

stream_logs-lossless_example :
    let s = stream_logs (output ++ closed ∷ []) new_stream in
    (flat s.sent ≡ lines_of output) × All IsBatch s.sent × (s.batch ≡ []) × (s.running ≡ false)
stream_logs-lossless_example = stream_logs-lossless output (tt, (tt, (tt, tt)))
