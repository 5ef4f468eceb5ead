-- ===== src/Worker/Runtime.antt =====
-- internal/worker/runtime/interface.go: what a runtime is asked and what it answers, and the order
-- in which processItem of internal/worker/agent.go calls it.
pub mod Disk
pub mod Untar
pub mod Exec
pub mod Tidy
pub mod Leftovers
pub mod Docker
pub mod Kubernetes
pub mod Events
pub mod Watched
use jobplane.Base.{String, Bool, true, false, Option, none, some, List, [], ◌∷◌, if◌then◌else◌}
use jobplane.Base.Int.{ℤ, pos, negsuc}
use jobplane.Store.Models.{Uuid, Json, Job}
use jobplane.Worker.Report.{Waited, wait_error, exited, ResultFile, Run, start_error, started}

-- Env is a list of names with values, in the order in which Go happens to walk the map.
pub record StartOptions : Type 0 where
  pub image : String
  pub command : List String
  pub payload : Json
  pub env : List (String × String)
  pub timeout : ℤ

pub record ExitResult : Type 0 where
  pub exit_code : ℤ
  pub error : Option String

-- The two values that Wait returns.
pub record WaitReturn : Type 0 where
  pub result : ExitResult
  pub err : Option String

-- `return ExitResult{ExitCode: -1, Error: err}, err`
abbrev pub give_up : Option String → WaitReturn
give_up err = record { result = record { exit_code = negsuc 0; error = err }; err = err }

-- `return ExitResult{ExitCode: code, Error: err}, nil`
abbrev pub exit_with : ℤ → Option String → WaitReturn
exit_with code err = record { result = record { exit_code = code; error = err }; err = none }

-- The two values that Start returns.
pub data Started (H : Type 0) : Type 0 where
  refused : String → Started H
  running : H → Started H

-- A runtime with handles in `H`, on a machine whose state is `S`.
pub record Runtime (H S : Type 0) : Type 0 where
  pub start : StartOptions → S → Started H × S
  pub wait : H → S → WaitReturn × S
  pub stop : H → S → S
  -- with the error of Cleanup, which processItem drops
  pub cleanup : H → S → Option String × S
  pub result_file : H → S → ResultFile

-- The options for a job, where `show` is UUID.String.
unfoldable pub options_of : (Uuid → String) → Uuid → Job → StartOptions
options_of show execution_id job = record {
  image = job.image;
  command = job.command;
  payload = "";
  env = ("JOBPLANE_EXECUTION_ID", show execution_id) ∷ ("JOBPLANE_JOB_ID", show job.id) ∷ [];
  timeout = job.default_timeout;
}

-- `late` says whether the deadline of the execution has passed when Wait returns.
unfoldable pub waited : Bool → WaitReturn → Waited
waited late ret = elim ret.err [
  | some text ↦ wait_error text late
  | none ↦ exited ret.result.exit_code ret.result.error
]

abbrev pub is_some : Option String → Bool
is_some none = false
is_some (some text) = true

module _ {H S : Type 0} (runtime : Runtime H S) (late : Bool) where
  -- A handle is stopped where Wait failed by the deadline, and cleaned up in any case.
  unfoldable pub finish_execution : Started H × S → Run × S
  unfolding waited
  finish_execution (refused text, s) = (start_error text, s)
  finish_execution (running h, s) =
      let (ret, ended) = runtime.wait h s in
      let stopped =
        if is_some ret.err then (if late then runtime.stop h ended else ended) else ended in
      (started (waited late ret) (runtime.result_file h ended), (runtime.cleanup h stopped).1)

  unfoldable pub run_execution : StartOptions → S → Run × S
  unfolding finish_execution
  run_execution opts s = finish_execution (runtime.start opts s)
