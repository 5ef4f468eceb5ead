-- ===== src/Worker/Report.antt =====
-- internal/worker/agent.go, processItem and getResultFromFile: what an agent reports about an
-- execution. `Host` holds what it calls of other packages; spans, metrics and log lines are left out.
pub mod Outcome
use Prim.Native.String.{◌++◌}
use jobplane.Base.{
  ℕ, ◌*◌, ◌^◌, String, Bool, true, false, not, Option, none, some, List, ltb, ◌==◌, if◌then◌else◌,
}
use jobplane.Base.Int.{ℤ, pos, pos_part, ltb_ℤ, leb_ℤ}
use text.Mathlib.Text.{◌==◌ as str_eq}
use jobplane.Store.Models.{Uuid, Json, Job, second, minute}
use jobplane.Api.{ExecutionResultRequest}

-- json.Unmarshal of a payload into the wrapper and into a job, each with its error's text; the
-- decimal digits of fmt, the text of a duration, and the size and validity of a file.
pub record Host : Type 0 where
  pub decode_wrapper : Json → Option Job
  pub decode_job : Json → Option Job
  pub decode_error : Json → String
  pub show_int : ℤ → String
  pub show_duration : ℕ → String
  pub size : Json → ℕ
  pub is_json : Json → Bool

-- How Wait ends: an error, by the deadline or not, or an exit code with perhaps an error.
pub data Waited : Type 0 where
  wait_error : String → Bool → Waited
  exited : ℤ → Option String → Waited

-- What is at the handle's result directory: none, a file that cannot be read, or its content.
pub data ResultFile : Type 0 where
  no_directory : ResultFile
  unreadable : ResultFile
  content : Json → ResultFile

-- How the runtime treats the job: it does not start, or starts and ends.
pub data Run : Type 0 where
  start_error : String → Run
  started : Waited → ResultFile → Run

-- A job whose id is not uuid.Nil.
abbrev pub named : Option Job → Option Job
named none = none
named (some job) = if job.id == 0 then none else some job

abbrev pub or_job : Option Job → Option Job → Option Job
or_job (some job) old = some job
or_job none old = old

-- The wrapped payload, or the old format.
unfoldable pub job_of : Host → Json → Option Job
job_of host payload = or_job (named (host.decode_wrapper payload)) (host.decode_job payload)

-- The time an execution is given, 30 minutes unless the job says.
unfoldable pub timeout_of : Job → ℕ
timeout_of job =
    if ltb_ℤ (pos 0) job.default_timeout then pos_part job.default_timeout * second else 30 * minute

-- A result of more than 1 MiB, or that is not JSON, is left out.
unfoldable pub get_result_from_file : Host → ResultFile → Option Json
get_result_from_file host no_directory = none
get_result_from_file host unreadable = none
get_result_from_file host (content json) =
    if ltb (2 ^ 20) (host.size json) then none else (if host.is_json json then some json else none)

-- sendResult has no result.
abbrev pub failure : Option ℤ → String → ExecutionResultRequest
failure exit_code error = record { exit_code = exit_code; error = error; result = none }

abbrev pub is_zero : ℤ → Bool
is_zero (pos n) = n == 0
is_zero _ = false

abbrev pub error_or : Option String → String → String
error_or (some text) default = text
error_or none default = default

unfoldable pub report_of : Host → Job → Run → ExecutionResultRequest
unfolding get_result_from_file timeout_of
report_of host job (start_error text) = failure none ("Failed to start runtime. " ++ text)
report_of host job (started (wait_error text timed_out) file) =
    if timed_out
    then failure none ("Execution timed out after " ++ host.show_duration (timeout_of job))
    else failure none ("Runtime waiting error: " ++ text)
report_of host job (started (exited code error) file) =
    if is_zero code
    then record { exit_code = some code; error = ""; result = get_result_from_file host file }
    else failure (some code) (error_or error ("Exit code " ++ host.show_int code))

abbrev pub report_job : Host → Json → Option Job → (Job → Run) → ExecutionResultRequest
report_job host payload none run = failure none ("Invalid payload: " ++ host.decode_error payload)
report_job host payload (some job) run = report_of host job (run job)

-- What processItem sends to the controller, where `run` says how the runtime treats the job.
unfoldable pub process_item : Host → Json → (Job → Run) → ExecutionResultRequest
unfolding job_of report_of
process_item host payload run = report_job host payload (job_of host payload) run
