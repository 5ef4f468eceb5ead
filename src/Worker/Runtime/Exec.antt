-- ===== src/Worker/Runtime/Exec.antt =====
-- internal/worker/runtime/exec.go: jobs as processes of the worker's machine. `Os` holds what the
-- operating system answers to one execution. A process and its pipes are named by the directory of
-- the execution.
use Prim.Native.String.{◌++◌}
use text.Mathlib.Text.{◌==◌ as str_eq}
use jobplane.Base.{
  String, Bool, true, false, not, Option, none, some, List, [], ◌∷◌, ◌++◌ as append, map, select,
  first, if◌then◌else◌,
}
use jobplane.Base.Int.{ℤ, pos}
use jobplane.Base.FilePath.{join}
use jobplane.Store.Models.{Json}
use jobplane.Worker.Runtime.{
  StartOptions, WaitReturn, give_up, exit_with, Started, refused, running, Runtime,
}
use jobplane.Worker.Runtime.Disk.{
  Disk, RemoveAll, removal_error, make_dir, write_files, remove_with, read_result,
}

-- What exec.Cmd.Wait returns: nil, an ExitError with its code, or another error.
pub data CmdWait : Type 0 where
  ended_well : CmdWait
  exit_error : ℤ → CmdWait
  wait_failed : String → CmdWait

pub data Signalled : Type 0 where
  delivered process_done : Signalled
  signal_error : String → Signalled

-- What ends the select of Stop.
pub data StopEvent : Type 0 where
  exited_itself grace_over : StopEvent
  stop_cancelled : String → StopEvent

pub record Os : Type 0 where
  pub new_uuid : String
  pub environ : List String
  pub mkdir_error : Option String
  pub stdout_error : Option String
  pub stderr_error : Option String
  pub start_error : Option String
  -- the files that the process writes
  pub written : List (String × Json)
  -- the processes that it has started and that outlive it
  pub orphans : List String
  pub cmd_wait : CmdWait
  -- ctx.Err() after cmd.Wait
  pub context_error : Option String
  pub terminated : Signalled
  pub stop_event : StopEvent
  pub killed : Signalled
  -- how the one call of os.RemoveAll ends
  pub removal : RemoveAll

pub record Machine : Type 0 where
  pub disk : Disk
  pub stdouts : List String
  pub stderrs : List String
  pub processes : List String

-- The handle, with the process's command and environment.
pub record ExecHandle : Type 0 where
  pub work_dir : String
  pub command : List String
  pub env : List String

-- filepath.Join(os.TempDir(), "jobplane", "runner") unless a directory is given.
unfoldable pub new_exec_runtime : String → String → String
new_exec_runtime temp_dir work_dir =
    if str_eq work_dir "" then join (join temp_dir "jobplane") "runner" else work_dir

abbrev pub without : String → List String → List String
without dir dirs = select (λ d. not (str_eq dir d)) dirs

abbrev pub open_stdout : String → Machine → Machine
open_stdout dir m = record m { stdouts = dir ∷ m.stdouts }

abbrev pub open_stderr : String → Machine → Machine
open_stderr dir m = record m { stderrs = dir ∷ m.stderrs }

abbrev pub spawn : String → Machine → Machine
spawn dir m = record m { processes = dir ∷ m.processes }

abbrev pub close_stdout : String → Machine → Machine
close_stdout dir m = record m { stdouts = without dir m.stdouts }

abbrev pub close_stderr : String → Machine → Machine
close_stderr dir m = record m { stderrs = without dir m.stderrs }

-- The end of the process itself; its children run on.
abbrev pub reap : String → Machine → Machine
reap dir m = record m { processes = without dir m.processes }

abbrev pub remove_dir : RemoveAll → String → Machine → Machine
remove_dir removal dir m = record m { disk = remove_with removal dir m.disk }

abbrev value_or : String → Option (String × String) → String
value_or default none = default
value_or default (some entry) = if str_eq (entry.1) "" then default else entry.1

-- JOBPLANE_EXECUTION_ID where it is set and not empty, else a new uuid.
unfoldable pub exec_id : Os → StartOptions → String
exec_id os opts =
    value_or os.new_uuid (first (λ entry. str_eq (entry.0) "JOBPLANE_EXECUTION_ID") opts.env)

abbrev pub env_entry : String × String → String
env_entry entry = entry.0 ++ ("=" ++ entry.1)

module _ (os : Os) where
  -- cmd.Start
  unfoldable pub start_process : StartOptions → String → Machine → Started ExecHandle × Machine
  start_process opts dir m = elim os.start_error [
    | some text ↦ (
      refused ("failed to start process: " ++ text),
      remove_dir os.removal dir (close_stderr dir (close_stdout dir m)),
    )
    | none ↦ (
      running (record {
        work_dir = dir;
        command = opts.command;
        env = append os.environ (map env_entry opts.env);
      }),
      spawn dir m,
    )
  ]

  -- cmd.StderrPipe, after cmd.StdoutPipe
  unfoldable pub open_pipes : StartOptions → String → Machine → Started ExecHandle × Machine
  unfolding start_process
  open_pipes opts dir m = elim os.stdout_error [
    | some text ↦ (refused ("failed to create stdout pipe: " ++ text), remove_dir os.removal dir m)
    | none ↦ elim os.stderr_error [
      | some text ↦ (
        refused ("failed to create stderr pipe: " ++ text),
        remove_dir os.removal dir (close_stdout dir (open_stdout dir m)),
      )
      | none ↦ start_process opts dir (open_stderr dir (open_stdout dir m))
    ]
  ]

  unfoldable pub start_in : StartOptions → String → Machine → Started ExecHandle × Machine
  unfolding open_pipes
  start_in opts dir m = elim os.mkdir_error [
    | some text ↦ (refused ("failed to create work directory: " ++ text), m)
    | none ↦ open_pipes opts dir (record m { disk = make_dir dir m.disk })
  ]

  unfoldable pub start : String → StartOptions → Machine → Started ExecHandle × Machine
  unfolding start_in exec_id
  start work_dir opts m = elim opts.command [
    | [] ↦ (refused "command is required", m)
    | word ∷ words ↦ start_in opts (join work_dir (exec_id os opts)) m
  ]

  -- What Wait makes of the error of cmd.Wait.
  unfoldable pub wait_result : WaitReturn
  wait_result = elim os.cmd_wait [
    | ended_well ↦ exit_with (pos 0) none
    | exit_error code ↦ elim os.context_error [
      | some text ↦ give_up (some text)
      | none ↦ exit_with code none
    ]
    | wait_failed text ↦ elim os.context_error [
      | some cancelled ↦ give_up (some cancelled)
      | none ↦ give_up (some text)
    ]
  ]

  -- cmd.Wait returns when the process has ended, and closes the pipes.
  unfoldable pub wait : ExecHandle → Machine → WaitReturn × Machine
  unfolding wait_result
  wait h m = (
    wait_result,
    reap h.work_dir (
        close_stderr h.work_dir (
          close_stdout h.work_dir (record m {
            disk = write_files os.written m.disk;
            processes = append os.orphans m.processes;
          }))),
  )

  -- The answer of Stop, and whether it has ended the process.
  unfoldable pub stop_outcome : Option String × Bool
  stop_outcome = elim os.terminated [
    | process_done ↦ (none, true)
    | signal_error text ↦ (some ("failed to send SIGTERM: " ++ text), false)
    | delivered ↦ elim os.stop_event [
      | exited_itself ↦ (none, true)
      | grace_over ↦ elim os.killed [
        | delivered ↦ (none, true)
        | process_done ↦ (none, true)
        | signal_error text ↦ (some ("failed to send SIGKILL: " ++ text), false)
      ]
      | stop_cancelled text ↦ elim os.killed [
        | delivered ↦ (some text, true)
        | process_done ↦ (some text, true)
        | signal_error ignored ↦ (some text, false)
      ]
    ]
  ]

  unfoldable pub stop : ExecHandle → Machine → Machine
  unfolding stop_outcome
  stop h m = if stop_outcome.1 then reap h.work_dir m else m

  unfoldable pub cleanup : ExecHandle → Machine → Option String × Machine
  cleanup h m =
      if str_eq h.work_dir ""
      then (none, m)
      else (removal_error os.removal, remove_dir os.removal h.work_dir m)

  unfoldable pub exec_runtime : String → Runtime ExecHandle Machine
  unfolding start wait stop cleanup
  exec_runtime work_dir = record {
    start = start work_dir;
    wait = wait;
    stop = stop;
    cleanup = cleanup;
    result_file = λ h m. read_result h.work_dir m.disk;
  }
