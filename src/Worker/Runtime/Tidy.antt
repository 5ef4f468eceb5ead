-- ===== src/Worker/Runtime/Tidy.antt =====
-- internal/worker/runtime/exec.go: an execution leaves nothing behind on the worker's machine.
use text.Mathlib.Text.{◌==◌ as str_eq}
use jobplane.Base.{
  ◌≡◌, refl, sym, subst, ◌∙◌, ap, inl, inr, String, Bool, true, false, List, [], ◌∷◌,
  ◌++◌ as append, map, All, if◌then◌else◌, Bool-cases, Option-cases,
}
use jobplane.Base.Text.{str_eq_refl}
use jobplane.Base.FilePath.{join}
use jobplane.Base.Text.{List-cases}
use jobplane.Worker.Runtime.{
  StartOptions, run_execution, finish_execution, is_some, Started, running,
}
use jobplane.Worker.Runtime.Disk.{removed, is_under, remove_all, make_dir, write_files}
use jobplane.Worker.Runtime.Disk.Removal.{remove_all-make_dir, remove_all-write_files}
use jobplane.Worker.Runtime.Exec.{
  Os, Machine, ExecHandle, without, exec_id, exec_runtime, start, start_in, remove_dir, reap,
  env_entry, spawn, open_stdout, open_stderr, stop_outcome, wait_result, close_stdout, close_stderr,
  stop, cleanup,
}

-- Nothing on the machine is named by the directory.
pub record IsFresh (dir : String) (m : Machine) : Type 0 where
  pub no_files : remove_all dir m.disk ≡ m.disk
  pub no_stdout : without dir m.stdouts ≡ m.stdouts
  pub no_stderr : without dir m.stderrs ≡ m.stderrs
  pub no_process : without dir m.processes ≡ m.processes

without_twice : (dir : String) (xs : List String) → without dir (without dir xs) ≡ without dir xs
without_twice dir [] = refl
without_twice dir (x ∷ xs) = elim (Bool-cases (str_eq dir x)) [
  | inl same ↦ rw same (without_twice dir xs)
  | inr other ↦ rw (other, other, without_twice dir xs) refl
]

-- The machine without what the directory names.
abbrev clear : String → Machine → Machine
clear dir m = record {
  disk = remove_all dir m.disk;
  stdouts = without dir m.stdouts;
  stderrs = without dir m.stderrs;
  processes = without dir m.processes;
}

clear-IsFresh : (dir : String) (m : Machine) → IsFresh dir m → clear dir m ≡ m
clear-IsFresh dir m fresh =
    rw (fresh.no_files, fresh.no_stdout, fresh.no_stderr, fresh.no_process) refl

-- The operating system, where os.RemoveAll removes all and the process leaves no child behind.
abbrev tidy_os : Os → Os
tidy_os os = record os { removal = removed; orphans = [] }

module _ (given : Os) (dir : String) (named : str_eq dir "" ≡ false) where
  abbrev os : Os
  os = tidy_os given

  stopped_clear :
      (late failed : Bool) (h : ExecHandle) (m : Machine)
      → h.work_dir ≡ dir
      → (cleanup os h (
          if failed
          then (if late then stop os h (reap h.work_dir m) else reap h.work_dir m)
          else reap h.work_dir m)).1
        ≡ remove_dir removed dir (reap dir m)
  unfolding stop cleanup
  stopped_clear true true h m e = elim (Bool-cases (stop_outcome os).1) [
    | inl ended ↦ rw (e, named, ended, without_twice dir m.processes) refl
    | inr lives ↦ rw (e, named, lives) refl
  ]
  stopped_clear false true h m e = rw (e, named) refl
  stopped_clear late false h m e = rw (e, named) refl

  module _ (inside : All (λ file. is_under dir (file.0) ≡ true) os.written) (work_dir : String)
      (late : Bool) where
    finish_running :
        (h : ExecHandle) (m : Machine)
        → h.work_dir ≡ dir
        → (finish_execution (exec_runtime os work_dir) late (running h, m)).1 ≡ clear dir m
    unfolding finish_execution exec_runtime
    finish_running h m e =
        stopped_clear late (is_some (wait_result os).err) h
          (close_stderr h.work_dir
            (close_stdout h.work_dir (record m { disk = write_files os.written m.disk })))
          e
        ∙ rw (e, remove_all-write_files dir os.written m.disk inside) refl

    -- What becomes of a start in the directory.
    abbrev after : Started ExecHandle × Machine → Machine
    after r = (finish_execution (exec_runtime os work_dir) late r).1

    abbrev handle_of : StartOptions → ExecHandle
    handle_of opts = record {
      work_dir = dir;
      command = opts.command;
      env = append os.environ (map env_entry opts.env);
    }

    abbrev spawned : Machine → Machine
    spawned m =
        spawn dir (open_stderr dir (open_stdout dir (record m { disk = make_dir dir m.disk })))

    module _ (opts : StartOptions) (m : Machine) (fresh : IsFresh dir m) where
      undone : (record m { disk = remove_all dir (make_dir dir m.disk) }) ≡ m
      undone = rw (remove_all-make_dir dir m.disk, fresh.no_files) refl

      start_in_tidy : after (start_in os opts dir m) ≡ m
      unfolding start_in finish_execution
      start_in_tidy = elim (Option-cases os.mkdir_error) [
        | inr (text, e) ↦ rw e refl
        | inl e0 ↦ elim (Option-cases os.stdout_error) [
          | inr (text, e) ↦ rw (e0, e) undone
          | inl e1 ↦ elim (Option-cases os.stderr_error) [
            | inr (text, e) ↦ rw (e0, e1, e, str_eq_refl dir, fresh.no_stdout) undone
            | inl e2 ↦ elim (Option-cases os.start_error) [
              | inr (text, e) ↦
                  rw (e0, e1, e2, e, str_eq_refl dir, fresh.no_stdout, fresh.no_stderr) undone
              | inl e3 ↦
                  let begun : start_in os opts dir m ≡ (running (handle_of opts), spawned m) =
                    rw (e0, e1, e2, e3) refl in
                  ap after begun
                  ∙ finish_running (handle_of opts) (spawned m) refl
                  ∙ rw (str_eq_refl dir, fresh.no_stdout, fresh.no_stderr, fresh.no_process) undone
            ]
          ]
        ]
      ]

module _ (os : Os) (work_dir : String) (late : Bool) (opts : StartOptions) (m : Machine) where
  abbrev own_dir : String
  own_dir = join work_dir (exec_id os opts)

  -- However an execution of the exec runtime goes, refused at any step of its start, ended, failed,
  -- or stopped at its deadline, the machine is in the end as it was: no file, pipe or process of it
  -- is left. This holds where os.RemoveAll removes all, the process leaves no child that outlives it
  -- and writes only below its directory, and nothing else is named by the directory.
  pub exec_run-leaves_nothing :
      os.removal ≡ removed
      → os.orphans ≡ []
      → IsFresh own_dir m
      → All (λ file. is_under own_dir (file.0) ≡ true) os.written
      → (str_eq own_dir "" ≡ false)
      → (run_execution (exec_runtime os work_dir) late opts m).1 ≡ m
  unfolding run_execution exec_runtime
  exec_run-leaves_nothing clean_up childless fresh inside named =
      subst (λ o. (run_execution (exec_runtime o work_dir) late opts m).1 ≡ m)
        (ap (λ r. record os { removal = r; orphans = [] }) (sym clean_up)
          ∙ ap (λ ps. record os { orphans = ps }) (sym childless))
        (elim (List-cases opts.command) [
          | inl empty ↦ rw empty refl
          | inr (word, words, e) ↦
              let begun : start (tidy_os os) work_dir opts m
                  ≡ start_in (tidy_os os) opts own_dir m =
                rw e refl in
              ap (λ r. (finish_execution (exec_runtime (tidy_os os) work_dir) late r).1) begun
              ∙ (start_in_tidy os own_dir named inside work_dir late opts m fresh)
        ])
