-- ===== src/Store/Queue/Completion.antt =====
-- What Complete does to the tables (internal/store/postgres/queue.go), also where a statement fails.
use jobplane.Base.{◌≡◌, refl, inl, inr, Bool, Option, some, List, ◌==◌, Bool-cases, not}
use jobplane.Base.Int.{ℤ}
use jobplane.Store.Models.{Uuid, Time, Json, Execution, completed}
use jobplane.Store.Db.{Db, execution_key, queue_key}
use jobplane.Store.Exec.{ok, World, next_fault, later_faults}
use jobplane.Store.Queue.{complete}
use jobplane.Store.Views.{first-update, first-delete, select_twice, update_twice}
use jobplane.Store.Queue.Outcome.{quiet, Updates, Deletes, executions_of, queue_of}

abbrev pub as_completed : Time → ℤ → Option Json → Execution → Execution
as_completed now exit_code result e = record e {
  status = completed;
  exit_code = some exit_code;
  result = result;
  completed_at = some now;
}

module _ (now : Time) (i : Uuid) (db : Db) where
  -- Where no statement is lost, Complete takes the execution out of the queue and marks it; no other
  -- row of the queue or of the executions changes, nor any other table or sequence, and the call
  -- succeeds also for an execution that is not queued, or that has ended.
  pub complete_effect :
      (exit_code : ℤ) (result : Option Json)
      → let (r, w) = complete now i exit_code result (quiet db) in
        (r ≡ ok tt)
        × Deletes i (queue_of db) (queue_of w.db)
        × Updates i (as_completed now exit_code result) (executions_of db) (executions_of w.db)
        × (w.db ≡ record db { queue = w.db.queue; executions = w.db.executions })
  unfolding complete
  complete_effect exit_code result = (
    refl,
    λ j. first-delete queue_key i j db.queue,
    λ j.
        first-update execution_key i j (as_completed now exit_code result) db.executions
          (λ e. refl),
    refl,
  )

  module _ (exit_code : ℤ) (result : Option Json) (faults : List Bool) where
    -- What Complete leaves where its statements fail is mended by an undisturbed second call at the same
    -- time: it ends with the same tables as one undisturbed call.
    pub complete_again :
        let w : World = record { db = db; faults = faults } in
        complete now i exit_code result (quiet (complete now i exit_code result w).1.db)
        ≡ complete now i exit_code result (quiet db)
    unfolding complete
    complete_again = elim (Bool-cases (next_fault faults)) [
      | inl lost ↦ rw lost
      | inr sent ↦ elim (Bool-cases (next_fault (later_faults faults))) [
        | inl lost ↦ rw (sent, lost) (rw (select_twice (λ q. not (q.execution_id == i)) db.queue))
        | inr sent' ↦
            rw (sent, sent')
              (rw (
                select_twice (λ q. not (q.execution_id == i)) db.queue,
                update_twice execution_key i (as_completed now exit_code result) db.executions
                    (λ e. refl) (λ e. refl),
              ))
      ]
    ]
