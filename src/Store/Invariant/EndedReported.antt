-- ===== src/Store/Invariant/EndedReported.antt =====
-- A result, a heartbeat or another statement, against an execution that has ended
-- (internal/store/postgres/queue.go).
use jobplane.Base.{ℕ, ◌≡◌, refl, String, false, Option, arith, ◌==◌, ltb, if◌then◌else◌}
use jobplane.Base.Int.{ℤ}
use jobplane.Store.Models.{Uuid, Time, Json, Execution, is_active}
use jobplane.Store.Db.{Db}
use jobplane.Store.Exec.{Result, ok, err, no_rows, statement}
use jobplane.Store.Exec.Triple.{
  Keeps, Triple-bind, Triple-raise, Keeps-statement, Keeps-attempt_to, Keeps-if,
}
use jobplane.Store.Queue.{
  update_execution, update_queued, delete_queued, complete, insert_dead, bury, select_attempt,
  after_attempt, fail, max_retries, reschedule, set_visible_after,
}
use jobplane.Store.Invariant.Ended.{HasEnded, Ended-map}

module _ (i : Uuid) where
  -- A statement that leaves the executions as they are.
  pub same_executions :
      {A : Type 0} (f : Db → Result A × Db)
      → ((db : Db) → (f db).1.executions ≡ db.executions)
      → Keeps (HasEnded i) (statement f)
  same_executions f same = Keeps-statement f (λ db h. rw (same db) h)

  pub update_execution-HasEnded :
      (j : Uuid) (f : Execution → Execution)
      → ((e : Execution) → (f e).id ≡ e.id)
      → ((e : Execution) → is_active e.status ≡ false → is_active (f e).status ≡ false)
      → Keeps (HasEnded i) (statement (update_execution j f))
  unfolding update_execution
  update_execution-HasEnded j f keep over = Keeps-statement _ λ db h.
      Ended-map i (λ e. if e.id == j then f e else e) db.executions (λ e. ground (arith, keep e))
        (λ e _ o. ground (arith, over e o)) h

  pub complete-HasEnded :
      (now : Time) (j : Uuid) (exit_code : ℤ) (result : Option Json)
      → Keeps (HasEnded i) (complete now j exit_code result)
  unfolding complete
  complete-HasEnded now j exit_code result =
      Triple-bind {R = λ _. HasEnded i} _ _ (same_executions (delete_queued j) (λ db. refl))
        (λ _. update_execution-HasEnded j _ (λ e. refl) (λ e _. refl))

  insert_dead-executions :
      (now : Time) (j : Uuid) (message : String) (db : Db)
      → (insert_dead now j message db).1.executions ≡ db.executions
  unfolding insert_dead
  insert_dead-executions now j message db = ground arith

  bury-HasEnded :
      (now : Time) (j : Uuid) (exit_code : Option ℤ) (message : String)
      → Keeps (HasEnded i) (bury now j exit_code message)
  unfolding bury
  bury-HasEnded now j exit_code message =
      Triple-bind {R = λ _. HasEnded i} _ _
        (same_executions (insert_dead now j message) (insert_dead-executions now j message))
        λ _.
          Triple-bind {R = λ _. HasEnded i} _ _ (same_executions (delete_queued j) (λ db. refl))
            (λ _. update_execution-HasEnded j _ (λ e. refl) (λ e _. refl))

  reschedule-HasEnded :
      (now : Time) (j : Uuid) (attempt : ℕ) → Keeps (HasEnded i) (reschedule now j attempt)
  unfolding reschedule
  reschedule-HasEnded now j attempt = same_executions (update_queued j _) (λ db. refl)

  pub set_visible_after-HasEnded :
      (j : Uuid) (t : Time) → Keeps (HasEnded i) (set_visible_after j t)
  unfolding set_visible_after
  set_visible_after-HasEnded j t = same_executions (update_queued j _) (λ db. refl)

  after_attempt-HasEnded :
      (now : Time) (j : Uuid) (exit_code : Option ℤ) (message : String) (r : Result ℕ)
      → Keeps (HasEnded i) (after_attempt now j exit_code message r)
  unfolding after_attempt
  after_attempt-HasEnded now j exit_code message (ok attempt) =
      Keeps-if (ltb max_retries attempt) _ _ (bury-HasEnded now j exit_code message)
        (reschedule-HasEnded now j attempt)
  after_attempt-HasEnded now j exit_code message (err no_rows) =
      bury-HasEnded now j exit_code message
  after_attempt-HasEnded now j exit_code message (err e) = Triple-raise _ (λ db v. v)

  select_attempt-executions :
      (j : Uuid) (db : Db) → (select_attempt j db).1.executions ≡ db.executions
  unfolding select_attempt
  select_attempt-executions j db = ground arith

  pub fail-HasEnded :
      (now : Time) (j : Uuid) (exit_code : Option ℤ) (message : String)
      → Keeps (HasEnded i) (fail now j exit_code message)
  unfolding fail
  fail-HasEnded now j exit_code message =
      Triple-bind {R = λ _. HasEnded i} _ _
        (Keeps-attempt_to _ (same_executions (select_attempt j) (select_attempt-executions j)))
        (after_attempt-HasEnded now j exit_code message)
