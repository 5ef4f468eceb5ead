-- ===== src/Store/Queue/Held.antt =====
-- The other methods of the store leave a hidden execution hidden (internal/store/postgres/queue.go
-- and RetryFromDLQ of execution.go): what may happen to the tables while a worker runs an execution.
pub mod Alive
use jobplane.Base.{
  ℕ, ◌≡◌, ◌<◌, ◌≢◌, refl, sym, ap, inl, inr, String, Bool, true, false, Option, none, some, List,
  [], ◌∷◌, arith, ◌==◌, ltb, if◌then◌else◌, All-append, All-map, All-select, any, first,
  Option-cases, Bool-cases, ◌∙◌,
}
use jobplane.Base.Int.{ℤ}
use jobplane.Store.Models.{Uuid, Time, Json, Execution}
use jobplane.Store.Db.{Db, QueueRow, find_execution}
use jobplane.Store.Exec.{Result, ok, err, no_rows, statement, World}
use jobplane.Store.Exec.Triple.{
  Keeps, Triple-bind, Triple-raise, Triple-weaken, Triple-pure, Keeps-statement, Keeps-attempt_to,
  Keeps-if, Keeps-transaction,
}
use jobplane.Store.Queue.{
  update_execution, update_queued, delete_queued, complete, insert_dead, bury, select_attempt,
  after_attempt, fail, max_retries, reschedule, set_visible_after, insert_queued, new_row, enqueue,
}
use jobplane.Store.Jobs.{insert_execution}
use jobplane.Store.Executions.{select_dead, delete_dead, retry_of, retry_body, retry_from_dlq}
use jobplane.Store.Queue.Exclusive.{HiddenUntil}

pub found_id :
    (j : Uuid) (es : List Execution) {e : Execution} → find_execution j es ≡ some e → e.id ≡ j
found_id j [] h = cc
found_id j (x ∷ xs) {e} h = elim (Bool-cases (x.id == j)) [
  | inl hit ↦ let same : x ≡ e = ground (arith) in ground (arith)
  | inr miss ↦ found_id j xs (rw miss at h)
]

module _ (i : Uuid) (t : Time) where
  abbrev pub Hidden : Db → Type 0
  Hidden db = HiddenUntil i t db.queue

  -- A statement that leaves the queue as it is.
  same_queue :
      {A : Type 0} (f : Db → Result A × Db)
      → ((db : Db) → (f db).1.queue ≡ db.queue)
      → Keeps Hidden (statement f)
  same_queue f same = Keeps-statement f (λ db h. rw (same db) h)

  delete_queued-Hidden : (j : Uuid) → Keeps Hidden (statement (delete_queued j))
  unfolding delete_queued
  delete_queued-Hidden j =
      Keeps-statement _ (λ db h. All-select _ _ _ db.queue (λ q _ hidden. hidden) h)

  update_queued-Hidden :
      (j : Uuid) (v : Time)
      → j ≢ i
      → Keeps Hidden (statement (update_queued j (λ q. record q { visible_after = v })))
  unfolding update_queued
  update_queued-Hidden j v other = Keeps-statement _ λ db h.
      All-map _ _ (λ q. if q.execution_id == j then record q { visible_after = v } else q) db.queue
        (λ q hidden e. ground (arith, hidden)) h

  pub complete-Hidden :
      (now : Time) (j : Uuid) (exit_code : ℤ) (result : Option Json)
      → Keeps Hidden (complete now j exit_code result)
  unfolding complete
  complete-Hidden now j exit_code result =
      Triple-bind {R = λ _. Hidden} _ _ (delete_queued-Hidden j)
        (λ _. same_queue _ (λ db. unfold update_execution in refl))

  pub set_visible_after-Hidden :
      (j : Uuid) (v : Time) → j ≢ i → Keeps Hidden (set_visible_after j v)
  unfolding set_visible_after
  set_visible_after-Hidden j v other = update_queued-Hidden j v other

  insert_dead-queue :
      (now : Time) (j : Uuid) (message : String) (db : Db)
      → (insert_dead now j message db).1.queue ≡ db.queue
  unfolding insert_dead
  insert_dead-queue now j message db = ground arith

  bury-Hidden :
      (now : Time) (j : Uuid) (exit_code : Option ℤ) (message : String)
      → Keeps Hidden (bury now j exit_code message)
  unfolding bury
  bury-Hidden now j exit_code message =
      Triple-bind {R = λ _. Hidden} _ _
        (same_queue (insert_dead now j message) (insert_dead-queue now j message))
        λ _.
          Triple-bind {R = λ _. Hidden} _ _ (delete_queued-Hidden j)
            (λ _. same_queue _ (λ db. unfold update_execution in refl))

  after_attempt-Hidden :
      (now : Time) (j : Uuid) (exit_code : Option ℤ) (message : String) (r : Result ℕ)
      → j ≢ i
      → Keeps Hidden (after_attempt now j exit_code message r)
  unfolding after_attempt reschedule
  after_attempt-Hidden now j exit_code message (ok attempt) other =
      Keeps-if (ltb max_retries attempt) _ _ (bury-Hidden now j exit_code message)
        (update_queued-Hidden j _ other)
  after_attempt-Hidden now j exit_code message (err no_rows) other =
      bury-Hidden now j exit_code message
  after_attempt-Hidden now j exit_code message (err e) other = Triple-raise _ (λ db v. v)

  select_attempt-queue : (j : Uuid) (db : Db) → (select_attempt j db).1.queue ≡ db.queue
  unfolding select_attempt
  select_attempt-queue j db = ground arith

  pub fail-Hidden :
      (now : Time) (j : Uuid) (exit_code : Option ℤ) (message : String)
      → j ≢ i
      → Keeps Hidden (fail now j exit_code message)
  unfolding fail
  fail-Hidden now j exit_code message other =
      Triple-bind {R = λ _. Hidden} _ _
        (Keeps-attempt_to _ (same_queue (select_attempt j) (select_attempt-queue j)))
        (λ r. after_attempt-Hidden now j exit_code message r other)

  insert_queued-Hidden :
      (now : Time) (j : Uuid) (payload : Json) (v : Time) (db : Db)
      → j ≢ i
      → Hidden db
      → Hidden (insert_queued now j payload v db).1
  unfolding insert_queued new_row
  insert_queued-Hidden now j payload v db other h =
      elim (Option-cases (find_execution j db.executions)) [
        | inl none_such ↦ rw (none_such, insert_queued) h
        | inr (e, found) ↦
            rw (found, insert_queued)
              (elim (Bool-cases (any (λ q. q.execution_id == j) db.queue)) [
                | inl queued ↦ rw queued h
                | inr free ↦ rw free (
                    All-append (λ q. q.execution_id ≡ i → t < q.visible_after) db.queue _ h
                      (λ same. absurd (other (sym (found_id j db.executions found) ∙ same)), tt))
              ])
      ]

  pub enqueue-Hidden :
      (now : Time) (j : Uuid) (payload : Json) (v : Time)
      → j ≢ i
      → Keeps Hidden (enqueue now j payload v)
  unfolding enqueue
  enqueue-Hidden now j payload v other =
      Keeps-statement _ (λ db. insert_queued-Hidden now j payload _ db other)

  insert_execution-queue : (e : Execution) (db : Db) → (insert_execution e db).1.queue ≡ db.queue
  unfolding insert_execution
  insert_execution-queue e db = ground arith

  select_dead-queue : (j : Uuid) (db : Db) → (select_dead j db).1.queue ≡ db.queue
  unfolding select_dead
  select_dead-queue j db = ground arith

  delete_dead-queue : (j : Uuid) (db : Db) → (delete_dead j db).1.queue ≡ db.queue
  unfolding delete_dead
  delete_dead-queue j db = refl

  pub retry_from_dlq-Hidden :
      (now : Time) (new_id j : Uuid) → new_id ≢ i → Keeps Hidden (retry_from_dlq now new_id j)
  unfolding retry_from_dlq retry_body
  retry_from_dlq-Hidden now new_id j other = Keeps-transaction Hidden _ (
      Triple-bind {R = λ _. Hidden} _ _
        (Triple-weaken (same_queue (select_dead j) (select_dead-queue j)))
        λ found.
          Triple-bind {R = λ _. Hidden} _ _
            (Triple-weaken (same_queue _ (insert_execution-queue (retry_of new_id now found.1))))
            λ _.
              Triple-bind {R = λ _. Hidden} _ _
                (Triple-weaken (enqueue-Hidden now new_id found.0.payload now other))
                λ _.
                  Triple-bind {R = λ _. Hidden} _ _
                    (Triple-weaken (same_queue (delete_dead j) (delete_dead-queue j)))
                    (λ _. Triple-pure _ (λ db v. v)))
