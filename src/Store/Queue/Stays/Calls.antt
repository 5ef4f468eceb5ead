-- ===== src/Store/Queue/Stays/Calls.antt =====
-- Fail, Enqueue and RetryFromDLQ of another execution leave the row of a queued one
-- (internal/store/postgres/queue.go and execution.go).
use jobplane.Base.{
  ℕ, suc, ◌≡◌, ◌≢◌, ◌⊎◌, refl, sym, ◌∙◌, subst, inl, inr, String, false, not, Option, some, [], ◌∷◌,
  ◌++◌, arith, ◌==◌, ==_iff, ltb, any, All-append, any-select, any-append_one, any-append_some,
  first_sound, Bool-cases, Option-cases,
}
use jobplane.Base.Int.{ℤ}
use jobplane.Store.Models.{Uuid, Time, Json, Execution}
use jobplane.Store.Db.{Db, QueueRow, find_execution, find_queued}
use jobplane.Store.Exec.{Result, ok, err, no_rows, statement}
use jobplane.Store.Exec.Triple.{
  Keeps, Triple-bind, Triple-raise, Triple-weaken, Triple-pure, Keeps-statement, Keeps-attempt_to,
  Keeps-if, Keeps-transaction,
}
use jobplane.Store.Queue.{
  insert_dead, dead_row, bury, select_attempt, after_attempt, fail, max_retries, reschedule,
  insert_queued, new_row, enqueue,
}
use jobplane.Store.Jobs.{insert_execution}
use jobplane.Store.Executions.{select_dead, delete_dead, retry_of, retry_body, retry_from_dlq}
use jobplane.Store.Queue.Held.{found_id}
use jobplane.Store.Queue.Stays.{
  Own, Stays, same_tables, update_execution-Stays, delete_queued-Stays, update_queued-Stays,
}

insert_execution-writes :
    (e : Execution) (db : Db)
    → ((insert_execution e db).1 ≡ db)
      ⊎ ((insert_execution e db).1 ≡ record db { executions = db.executions ++ e ∷ [] })
unfolding insert_execution
insert_execution-writes e db = ground arith

dead_row-other :
    (now : Time) (message : String) (id : ℕ) (r : QueueRow) {i : Uuid}
    → r.execution_id ≢ i
    → ((dead_row id now message r).execution_id == i) ≡ false
unfolding dead_row
dead_row-other now message id r other = ground arith

module _ (i : Uuid) (q : QueueRow) where
  insert_dead-Stays :
      (now : Time) (j : Uuid) (message : String)
      → j ≢ i
      → Keeps (Stays i q) (statement (insert_dead now j message))
  unfolding insert_dead
  insert_dead-Stays now j message other = Keeps-statement _ inserted
    where
      added :
          (db : Db) (r : QueueRow)
          → find_queued j db.queue ≡ some r
          → Stays i q db
          → Stays i q (record db {
            dlq = db.dlq ++ dead_row db.next_dlq_id now message r ∷ [];
            next_dlq_id = suc db.next_dlq_id;
          })
      added db r found h = record {
        known = h.known;
        alive =
            any-append_one (λ d. d.execution_id == i) db.dlq (dead_row db.next_dlq_id now message r)
              h.alive
              (dead_row-other now message db.next_dlq_id r (λ e. other (
                sym ((==_iff _ _).0 (first_sound (λ x. x.execution_id == j) db.queue r found))
                ∙ e)));
        there = h.there;
        own = h.own;
        numbered = h.numbered;
      }

      inserted : (db : Db) → Stays i q db → Stays i q (insert_dead now j message db).1
      inserted db h = elim (Option-cases (find_queued j db.queue)) [
        | inl gone ↦ rw (gone, insert_dead) h
        | inr (r, found) ↦
            rw (found, insert_dead)
              (elim (Bool-cases (any (λ d. d.execution_id == j) db.dlq)) [
                | inl old ↦ rw old h
                | inr new ↦ rw new (added db r found h)
              ])
      ]

  bury-Stays :
      (now : Time) (j : Uuid) (exit_code : Option ℤ) (message : String)
      → j ≢ i
      → Keeps (Stays i q) (bury now j exit_code message)
  unfolding bury
  bury-Stays now j exit_code message other =
      Triple-bind {R = λ _. Stays i q} _ _ (insert_dead-Stays now j message other) λ _.
        Triple-bind {R = λ _. Stays i q} _ _ (delete_queued-Stays i q j other)
          (λ _. update_execution-Stays i q j _ (λ e. refl))

  after_attempt-Stays :
      (now : Time) (j : Uuid) (exit_code : Option ℤ) (message : String) (r : Result ℕ)
      → j ≢ i
      → Keeps (Stays i q) (after_attempt now j exit_code message r)
  unfolding after_attempt reschedule
  after_attempt-Stays now j exit_code message (ok attempt) other =
      Keeps-if (ltb max_retries attempt) _ _ (bury-Stays now j exit_code message other)
        (update_queued-Stays i q j _ other)
  after_attempt-Stays now j exit_code message (err no_rows) other =
      bury-Stays now j exit_code message other
  after_attempt-Stays now j exit_code message (err e) other = Triple-raise _ (λ db v. v)

  select_attempt-db : (j : Uuid) (db : Db) → (select_attempt j db).1 ≡ db
  unfolding select_attempt
  select_attempt-db j db = ground arith

  pub fail-Stays :
      (now : Time) (j : Uuid) (exit_code : Option ℤ) (message : String)
      → j ≢ i
      → Keeps (Stays i q) (fail now j exit_code message)
  unfolding fail
  fail-Stays now j exit_code message other =
      Triple-bind {R = λ _. Stays i q} _ _
        (Keeps-attempt_to _ (same_tables i q (select_attempt j) (select_attempt-db j)))
        (λ r. after_attempt-Stays now j exit_code message r other)

  insert_queued-Stays :
      (now : Time) (j : Uuid) (payload : Json) (v : Time) (db : Db)
      → j ≢ i
      → Stays i q db
      → Stays i q (insert_queued now j payload v db).1
  unfolding new_row insert_queued
  insert_queued-Stays now j payload v db other h =
      elim (Option-cases (find_execution j db.executions)) [
        | inl none_such ↦ rw (none_such, insert_queued) h
        | inr (e, found) ↦
            rw (found, insert_queued)
              (elim (Bool-cases (any (λ r. r.execution_id == j) db.queue)) [
                | inl queued ↦ rw queued h
                | inr free ↦ rw free (record {
                  known = h.known;
                  alive = h.alive;
                  there = any-append_some (λ r. r.execution_id == i) db.queue _ h.there;
                  own = All-append (Own i q) db.queue _ h.own (
                    (
                      λ same. absurd (other (sym (found_id j db.executions found) ∙ same)),
                      λ same. absurd (omega (arith, same, h.numbered)),
                    ),
                    tt,
                  );
                  numbered = omega (arith, h.numbered);
                })
              ])
      ]

  pub enqueue-Stays :
      (now : Time) (j : Uuid) (payload : Json) (v : Time)
      → j ≢ i
      → Keeps (Stays i q) (enqueue now j payload v)
  unfolding enqueue
  enqueue-Stays now j payload v other =
      Keeps-statement _ (λ db. insert_queued-Stays now j payload _ db other)

  insert_execution-Stays : (e : Execution) → Keeps (Stays i q) (statement (insert_execution e))
  insert_execution-Stays e = Keeps-statement _ λ db h. elim (inserted db) [
    | inl same ↦ subst (Stays i q) (sym same) h
    | inr more ↦ subst (Stays i q) (sym more) (record {
      known = any-append_some (λ x. x.id == i) db.executions (e ∷ []) h.known;
      alive = h.alive;
      there = h.there;
      own = h.own;
      numbered = h.numbered;
    })
  ]
    where
      inserted :
          (db : Db)
          → ((insert_execution e db).1 ≡ db)
            ⊎ ((insert_execution e db).1 ≡ record db { executions = db.executions ++ e ∷ [] })
      inserted db = insert_execution-writes e db

  select_dead-db : (j : Uuid) (db : Db) → (select_dead j db).1 ≡ db
  unfolding select_dead
  select_dead-db j db = ground arith

  delete_dead-Stays : (j : Uuid) → Keeps (Stays i q) (statement (delete_dead j))
  unfolding delete_dead
  delete_dead-Stays j = Keeps-statement _ λ db h. record {
    known = h.known;
    alive = any-select (λ d. d.execution_id == i) (λ d. not (d.execution_id == j)) db.dlq h.alive;
    there = h.there;
    own = h.own;
    numbered = h.numbered;
  }

  pub retry_from_dlq-Stays :
      (now : Time) (new_id j : Uuid) → new_id ≢ i → Keeps (Stays i q) (retry_from_dlq now new_id j)
  unfolding retry_from_dlq retry_body
  retry_from_dlq-Stays now new_id j other = Keeps-transaction (Stays i q) _ (
      Triple-bind {R = λ _. Stays i q} _ _
        (Triple-weaken (same_tables i q (select_dead j) (select_dead-db j)))
        λ found.
          Triple-bind {R = λ _. Stays i q} _ _
            (Triple-weaken (insert_execution-Stays (retry_of new_id now found.1)))
            λ _.
              Triple-bind {R = λ _. Stays i q} _ _
                (Triple-weaken (enqueue-Stays now new_id found.0.payload now other))
                λ _.
                  Triple-bind {R = λ _. Stays i q} _ _ (Triple-weaken (delete_dead-Stays j))
                    (λ _. Triple-pure _ (λ db v. v)))
