-- ===== src/Store/Queue/Wedged.antt =====
-- What Fail leaves where a statement fails half way (internal/store/postgres/queue.go).
use jobplane.Base.{
  suc, ◌<◌, ◌≡◌, String, true, false, Option, some, [], ◌∷◌, ◌++◌, arith, ◌==◌, ltb, any,
  first_sound, any-append_hit,
}
use jobplane.Base.Int.{ℤ}
use jobplane.Store.Models.{Uuid, Time}
use jobplane.Store.Db.{Db, QueueRow}
use jobplane.Store.Exec.{err, unavailable, unique_violation, World}
use jobplane.Store.Queue.{
  fail, insert_dead, dead_row, max_retries, bury, select_attempt, after_attempt,
}
use jobplane.Store.Queue.Outcome.{quiet, queue_of, bury_refused}

module _ (i : Uuid) (q : QueueRow) where
  fail_refused :
      (now : Time) (exit_code : Option ℤ) (message : String) (db : Db)
      → queue_of db i ≡ some q
      → max_retries < q.attempt
      → any (λ d. d.execution_id == i) db.dlq ≡ true
      → fail now i exit_code message (quiet db) ≡ (err unique_violation, quiet db)
  unfolding fail after_attempt
  fail_refused now exit_code message db e many old =
      let over : ltb max_retries q.attempt ≡ true = ground arith in
      rw (e, select_attempt) (rw over (bury_refused now i db exit_code message q e old))

  module _ (db : Db) (e : queue_of db i ≡ some q) (many : max_retries < q.attempt)
      (new : any (λ d. d.execution_id == i) db.dlq ≡ false) where
    -- The environment lets the DELETE from the queue fail.
    abbrev delete_lost : World
    delete_lost = record { db = db; faults = false ∷ false ∷ true ∷ [] }

    abbrev buried_twice : Time → String → Db
    buried_twice now message = record db {
      dlq = db.dlq ++ dead_row db.next_dlq_id now message q ∷ [];
      next_dlq_id = suc db.next_dlq_id;
    }

    fail-delete_lost :
        (now : Time) (exit_code : Option ℤ) (message : String)
        → fail now i exit_code message delete_lost
          ≡ (err unavailable, quiet (buried_twice now message))
    unfolding fail after_attempt bury
    fail-delete_lost now exit_code message =
        let over : ltb max_retries q.attempt ≡ true = ground arith in
        rw (e, select_attempt) (rw over (rw (e, insert_dead) (rw new)))

    -- Where the DELETE of the last Fail is lost after the INSERT into the dead letter queue, every
    -- later undisturbed Fail is refused and changes nothing: the row stays in the queue.
    pub fail_wedged :
        (now now' : Time) (exit_code exit_code' : Option ℤ) (message message' : String)
        → let db' = (fail now i exit_code message delete_lost).1.db in
          (queue_of db' i ≡ some q)
          × (fail now' i exit_code' message' (quiet db') ≡ (err unique_violation, quiet db'))
    unfolding dead_row
    fail_wedged now now' exit_code exit_code' message message' =
        rw (fail-delete_lost now exit_code message) (
          e,
          fail_refused now' exit_code' message' (buried_twice now message) e many (
              any-append_hit (λ d. d.execution_id == i) db.dlq
                (dead_row db.next_dlq_id now message q)
                (first_sound (λ r. r.execution_id == i) db.queue q e)),
        )
