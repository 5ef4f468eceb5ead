-- ===== src/Store/Queue/Outcome.antt =====
-- What Fail does to the tables (internal/store/postgres/queue.go), lookup by lookup, on every branch.
use jobplane.Base.{
  suc, ◌+◌, ◌≤◌, ◌<◌, ◌≡◌, refl, inl, inr, String, true, false, Option, none, some, [], ◌∷◌, ◌++◌,
  arith, ◌==◌, ltb, if◌then◌else◌, any, Bool-cases, Option-cases, select, not, map,
}
use mathlib.Core.Option
use jobplane.Base.Int.{ℤ}
use jobplane.Store.Models.{Uuid, Time, Execution, failed}
use jobplane.Store.Db.{
  Db, QueueRow, DlqRow, find_execution, find_queued, find_dead, execution_key, queue_key,
}
use jobplane.Store.Exec.{Result, ok, err, unique_violation, World}
use jobplane.Store.Queue.{
  fail, insert_dead, dead_row, max_retries, backoff, bury, select_attempt, after_attempt,
}
use jobplane.Store.Views.{first-update, first-delete, select-missing}

-- The environment lets every statement through.
abbrev pub quiet : Db → World
quiet db = record { db = db; faults = [] }

abbrev pub as_failed : Time → Option ℤ → String → Execution → Execution
as_failed now exit_code message e = record e {
  status = failed;
  exit_code = exit_code;
  error_message = some message;
  completed_at = some now;
}

-- Only the row with key `i` changes, by `f`.
abbrev pub Updates : {A : Type 0} → Uuid → (A → A) → (Uuid → Option A) → (Uuid → Option A) → Type 0
Updates i f before after =
    (j : Uuid) → after j ≡ (if i == j then Option.map f (before j) else before j)

-- Only the row with key `i` goes.
abbrev pub Deletes : {A : Type 0} → Uuid → (Uuid → Option A) → (Uuid → Option A) → Type 0
Deletes i before after = (j : Uuid) → after j ≡ (if i == j then none else before j)

abbrev pub executions_of : Db → Uuid → Option Execution
executions_of db i = find_execution i db.executions

abbrev pub queue_of : Db → Uuid → Option QueueRow
queue_of db i = find_queued i db.queue

abbrev pub dlq_of : Db → Uuid → Option DlqRow
dlq_of db i = find_dead i db.dlq

module _ (now : Time) (i : Uuid) (db : Db) where
  -- What Fail may do: retry later, give up, end an execution that is not queued, or be refused
  -- because the dead letter queue has the execution already.
  pub data FailOutcome (exit_code : Option ℤ) (message : String) (r : Result (Unit {0}))
      (after : Db) : Type 0 where
    retried :
        (q : QueueRow)
        → queue_of db i ≡ some q
        → q.attempt ≤ max_retries
        → r ≡ ok tt
        → Updates i
            (λ x. record x { visible_after = now + backoff q.attempt })
            (queue_of db)
            (queue_of after)
        → after.executions ≡ db.executions
        → after.dlq ≡ db.dlq
        → FailOutcome exit_code message r after
    buried :
        (q : QueueRow)
        → queue_of db i ≡ some q
        → max_retries < q.attempt
        → r ≡ ok tt
        → Deletes i (queue_of db) (queue_of after)
        → Updates i (as_failed now exit_code message) (executions_of db) (executions_of after)
        → after.dlq ≡ db.dlq ++ dead_row db.next_dlq_id now message q ∷ []
        → FailOutcome exit_code message r after
    ended :
        queue_of db i ≡ none
        → r ≡ ok tt
        → after.queue ≡ db.queue
        → Updates i (as_failed now exit_code message) (executions_of db) (executions_of after)
        → after.dlq ≡ db.dlq
        → FailOutcome exit_code message r after
    refused :
        (q : QueueRow)
        → queue_of db i ≡ some q
        → max_retries < q.attempt
        → any (λ d. d.execution_id == i) db.dlq ≡ true
        → r ≡ err unique_violation
        → after ≡ db
        → FailOutcome exit_code message r after

  module _ (exit_code : Option ℤ) (message : String) where
    abbrev FailOutcomeOf : Result (Unit {0}) × World → Type 0
    FailOutcomeOf (r, w) = FailOutcome exit_code message r w.db

    -- The tables once the execution is out of the queue and FAILED.
    abbrev failed_db : Db → Db
    failed_db d = record d {
      queue = select (λ q. not (q.execution_id == i)) d.queue;
      executions =
          map (λ e. if e.id == i then as_failed now exit_code message e else e) d.executions;
    }

    bury_gone :
        queue_of db i ≡ none
        → bury now i exit_code message (quiet db) ≡ (ok tt, quiet (failed_db db))
    unfolding bury
    bury_gone e = rw (e, insert_dead)

    pub bury_refused :
        (q : QueueRow)
        → queue_of db i ≡ some q
        → any (λ d. d.execution_id == i) db.dlq ≡ true
        → bury now i exit_code message (quiet db) ≡ (err unique_violation, quiet db)
    unfolding bury
    bury_refused q e old = rw (e, insert_dead) (rw old)

    bury_done :
        (q : QueueRow)
        → queue_of db i ≡ some q
        → any (λ d. d.execution_id == i) db.dlq ≡ false
        → bury now i exit_code message (quiet db) ≡ (
          ok tt,
          quiet (
              failed_db (record db {
                dlq = db.dlq ++ dead_row db.next_dlq_id now message q ∷ [];
                next_dlq_id = suc db.next_dlq_id;
              })),
        )
    unfolding bury
    bury_done q e new = rw (e, insert_dead) (rw new)

    failed-Updates :
        Updates i
          (as_failed now exit_code message)
          (executions_of db)
          (executions_of (failed_db db))
    failed-Updates j =
        first-update execution_key i j (as_failed now exit_code message) db.executions (λ e. refl)

    fail_queued :
        (q : QueueRow)
        → queue_of db i ≡ some q
        → FailOutcomeOf (after_attempt now i exit_code message (ok q.attempt) (quiet db))
    unfolding after_attempt
    fail_queued q e = elim (Bool-cases (ltb max_retries q.attempt)) [
      | inr few ↦ rw few (
          retried q e (ground arith) refl
            (λ j.
              first-update queue_key i j (λ x. record x { visible_after = now + backoff q.attempt })
                db.queue (λ x. refl))
            refl refl)
      | inl many ↦ rw many (elim (Bool-cases (any (λ d. d.execution_id == i) db.dlq)) [
        | inl old ↦ rw (bury_refused q e old) (refused q e (ground arith) old refl refl)
        | inr new ↦ rw (bury_done q e new) (
            buried q e (ground arith) refl (λ j. first-delete queue_key i j db.queue) failed-Updates
              refl)
      ])
    ]

    pub fail-FailOutcome : FailOutcomeOf (fail now i exit_code message (quiet db))
    unfolding fail
    fail-FailOutcome = elim (Option-cases (queue_of db i)) [
      | inl gone ↦
          rw (gone, select_attempt)
            (unfold after_attempt in
              rw (bury_gone gone)
                (ended gone refl (select-missing queue_key i db.queue gone) failed-Updates refl))
      | inr (q, e) ↦ rw (e, select_attempt) (fail_queued q e)
    ]
