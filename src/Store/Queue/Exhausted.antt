-- ===== src/Store/Queue/Exhausted.antt =====
-- An execution that fails in every delivery (internal/store/postgres/queue.go, DequeueBatch and
-- Fail).
use jobplane.Base.{
  ℕ, suc, ◌+◌, ◌≤◌, ◌<◌, ◌≡◌, refl, sym, ap, inl, inr, String, Bool, true, false, Option, none,
  some, List, [], ◌∷◌, arith, ◌==◌, any, any-first, first-append_fresh, first, ◌++◌, first_sound,
  ==_iff, ◌∙◌,
}
use jobplane.Base.Int.{ℤ}
use jobplane.Store.Models.{Uuid, Time, Execution, QueueItem, failed}
use jobplane.Store.Db.{Db, QueueRow, DlqRow}
use jobplane.Store.Exec.{ok}
use jobplane.Store.Queue.{
  dequeue_batch, fail, max_retries, backoff, dead_row, set_visible_after, visibility_timeout,
}
use jobplane.Store.Queue.Exclusive.{delivers, Poll, poll}
use jobplane.Store.Queue.Outcome.{
  quiet, as_failed, executions_of, queue_of, dlq_of, FailOutcome, retried, buried, ended, refused,
  fail-FailOutcome,
}
use jobplane.Store.Queue.Stays.{Stays}
use jobplane.Store.Queue.Polled.{Stays-queued, poll-taken}
use jobplane.Store.Queue.Around.{Apart, act-Stays, beat-Stays, retried-Stays, seen_from}
use jobplane.Store.Queue.Held.Alive.{Other, act}

-- `Failing i n db`: the execution was queued afresh, and up to the tables `db` it has been handed out
-- `n` times, by any calls of DequeueBatch. In between came Fails of it that lost no statement, the
-- last one with at most five deliveries before it, heartbeats of it, and calls by others that did not
-- complete it. Except for the Fails, each call may lose the statements that `faults` says.
pub data Failing (i : Uuid) : ℕ → Db → Type 0 where
  fresh : (q : QueueRow) (db : Db) → Stays i q db → q.attempt ≡ 0 → Failing i 0 db
  handed_out :
      {n : ℕ} {db : Db} (p : Poll) (faults : List Bool) (items : List QueueItem)
      → Failing i n db
      → (dequeue_batch p.now p.locked p.tenants p.limit (record { db = db; faults = faults })).0
        ≡ ok items
      → delivers i items ≡ true
      → Failing i (suc n) (poll p (record { db = db; faults = faults })).db
  given_back :
      {n : ℕ} {db : Db} (now : Time) (exit_code : Option ℤ) (message : String)
      → Failing i n db
      → n ≤ max_retries
      → Failing i n (fail now i exit_code message (quiet db)).1.db
  beaten :
      {n : ℕ} {db : Db} (v : Time) (faults : List Bool)
      → Failing i n db
      → Failing i n (set_visible_after i v (record { db = db; faults = faults })).1.db
  goes_on :
      {n : ℕ} {db : Db} {now : Time} (call : Other i now) (faults : List Bool)
      → Failing i n db
      → Apart call (record { db = db; faults = faults })
      → Failing i n (act call (record { db = db; faults = faults })).db

-- What a Fail after `n` deliveries makes of the execution.
pub data Fate (i : Uuid) (n : ℕ) (db : Db) : Type 0 where
  waits :
      (q : QueueRow)
      → n ≤ max_retries
      → queue_of db i ≡ some q
      → q.attempt ≡ n
      → any (λ d. d.execution_id == i) db.dlq ≡ false
      → Fate i n db
  dead :
      (e : Execution) (d : DlqRow)
      → max_retries < n
      → queue_of db i ≡ none
      → executions_of db i ≡ some e
      → e.status ≡ failed
      → dlq_of db i ≡ some d
      → d.attempts ≡ n
      → Fate i n db

module _ (i : Uuid) where
  kept_row : {n : ℕ} {db : Db} → Failing i n db → (q : QueueRow) × Stays i q db × (q.attempt ≡ n)
  kept_row (fresh q db h zero) = (q, h, zero)
  kept_row (handed_out {db = db} p faults items before ran d) =
      let (q, h, count) = kept_row before in
      (
        record q { attempt = q.attempt + 1; visible_after = p.now + visibility_timeout },
        poll-taken i q p (record { db = db; faults = faults }) items ran d h,
        omega (arith, count),
      )
  kept_row (given_back {db = db} now exit_code message before few) =
      let (q, h, count) = kept_row before in
      (
        seen_from i q (now + backoff q.attempt),
        retried-Stays i q now exit_code message db (omega (arith, few, count)) h,
        count,
      )
  kept_row (beaten {db = db} v faults before) =
      let (q, h, count) = kept_row before in
      elim (beat-Stays i q v (record { db = db; faults = faults }) h) [
        | inl lost ↦ (q, lost, count)
        | inr seen ↦ (seen_from i q v, seen, count)
      ]
  kept_row (goes_on {db = db} call faults before apart) =
      let (q, h, count) = kept_row before in
      (q, act-Stays i q call (record { db = db; faults = faults }) apart h, count)

  -- The new dead letter of a queued execution is its first one.
  dlq_of-buried :
      (now : Time) (message : String) (db : Db) (q : QueueRow)
      → queue_of db i ≡ some q
      → any (λ d. d.execution_id == i) db.dlq ≡ false
      → first (λ d. d.execution_id == i) (db.dlq ++ dead_row db.next_dlq_id now message q ∷ [])
        ≡ some (dead_row db.next_dlq_id now message q)
  unfolding dead_row
  dlq_of-buried now message db q queued alive =
      let hit : (q.execution_id == i) ≡ true =
        first_sound (λ x. x.execution_id == i) db.queue q queued in
      first-append_fresh (λ d. d.execution_id == i) db.dlq _ alive ∙ rw hit refl

  dead_row-attempts :
      (id n : ℕ) (now : Time) (message : String) (q : QueueRow)
      → q.attempt ≡ n
      → (dead_row id now message q).attempts ≡ n
  unfolding dead_row
  dead_row-attempts id n now message q e = e

  fail-Fate :
      (n : ℕ) (db : Db) (r : QueueRow) (now : Time) (exit_code : Option ℤ) (message : String)
      → Stays i r db
      → r.attempt ≡ n
      → Fate i n (fail now i exit_code message (quiet db)).1.db
  fail-Fate n db r now exit_code message h count =
      outcome (fail-FailOutcome now i db exit_code message)
    where
      after : Db
      after = (fail now i exit_code message (quiet db)).1.db

      queued : queue_of db i ≡ some r
      queued = Stays-queued i r db h

      owner : (e : Execution) × (executions_of db i ≡ some e)
      owner = any-first (λ e. e.id == i) db.executions h.known

      same_row : (q : QueueRow) → queue_of db i ≡ some q → q ≡ r
      same_row q e = let twin : some q ≡ some r = sym e ∙ queued in ground arith

      self : (i == i) ≡ true
      self = (==_iff _ _).1 refl

      outcome :
          FailOutcome now i db exit_code message (fail now i exit_code message (quiet db)).0 after
          → Fate i n after
      outcome (retried q e low done updates executions dlq) =
          let c : q.attempt ≡ n = ap (λ x. x.attempt) (same_row q e) ∙ count in
          waits (record r { visible_after = now + backoff q.attempt }) (omega (arith, low, c))
            (updates i ∙ rw (self, queued) refl) count (rw dlq h.alive)
      outcome (buried q e high done deletes updates dlq) =
          let c : q.attempt ≡ n = ap (λ x. x.attempt) (same_row q e) ∙ count in
          dead (as_failed now exit_code message owner.0) (dead_row db.next_dlq_id now message q)
            (omega (arith, high, c)) (deletes i ∙ rw self refl)
            (updates i ∙ rw (self, owner.1) refl) refl
            (ap (λ l. first (λ x. x.execution_id == i) l) dlq
              ∙ dlq_of-buried now message db q e h.alive)
            (dead_row-attempts _ _ now message q c)
      outcome (ended gone done queue executions dlq) = absurd (ground (arith, gone, queued))
      outcome (refused q e high old done same) = absurd (ground (arith, old, h.alive))

  -- An execution that is queued afresh, in one row of its own, and is no dead letter, is kept through
  -- five deliveries, and the first Fail after the sixth ends it. A Fail that loses no statement leaves
  -- it in the queue with the number of its deliveries when these are at most five; after more it is
  -- out of the queue, FAILED, and a dead letter that counts its deliveries. Between its deliveries may
  -- come earlier such Fails of it, heartbeats of it, any calls of DequeueBatch, and completions,
  -- failures and heartbeats of others, new executions and retries, whichever statements of these fail;
  -- a delivery need not end in a Fail to count.
  pub dead_after_six :
      {n : ℕ} {db : Db} (now : Time) (exit_code : Option ℤ) (message : String)
      → Failing i n db
      → Fate i n (fail now i exit_code message (quiet db)).1.db
  dead_after_six {n} {db} now exit_code message before =
      let (q, h, count) = kept_row before in fail-Fate n db q now exit_code message h count
