-- ===== src/Store/Queue/Claimed.antt =====
-- What a successful DequeueBatch writes (internal/store/postgres/queue.go), row by row.
use jobplane.Base.{
  ℕ, ◌+◌, ◌*◌, ◌≡◌, refl, sym, ap, ◌∙◌, inl, inr, true, ◌&&◌, Option, none, some, List, [], ◌∷◌,
  arith, map, ◌==◌, ==_iff, if◌then◌else◌, first, first-map, first_sound, Option-cases,
}
use mathlib.Core.Option
use jobplane.Base.Int.{ℤ}
use jobplane.Store.Models.{Uuid, Time, Execution, QueueItem, running, second}
use jobplane.Store.Db.{Db, QueueRow}
use jobplane.Store.Exec.{ok, World}
use jobplane.Store.Queue.{
  dequeue_batch, select_batch, at_least_one, update_claimed, update_started, claim_row, claim_of,
  start_with, has_id, row_id, item_of, or_else,
}
use jobplane.Store.Queue.Claim.{dequeue_batch_ok, after_claim}
use jobplane.Store.Queue.Outcome.{executions_of}

-- The row of the execution `j` among those with the ids.
abbrev pub taken_of : List ℕ → Db → Uuid → Option QueueRow
taken_of ids db j = first (λ q. has_id ids q && q.execution_id == j) db.queue

abbrev pub first_start : Option Time → Time → Time
first_start none now = now
first_start (some t) now = t

-- The rows with the ids count one attempt more and are hidden for five minutes; their executions run,
-- with that attempt and the time of their first start; no other row or execution changes, nor
-- anything else.
pub record Claims (now : Time) (ids : List ℕ) (before after : Db) : Type 0 where
  pub queue :
      after.queue
      ≡ map
          (λ q.
            if has_id ids q
            then record q { attempt = q.attempt + 1; visible_after = now + 5 * 60 * second }
            else q)
          before.queue
  pub started :
      (j : Uuid) (q : QueueRow) (e : Execution)
      → taken_of ids before j ≡ some q
      → executions_of before j ≡ some e
      → executions_of after j
        ≡ some (record e {
          status = running;
          started_at = some (first_start e.started_at now);
          attempt = q.attempt + 1;
        })
  pub others :
      (j : Uuid) → taken_of ids before j ≡ none → executions_of after j ≡ executions_of before j
  pub rest : after ≡ record before { queue = after.queue; executions = after.executions }

module _ (now : Time) (ids : List ℕ) (before : Db) where
  after_both : Db
  after_both = (update_started now ids (update_claimed now ids before).1).1

  pub start_with-id : (o : Option QueueRow) (e : Execution) → (start_with now o e).id ≡ e.id
  start_with-id none e = refl
  start_with-id (some q) e = refl

  -- What the second statement reads of a claimed row is the row before the first one, claimed.
  claim_of-claimed :
      (j : Uuid)
      → claim_of ids (map (claim_row now ids) before.queue) j
        ≡ Option.map (claim_row now ids) (taken_of ids before j)
  claim_of-claimed j =
      first-map (λ q. has_id ids q && q.execution_id == j) (claim_row now ids) before.queue
        (λ q. ground arith)

  executions_of-started :
      (j : Uuid)
      → executions_of after_both j
        ≡ Option.map
            (start_with now (Option.map (claim_row now ids) (taken_of ids before j)))
            (executions_of before j)
  unfolding update_claimed update_started after_both
  executions_of-started j = elim (Option-cases (executions_of before j)) [
    | inl gone ↦ mapped ∙ rw gone refl
    | inr (e, found) ↦
        let key : e.id ≡ j =
          (==_iff _ _).0 (first_sound (λ x. x.id == j) before.executions e found) in
        mapped ∙ rw found (ap some (rw key (rw (claim_of-claimed j) refl)))
  ]
    where
      mapped :
          first
            (λ x. x.id == j)
            (map
              (λ e. start_with now (claim_of ids (map (claim_row now ids) before.queue) e.id) e)
              before.executions)
          ≡ Option.map
              (λ e. start_with now (claim_of ids (map (claim_row now ids) before.queue) e.id) e)
              (executions_of before j)
      mapped =
          first-map (λ x. x.id == j) _ before.executions
            (λ e.
              ap (λ n. n == j)
                (start_with-id (claim_of ids (map (claim_row now ids) before.queue) e.id) e))

  first_start-or_else : (o : Option Time) (t : Time) → or_else o t ≡ first_start o t
  first_start-or_else none t = refl
  first_start-or_else (some s) t = refl

  both-Claims : Claims now ids before after_both
  unfolding update_claimed update_started after_both
  both-Claims = record {
    queue = refl;
    started = λ j q e taken found.
        let hit : has_id ids q ≡ true =
          ground
            (arith, first_sound (λ x. has_id ids x && x.execution_id == j) before.queue q taken) in
        executions_of-started j
        ∙ rw (taken, found) (rw hit (rw (first_start-or_else e.started_at now) refl));
    others = λ j free.
        executions_of-started j
        ∙ rw free (elim (Option-cases (executions_of before j)) [
          | inl gone ↦ rw gone refl
          | inr (e, found) ↦ rw found refl
        ]);
    rest = refl;
  }

no_ids : (now : Time) (queue : List QueueRow) → queue ≡ map (claim_row now []) queue
no_ids now [] = refl
no_ids now (q ∷ qs) = ap (λ l. q ∷ l) (no_ids now qs)

none_taken :
    (j : Uuid) (queue : List QueueRow)
    → first (λ q. has_id [] q && q.execution_id == j) queue ≡ none
none_taken j [] = refl
none_taken j (q ∷ qs) = none_taken j qs

after_claim-Claims :
    (now : Time) (rows : List QueueRow) (before : Db)
    → Claims now (map row_id rows) before (after_claim now rows before)
unfolding after_claim after_both
after_claim-Claims now [] before = record {
  queue = no_ids now before.queue;
  started = λ j q e taken found.
      let none_is : none ≡ some q = sym (none_taken j before.queue) ∙ taken in absurd (cc);
  others = λ j free. refl;
  rest = refl;
}
after_claim-Claims now (q ∷ qs) before = both-Claims now (map row_id (q ∷ qs)) before

-- A call that succeeds hands out the items of the selected rows, and has claimed these rows: each
-- counts one attempt more and is hidden for five minutes, its execution runs with that attempt and
-- the time of its first start, and nothing else changes, whatever statements are lost.
pub dequeue_batch-Claims :
    (now : Time) (locked : List ℕ) (tenants : List Uuid) (limit : ℤ) (w : World)
    {items : List QueueItem}
    → (dequeue_batch now locked tenants limit w).0 ≡ ok items
    → let batch = select_batch now locked tenants (at_least_one limit) w.db.queue in
      (items ≡ map item_of batch)
      × Claims now (map row_id batch) w.db (dequeue_batch now locked tenants limit w).1.db
dequeue_batch-Claims now locked tenants limit w h =
    let (handed, db) = dequeue_batch_ok now locked tenants limit w h in
    (
      handed,
      rw db (
          after_claim-Claims now (select_batch now locked tenants (at_least_one limit) w.db.queue)
            w.db),
    )
