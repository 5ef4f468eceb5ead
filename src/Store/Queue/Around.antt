-- ===== src/Store/Queue/Around.antt =====
-- A queued execution among the calls of others and its own heartbeats and failures
-- (internal/store/postgres/queue.go).
use jobplane.Base.{
  ◌+◌, ◌≤◌, ◌≡◌, ◌≢◌, ◌⊎◌, ap, ◌∙◌, inl, inr, String, false, Option, List, arith, ◌==◌, ltb,
  if◌then◌else◌, any-map, All-map, Bool-cases,
}
use jobplane.Base.Int.{ℤ}
use jobplane.Store.Models.{Uuid, Time, QueueItem}
use jobplane.Store.Db.{Db, QueueRow}
use jobplane.Store.Exec.{Result, ok, World, next_fault}
use jobplane.Store.Exec.Triple.{result_post, Keeps}
use jobplane.Store.Queue.{
  dequeue_batch, update_queued, set_visible_after, fail, after_attempt, reschedule, select_attempt,
  max_retries, backoff,
}
use jobplane.Store.Queue.Exclusive.{delivers, Poll}
use jobplane.Store.Queue.Outcome.{quiet}
use jobplane.Store.Queue.Stays.{Own, Stays, complete-Stays, set_visible_after-Stays}
use jobplane.Store.Queue.Stays.Calls.{fail-Stays, enqueue-Stays, retry_from_dlq-Stays}
use jobplane.Store.Queue.Polled.{Stays-queued, poll-Stays}
use jobplane.Store.Queue.Held.Alive.{Other, polls, completes, fails, beats, enqueues, retries, act}

-- The call of DequeueBatch does not hand `i` out.
abbrev pub Spares : Uuid → Poll → World → Type 0
Spares i p w =
    (items : List QueueItem)
    → (dequeue_batch p.now p.locked p.tenants p.limit w).0 ≡ ok items
    → delivers i items ≡ false

-- The call neither hands `i` out nor completes it.
unfoldable pub Apart : {i : Uuid} {now : Time} → Other i now → World → Type 0
Apart {i} (polls p) w = Spares i p w
Apart {i} (completes now j exit_code result) w = j ≢ i
Apart (fails now j exit_code message other) w = Unit
Apart (beats now j v other) w = Unit
Apart (enqueues now j payload v other) w = Unit
Apart (retries now new_id j other) w = Unit

-- The call completes an execution other than `i`, if it completes one.
unfoldable pub Spared : {i : Uuid} {now : Time} → Other i now → Type 0
Spared {i} (completes now j exit_code result) = j ≢ i
Spared (polls p) = Unit
Spared (fails now j exit_code message other) = Unit
Spared (beats now j v other) = Unit
Spared (enqueues now j payload v other) = Unit
Spared (retries now new_id j other) = Unit

abbrev see : Time → QueueRow → QueueRow
see v r = record r { visible_after = v }

module _ (i : Uuid) (q : QueueRow) where
  kept_by :
      {A : Type 0} (m : World → Result A × World) (w : World)
      → Keeps (Stays i q) m
      → Stays i q w.db
      → Stays i q (m w).1.db
  kept_by m w kept h = result_post (Stays i q) (m w).0 (m w).1.db (kept.at w h)

  pub act-Stays :
      {now : Time} (call : Other i now) (w : World)
      → Apart call w
      → Stays i q w.db
      → Stays i q (act call w).db
  unfolding act Apart
  act-Stays (polls p) w spares h = poll-Stays i q p w spares h
  act-Stays (completes now j exit_code result) w other h =
      kept_by _ w (complete-Stays i q now j exit_code result other) h
  act-Stays (fails now j exit_code message other) w _ h =
      kept_by _ w (fail-Stays i q now j exit_code message other) h
  act-Stays (beats now j v other) w _ h = kept_by _ w (set_visible_after-Stays i q j v other) h
  act-Stays (enqueues now j payload v other) w _ h =
      kept_by _ w (enqueue-Stays i q now j payload v other) h
  act-Stays (retries now new_id j other) w _ h =
      kept_by _ w (retry_from_dlq-Stays i q now new_id j other) h

  -- Its row, visible from `v` on.
  abbrev pub seen_from : Time → QueueRow
  seen_from v = record q { visible_after = v }

  moved : Time → QueueRow → QueueRow
  moved v r = if r.execution_id == i then record r { visible_after = v } else r

  moved-Own : (v : Time) (r : QueueRow) → Own i q r → Own i (seen_from v) (moved v r)
  unfolding moved
  moved-Own v r own = elim (Bool-cases (r.execution_id == i)) [
    | inl hit ↦ rw hit (λ e. ap (see v) (own.0 e), own.1)
    | inr miss ↦ rw miss (λ e. absurd (ground (arith, miss, e)), own.1)
  ]

  update_visible-Stays :
      (v : Time) (db : Db)
      → Stays i q db
      → Stays i (seen_from v) (update_queued i (λ r. record r { visible_after = v }) db).1
  unfolding update_queued moved
  update_visible-Stays v db h = record {
    known = h.known;
    alive = h.alive;
    there = any-map (λ r. r.execution_id == i) (moved v) db.queue (λ r. ground arith) ∙ h.there;
    own = All-map (Own i q) (Own i (seen_from v)) (moved v) db.queue (moved-Own v) h.own;
    numbered = h.numbered;
  }

  -- A heartbeat moves the visibility of its row, unless its statement is lost, and nothing else of it.
  pub beat-Stays :
      (v : Time) (w : World)
      → Stays i q w.db
      → Stays i q (set_visible_after i v w).1.db
        ⊎ Stays i (seen_from v) (set_visible_after i v w).1.db
  unfolding set_visible_after
  beat-Stays v w h = elim (Bool-cases (next_fault w.faults)) [
    | inl fault ↦ inl (rw fault h)
    | inr free ↦ inr (rw free (update_visible-Stays v w.db h))
  ]

  -- A Fail of at most the fifth attempt that loses no statement moves the visibility past the backoff.
  pub retried-Stays :
      (now : Time) (exit_code : Option ℤ) (message : String) (db : Db)
      → q.attempt ≤ max_retries
      → Stays i q db
      → Stays i (seen_from (now + backoff q.attempt)) (fail now i exit_code message (quiet db)).1.db
  unfolding fail after_attempt reschedule
  retried-Stays now exit_code message db few h =
      let queued = Stays-queued i q db h in
      let low : ltb max_retries q.attempt ≡ false = ground arith in
      rw (queued, select_attempt) (rw low (update_visible-Stays (now + backoff q.attempt) db h))
