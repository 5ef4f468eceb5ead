-- ===== src/Store/Queue/Held/Alive.antt =====
-- A worker that runs an execution and sends heartbeats in time, among other calls of the store
-- (internal/store/postgres/queue.go).
use jobplane.Base.{Distinct, ◌+◌, ◌≤◌, ◌<◌, ◌≡◌, ◌≢◌, String, true, false, Option, List, arith}
use jobplane.Base.Int.{ℤ}
use jobplane.Store.Models.{Uuid, Time, Json, QueueItem}
use jobplane.Store.Db.{queue_key}
use jobplane.Store.Exec.{Result, ok, World}
use jobplane.Store.Exec.Triple.{result_post, Keeps}
use jobplane.Store.Queue.{
  visibility_timeout, dequeue_batch, complete, fail, set_visible_after, enqueue,
}
use jobplane.Store.Executions.{retry_from_dlq}
use jobplane.Store.Queue.Exclusive.{
  HiddenUntil, delivers, Poll, poll, poll-HiddenUntil, delivered-HiddenUntil, hidden_not_delivered,
}
use jobplane.Store.Queue.Beaten.{hidden_by_beat}
use jobplane.Store.Queue.Held.{
  Hidden, complete-Hidden, fail-Hidden, set_visible_after-Hidden, enqueue-Hidden,
  retry_from_dlq-Hidden,
}

-- A call of the store by someone who does not run the execution `i`, at a time. A result that is
-- reported as a success takes an execution out of the queue, so it may also be one of `i`.
pub data Other (i : Uuid) : Time → Type 0 where
  polls : (p : Poll) → Other i p.now
  completes : (now : Time) → Uuid → ℤ → Option Json → Other i now
  fails : (now : Time) (j : Uuid) → Option ℤ → String → j ≢ i → Other i now
  beats : (now : Time) (j : Uuid) → Time → j ≢ i → Other i now
  enqueues : (now : Time) (j : Uuid) → Json → Time → j ≢ i → Other i now
  retries : (now : Time) (new_id : Uuid) → Uuid → new_id ≢ i → Other i now

unfoldable pub act : {i : Uuid} {now : Time} → Other i now → World → World
act (polls p) w = poll p w
act (completes now j exit_code result) w = (complete now j exit_code result w).1
act (fails now j exit_code message other) w = (fail now j exit_code message w).1
act (beats now j v other) w = (set_visible_after j v w).1
act (enqueues now j payload v other) w = (enqueue now j payload v w).1
act (retries now new_id j other) w = (retry_from_dlq now new_id j w).1

-- `Alive i now until w`: at the time `now` the tables are those of `w`, after a call that handed `i`
-- out, its heartbeats, each before the end of the visibility that it extends by at most the
-- visibility timeout, and calls by others. The visibility ends at `until`.
pub data Alive (i : Uuid) : Time → Time → World → Type 0 where
  taken :
      (p : Poll) (w : World) (items : List QueueItem)
      → Distinct queue_key w.db.queue
      → (dequeue_batch p.now p.locked p.tenants p.limit w).0 ≡ ok items
      → delivers i items ≡ true
      → Alive i p.now (p.now + visibility_timeout) (poll p w)
  beaten :
      {now until : Time} {w : World} (later v : Time)
      → Alive i now until w
      → now ≤ later
      → later < until
      → v ≤ later + visibility_timeout
      → (set_visible_after i v w).0 ≡ ok tt
      → Alive i later v (set_visible_after i v w).1
  meanwhile :
      {now until later : Time} {w : World} (call : Other i later)
      → Alive i now until w
      → now ≤ later
      → later < until
      → Alive i later until (act call w)

module _ (i : Uuid) where
  keeps_hidden :
      {A : Type 0} (t : Time) (m : World → Result A × World) (w : World)
      → Keeps (Hidden i t) m
      → HiddenUntil i t w.db.queue
      → HiddenUntil i t (m w).1.db.queue
  keeps_hidden t m w kept h = result_post (Hidden i t) (m w).0 (m w).1.db (kept.at w h)

  act-HiddenUntil :
      {now : Time} (t : Time) (call : Other i now) (w : World)
      → t < now + visibility_timeout
      → HiddenUntil i t w.db.queue
      → HiddenUntil i t (act call w).db.queue
  unfolding act
  act-HiddenUntil t (polls p) w soon h = poll-HiddenUntil i t p w soon h
  act-HiddenUntil t (completes now j exit_code result) w soon h =
      keeps_hidden t _ w (complete-Hidden i t now j exit_code result) h
  act-HiddenUntil t (fails now j exit_code message other) w soon h =
      keeps_hidden t _ w (fail-Hidden i t now j exit_code message other) h
  act-HiddenUntil t (beats now j v other) w soon h =
      keeps_hidden t _ w (set_visible_after-Hidden i t j v other) h
  act-HiddenUntil t (enqueues now j payload v other) w soon h =
      keeps_hidden t _ w (enqueue-Hidden i t now j payload v other) h
  act-HiddenUntil t (retries now new_id j other) w soon h =
      keeps_hidden t _ w (retry_from_dlq-Hidden i t now new_id j other) h

  -- The visibility ends no later than a timeout from now.
  until_bound :
      {now until : Time} {w : World} → Alive i now until w → until ≤ now + visibility_timeout
  until_bound (taken p w items distinct ran d) = omega arith
  until_bound (beaten later v before after soon small ok_beat) = small
  until_bound (meanwhile call before after soon) =
      let b = until_bound before in omega (arith, b, after)

  Alive-HiddenUntil :
      {now until : Time} {w : World} (t : Time)
      → Alive i now until w
      → t < until
      → HiddenUntil i t w.db.queue
  Alive-HiddenUntil t (taken p w items distinct ran d) soon =
      delivered-HiddenUntil i p.now p.locked p.tenants p.limit w distinct t soon ran d
  Alive-HiddenUntil t (beaten {w = w} later v before after early small ran) soon =
      hidden_by_beat i t v w ran soon
  Alive-HiddenUntil t (meanwhile {w = w} call before after early) soon =
      let b = until_bound before in
      act-HiddenUntil t call w (omega (arith, b, after, soon)) (Alive-HiddenUntil t before soon)

  -- While its worker's heartbeats come in time, and each extends the visibility by at most the
  -- visibility timeout, an execution that DequeueBatch handed out where none was queued twice is
  -- handed out by no call before its visibility ends, whatever polls, successful results, and failures,
  -- heartbeats, new executions and retries of others come in between, before that end, and whichever
  -- of their statements fail.
  pub alive_not_delivered :
      {now until : Time} {w : World} {items : List QueueItem} (p : Poll)
      → Alive i now until w
      → p.now < until
      → (dequeue_batch p.now p.locked p.tenants p.limit w).0 ≡ ok items
      → delivers i items ≡ false
  alive_not_delivered {w = w} p alive soon ran =
      hidden_not_delivered i p.now p.locked p.tenants p.limit w (Alive-HiddenUntil p.now alive soon)
        ran
