-- ===== src/Store/Queue/Waiting.antt =====
-- The backoff after a Fail keeps an execution from the workers (internal/store/postgres/queue.go,
-- Fail and DequeueBatch).
use jobplane.Base.{◌+◌, ◌*◌, ◌^◌, ◌≤◌, ◌<◌, ◌≡◌, refl, String, Bool, false, Option, List, arith}
use jobplane.Base.Int.{ℤ}
use jobplane.Store.Models.{Uuid, Time, QueueItem, second}
use jobplane.Store.Db.{Db, QueueRow}
use jobplane.Store.Exec.{ok, World}
use jobplane.Store.Queue.{max_retries, fail, dequeue_batch}
use jobplane.Store.Queue.Exclusive.{delivers, Poll}
use jobplane.Store.Queue.Outcome.{quiet}
use jobplane.Store.Queue.Stays.{Stays}
use jobplane.Store.Queue.Polled.{hidden-Passes}
use jobplane.Store.Queue.Around.{Spared, Apart, act-Stays, retried-Stays}
use jobplane.Store.Queue.Held.Alive.{Other, polls, completes, fails, beats, enqueues, retries, act}

-- `Waiting i until db`: the tables are those after a Fail of `i` that lost no statement, at an
-- attempt of at most 5, and after calls by others before `until`, 10 seconds doubled for each attempt
-- from the time of the Fail. Each call may lose the statements that its own list of faults says.
pub data Waiting (i : Uuid) : Time → Db → Type 0 where
  starts :
      (now : Time) (exit_code : Option ℤ) (message : String) (db : Db) (q : QueueRow)
      → Stays i q db
      → q.attempt ≤ max_retries
      → Waiting i (now + 10 * 2 ^ q.attempt * second) (fail now i exit_code message (quiet db)).1.db
  goes_on :
      {until later : Time} {db : Db} (call : Other i later) (faults : List Bool)
      → Waiting i until db
      → later < until
      → Spared call
      → Waiting i until (act call (record { db = db; faults = faults })).db

module _ (i : Uuid) where
  -- A call before the row is visible does not hand the execution out.
  Spared-Apart :
      {later : Time} (q : QueueRow) (call : Other i later) (w : World)
      → later < q.visible_after
      → Stays i q w.db
      → Spared call
      → Apart call w
  unfolding Spared Apart
  Spared-Apart q (polls p) w soon h _ = hidden-Passes i q p w soon h
  Spared-Apart q (completes now j exit_code result) w soon h other = other
  Spared-Apart q (fails now j exit_code message other) w soon h _ = tt
  Spared-Apart q (beats now j v other) w soon h _ = tt
  Spared-Apart q (enqueues now j payload v other) w soon h _ = tt
  Spared-Apart q (retries now new_id j other) w soon h _ = tt

  hidden_row :
      {until : Time} {db : Db}
      → Waiting i until db
      → (q : QueueRow) × Stays i q db × (q.visible_after ≡ until)
  hidden_row (starts now exit_code message db q h few) = (
    record q { visible_after = now + 10 * 2 ^ q.attempt * second },
    retried-Stays i q now exit_code message db few h,
    refl,
  )
  hidden_row (goes_on {db = db} call faults before soon spared) =
      let (q, h, seen) = hidden_row before in
      let w' : World = record { db = db; faults = faults } in
      (
        q,
        act-Stays i q call w' (Spared-Apart q call w' (omega (arith, soon, seen)) h spared) h,
        seen,
      )

  -- After a Fail that lost no statement and found a queued execution at an attempt of at most 5, no call
  -- of DequeueBatch before the backoff ends hands it out: 10 seconds, doubled for each attempt. In
  -- between, any calls of DequeueBatch may come, and completions, failures and heartbeats of other
  -- executions, new executions and retries, whichever of their statements fail.
  pub retry_waits :
      {until : Time} {db : Db} (p : Poll) (faults : List Bool) (items : List QueueItem)
      → Waiting i until db
      → p.now < until
      → (dequeue_batch p.now p.locked p.tenants p.limit (record { db = db; faults = faults })).0
        ≡ ok items
      → delivers i items ≡ false
  retry_waits {db = db} p faults items waiting soon ran =
      let (q, h, seen) = hidden_row waiting in
      hidden-Passes i q p (record { db = db; faults = faults }) (omega (arith, soon, seen)) h items
        ran
