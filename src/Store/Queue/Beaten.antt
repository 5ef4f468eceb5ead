-- ===== src/Store/Queue/Beaten.antt =====
-- What a heartbeat of an execution does to its rows of the queue (internal/store/postgres/queue.go,
-- SetVisibleAfter).
use jobplane.Base.{◌<◌, ◌≡◌, inl, inr, arith, ◌==◌, if◌then◌else◌, All-map, All-trivial, Bool-cases}
use jobplane.Store.Models.{Uuid, Time}
use jobplane.Store.Db.{Db, QueueRow}
use jobplane.Store.Exec.{ok, World, next_fault}
use jobplane.Store.Queue.{update_queued, set_visible_after}
use jobplane.Store.Queue.Exclusive.{HiddenUntil}

update_queued-HiddenUntil :
    (i : Uuid) (t v : Time) (db : Db)
    → t < v
    → HiddenUntil i t (update_queued i (λ q. record q { visible_after = v }) db).1.queue
unfolding update_queued
update_queued-HiddenUntil i t v db soon =
    All-map (λ _. Unit {0}) _
      (λ q. if q.execution_id == i then record q { visible_after = v } else q) db.queue
      (λ q _ e. waits q e) (All-trivial db.queue)
  where
    changed : QueueRow → QueueRow
    changed q = if q.execution_id == i then record q { visible_after = v } else q

    waits : (q : QueueRow) → (changed q).execution_id ≡ i → t < (changed q).visible_after
    waits q e = ground arith

-- A heartbeat that succeeds hides the execution until its new visibility time.
pub hidden_by_beat :
    (i : Uuid) (t v : Time) (w : World)
    → (set_visible_after i v w).0 ≡ ok tt
    → t < v
    → HiddenUntil i t (set_visible_after i v w).1.db.queue
unfolding set_visible_after
hidden_by_beat i t v w beaten soon = elim (Bool-cases (next_fault w.faults)) [
  | inl fault ↦ let k = rw fault at beaten in absurd (ground arith)
  | inr quiet_now ↦ rw quiet_now (update_queued-HiddenUntil i t v w.db soon)
]
