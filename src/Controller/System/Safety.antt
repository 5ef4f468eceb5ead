-- ===== src/Controller/System/Safety.antt =====
-- What holds of the controller after any history of requests, deliveries and lost statements
-- (internal/controller/server.go).
use jobplane.Base.{ℕ, ◌≡◌, ◌==◌, false, List, [], All-unless, All-trivial, any, arith}
use jobplane.Base.Int.{ℤ}
use jobplane.Store.Models.{Uuid, Time, QueueItem}
use jobplane.Store.Db.{QueueRow, empty_db}
use jobplane.Store.Exec.{ok}
use jobplane.Store.Queue.{dequeue_batch}
use jobplane.Store.Queue.Exclusive.{delivers, HiddenUntil, hidden_not_delivered}
use jobplane.Store.Invariant.Backed.{IsConsistent}
use jobplane.Store.Invariant.Finishing.{Unqueued}
use jobplane.Store.Invariant.Kept.{IsConsistent-KeptByStore}
use jobplane.Store.Invariant.Ended.{HasEnded, EndedIn-Unqueued}
use jobplane.Store.Invariant.EndedKept.{EndedIn-KeptByStore}
use jobplane.Controller.Handlers.{Library, Hooks, Server}
use jobplane.Controller.System.{Event, run}
use jobplane.Controller.System.Invariant.{run-keeps}

abbrev pub start : Server
start = record { world = record { db = empty_db; faults = [] }; notices = [] }

unqueued_hidden :
    (i : Uuid) (t : Time) (qs : List QueueRow)
    → any (λ q. q.execution_id == i) qs ≡ false
    → HiddenUntil i t qs
unqueued_hidden i t qs h =
    All-unless (λ _. Unit {0}) _ (λ q. q.execution_id == i) qs (λ q miss _ e. absurd (ground arith))
      h (All-trivial qs)

module _ (lib : Library) (hooks : Hooks) (extension : ℕ) where
  -- After any history the unique keys hold, every queued row belongs to an active execution of its
  -- tenant and priority, and every dead letter to an execution.
  pub reachable-IsConsistent :
      (es : List Event) → IsConsistent (run lib hooks extension start es).db
  reachable-IsConsistent es =
      run-keeps IsConsistent-KeptByStore lib hooks extension es start (record {
        executions_distinct = tt;
        queue_distinct = tt;
        dlq_distinct = tt;
        backed = tt;
        known = tt;
      })

  -- From consistent tables, after any history an execution that had ended is still ended and not in
  -- the queue, and no call of DequeueBatch hands it out.
  pub ended_forever :
      (i : Uuid) (s : Server)
      → IsConsistent s.db
      → HasEnded i s.db
      → (es : List Event)
      → let t = run lib hooks extension s es in
        HasEnded i t.db
        × Unqueued i t.db
        × ((now : Time) (locked : List ℕ) (tenants : List Uuid) (limit : ℤ) (items : List QueueItem)
            → (dequeue_batch now locked tenants limit t.world).0 ≡ ok items
            → delivers i items ≡ false)
  ended_forever i s v h es =
      let both = run-keeps (EndedIn-KeptByStore i) lib hooks extension es s (v, h) in
      let gone = EndedIn-Unqueued i (run lib hooks extension s es).db both in
      (
        both.1,
        gone,
        λ now locked tenants limit items ran.
            hidden_not_delivered i now locked tenants limit (run lib hooks extension s es).world
              (unqueued_hidden i now (run lib hooks extension s es).db.queue gone) ran,
      )
