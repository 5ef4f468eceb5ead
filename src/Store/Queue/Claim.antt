-- ===== src/Store/Queue/Claim.antt =====
-- What a successful DequeueBatch returns and writes (internal/store/postgres/queue.go), whatever
-- the environment does to its statements.
use jobplane.Base.{ℕ, ◌≡◌, refl, inl, inr, List, [], ◌∷◌, arith, map, Bool-cases}
use jobplane.Base.Int.{ℤ}
use jobplane.Store.Models.{Uuid, Time, QueueItem}
use jobplane.Store.Db.{Db, QueueRow}
use jobplane.Store.Exec.{ok, err, Error, World, next_fault, later_faults, settle}
use jobplane.Store.Exec.Triple.{transaction-err}
use jobplane.Store.Queue.{
  update_claimed, update_started, row_id, item_of, claim_batch, select_batch, dequeue_batch,
  at_least_one, dequeue_body,
}

-- The tables after the rows of a batch are claimed.
unfoldable pub after_claim : Time → List QueueRow → Db → Db
unfolding update_claimed update_started
after_claim now [] db = db
after_claim now (q ∷ qs) db =
    (update_started now (map row_id (q ∷ qs)) (update_claimed now (map row_id (q ∷ qs)) db).1).1

abbrev items_of : List QueueRow → List QueueItem
items_of = map item_of

module _ (now : Time) (before : Db) (w : World) {items : List QueueItem} where
  claim_batch_ok :
      (rows : List QueueRow)
      → let (r, w') = claim_batch now rows w in
        (settle before r w').0 ≡ ok items
        → (w.db ≡ before)
        → (items ≡ items_of rows) × ((settle before r w').1.db ≡ after_claim now rows before)
  unfolding claim_batch after_claim
  claim_batch_ok [] h e = ground arith
  claim_batch_ok (q ∷ qs) h e = ground arith

module _ (now : Time) (locked : List ℕ) (tenants : List Uuid) (limit : ℤ) (w : World) where
  abbrev batch : List QueueRow
  batch = select_batch now locked tenants (at_least_one limit) w.db.queue

  -- A call that succeeds returns the items of the selected rows, and has claimed these rows.
  pub dequeue_batch_ok :
      {items : List QueueItem}
      → (dequeue_batch now locked tenants limit w).0 ≡ ok items
      → (items ≡ map item_of batch)
        × ((dequeue_batch now locked tenants limit w).1.db ≡ after_claim now batch w.db)
  unfolding dequeue_batch
  dequeue_batch_ok h = elim (Bool-cases (next_fault w.faults)) [
    | inl fault ↦ absurd (ground arith)
    | inr quiet ↦ elim (Bool-cases (next_fault (later_faults w.faults))) [
      | inl fault ↦ absurd (ground arith)
      | inr quieter ↦
          rw (quiet, quieter)
            (claim_batch_ok now w.db (record w { faults = later_faults (later_faults w.faults) })
              batch (rw (quiet, quieter) at h) refl)
    ]
  ]

  -- A call that fails has changed nothing: not one row is claimed.
  pub dequeue_batch-err :
      {e : Error}
      → (dequeue_batch now locked tenants limit w).0 ≡ err e
      → (dequeue_batch now locked tenants limit w).1.db ≡ w.db
  unfolding dequeue_batch
  dequeue_batch-err h = transaction-err (dequeue_body now locked tenants limit) w h
