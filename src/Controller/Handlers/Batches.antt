-- ===== src/Controller/Handlers/Batches.antt =====
-- How many executions a worker is given at once (internal/controller/handlers/executions.go).
use jobplane.Base.{ℕ, ◌≤◌, ◌≡◌, ap, inl, inr, some, List, arith, map, length, length-map}
use jobplane.Base.Int.{ℤ, pos, negsuc}
use jobplane.Store.Models.{Uuid, Time, QueueItem}
use jobplane.Store.Db.{QueueRow}
use jobplane.Store.Exec.Triple.{Result-cases}
use jobplane.Store.Queue.{dequeue_batch, at_least_one, item_of}
use jobplane.Store.Queue.Claim.{dequeue_batch_ok}
use jobplane.Store.Queue.Best.{IsBestBatch, select_batch-IsBestBatch}
use jobplane.Api.{DequeueRequest, dequeued}
use jobplane.Controller.Handlers.{Call, Server, serve}
use jobplane.Controller.Handlers.Internal.{clamp_limit, internal_dequeue}

clamped : (n : ℤ) → at_least_one (clamp_limit n) ≤ 100
clamped (pos n) = ground arith
clamped (negsuc n) = ground arith

clamped-le : (n : ℕ) → 1 ≤ n → at_least_one (clamp_limit (pos n)) ≤ n
clamped-le n h = ground arith

few_items :
    {now : Time} {locked : List ℕ} {tenants : List Uuid} {limit : ℕ} {queue batch : List QueueRow}
    → IsBestBatch now locked tenants limit queue batch
    → length (map item_of batch) ≤ limit
few_items {batch = batch} h = omega (arith, h.full, length-map item_of batch)

-- A worker is given at most 100 executions, and where it asks for at least one, no more than that.
pub dequeue_within_limit :
    (call : Call) (locked : List ℕ) (req : DequeueRequest) (s : Server) (items : List QueueItem)
    → (serve (internal_dequeue call locked (some req)) s).0
      ≡ record { status = 200; body = dequeued items }
    → (length items ≤ 100) × ((n : ℕ) → 1 ≤ n → req.limit ≡ pos n → length items ≤ n)
unfolding internal_dequeue
dequeue_within_limit call locked req s items h =
    elim (Result-cases
      (dequeue_batch call.now locked req.tenant_ids (clamp_limit req.limit) s.world).0) [
        | inr (e, failed) ↦ let k = rw failed at h in absurd (ground arith)
        | inl (xs, ran) ↦
            let same : xs ≡ items = let k = rw ran at h in ground arith in
            let few : length xs ≤ at_least_one (clamp_limit req.limit) =
              rw
                (dequeue_batch_ok call.now locked req.tenant_ids (clamp_limit req.limit) s.world
                  ran).0
                (few_items
                  (select_batch-IsBestBatch call.now locked req.tenant_ids _ s.world.db.queue)) in
            (
              omega (arith, few, clamped req.limit, ap length same),
              λ n some_n e. omega (
                arith,
                few,
                clamped-le n some_n,
                ap length same,
                ap (λ l. at_least_one (clamp_limit l)) e,
              ),
            )
      ]
