-- ===== src/Store/Invariant/Queueing.antt =====
-- DequeueBatch, the retry branch of Fail, and SetVisibleAfter keep the invariant.
use jobplane.Base.{
  ℕ, ◌≡◌, refl, true, Option, none, some, List, [], ◌∷◌, map, arith, All-map, All-mono,
  Distinct-map,
}
use jobplane.Base.Int.{ℤ}
use jobplane.Store.Models.{Uuid, Time, Execution, is_active}
use jobplane.Store.Db.{execution_key, queue_key, Db, QueueRow}
use jobplane.Store.Exec.{statement, discards}
use jobplane.Store.Exec.Triple.{
  Triple, Keeps, Committed, Triple-bind, Triple-weaken, Keeps-statement, Triple-statement,
  Triple-pure, Keeps-transaction,
}
use jobplane.Store.Queue.{
  update_claimed, update_started, update_queued, claim_row, claim_of, start_with, claim_batch,
  dequeue_batch, set_visible_after, reschedule, row_id,
}
use jobplane.Store.Invariant.Backed.{
  Backed, IsConsistent, Preserves, Backed-map, Backed-row, Known-map,
}

-- An UPDATE of the whole queue.
queue-map-IsConsistent :
    (f : QueueRow → QueueRow) (db : Db)
    → ((q : QueueRow) → (f q).execution_id ≡ q.execution_id)
    → ((q : QueueRow) → (f q).tenant_id ≡ q.tenant_id)
    → ((q : QueueRow) → (f q).priority ≡ q.priority)
    → IsConsistent db
    → IsConsistent (record db { queue = map f db.queue })
queue-map-IsConsistent f db keep_id keep_tenant keep_priority v = record {
  executions_distinct = v.executions_distinct;
  queue_distinct = Distinct-map queue_key f db.queue keep_id v.queue_distinct;
  dlq_distinct = v.dlq_distinct;
  backed =
      All-map (Backed db.executions) (Backed db.executions) f db.queue
        (Backed-row db.executions f keep_id keep_tenant keep_priority) v.backed;
  known = v.known;
}

-- An UPDATE of all executions that preserves the queued ones.
pub executions-map-IsConsistent :
    (f : Execution → Execution) (db : Db)
    → ((i : Uuid) → Preserves f i)
    → IsConsistent db
    → IsConsistent (record db { executions = map f db.executions })
executions-map-IsConsistent f db p v = record {
  executions_distinct =
      Distinct-map execution_key f db.executions (p 0).keeps_id v.executions_distinct;
  queue_distinct = v.queue_distinct;
  dlq_distinct = v.dlq_distinct;
  backed =
      All-mono (Backed db.executions) (Backed (map f db.executions)) db.queue
        (λ q. Backed-map f db.executions q (p q.execution_id)) v.backed;
  known = All-mono _ _ db.dlq (Known-map f db.executions (p 0).keeps_id) v.known;
}

start_with-Preserves :
    (now : Time) (claim : Uuid → Option QueueRow) (i : Uuid)
    → Preserves (λ e. start_with now (claim e.id) e) i
start_with-Preserves now claim i = record {
  keeps_id = λ e. elim (claim e.id) as (λ c. (start_with now c e).id ≡ e.id) [
    | none ↦ refl
    | some q ↦ refl
  ];
  keeps_active = λ e _ a. elim (claim e.id) as (λ c. is_active (start_with now c e).status ≡ true) [
    | none ↦ a
    | some q ↦ refl
  ];
  keeps_tenant = λ e _. elim (claim e.id) as (λ c. (start_with now c e).tenant_id ≡ e.tenant_id) [
    | none ↦ refl
    | some q ↦ refl
  ];
  keeps_priority = λ e _. elim (claim e.id) as (λ c. (start_with now c e).priority ≡ e.priority) [
    | none ↦ refl
    | some q ↦ refl
  ];
}

pub update_claimed-IsConsistent :
    (now : Time) (ids : List ℕ) (db : Db)
    → IsConsistent db
    → IsConsistent (update_claimed now ids db).1
unfolding update_claimed
update_claimed-IsConsistent now ids db =
    queue-map-IsConsistent (claim_row now ids) db (λ r. ground arith) (λ r. ground arith)
      (λ r. ground arith)

pub update_started-IsConsistent :
    (now : Time) (ids : List ℕ) (db : Db)
    → IsConsistent db
    → IsConsistent (update_started now ids db).1
unfolding update_started
update_started-IsConsistent now ids db =
    executions-map-IsConsistent _ db (start_with-Preserves now (claim_of ids db.queue))

claim_batch-Committed :
    (now : Time) (rows : List QueueRow)
    → Triple IsConsistent (claim_batch now rows) (Committed IsConsistent) (λ _. Unit {0})
unfolding claim_batch
claim_batch-Committed now [] = Triple-pure (discards []) (λ db v. tt)
claim_batch-Committed now (q ∷ qs) =
    let ids = map row_id (q ∷ qs) in
    Triple-bind {R = λ _. IsConsistent} _ _
      (Triple-weaken
        (Keeps-statement (update_claimed now ids) (update_claimed-IsConsistent now ids)))
      λ _.
        Triple-bind {R = λ _. IsConsistent} _ _
          (Triple-weaken
            (Keeps-statement (update_started now ids) (update_started-IsConsistent now ids)))
          (λ _. Triple-pure _ (λ db v. v))

pub dequeue_batch-IsConsistent :
    (now : Time) (locked : List ℕ) (tenants : List Uuid) (limit : ℤ)
    → Keeps IsConsistent (dequeue_batch now locked tenants limit)
unfolding dequeue_batch
dequeue_batch-IsConsistent now locked tenants limit = Keeps-transaction IsConsistent _ (
    Triple-bind {R = λ _. IsConsistent} _ _ (Triple-statement _ (λ db v. v) (λ db v. tt))
      (claim_batch-Committed now))

update_queued-IsConsistent :
    (i : Uuid) (f : QueueRow → QueueRow)
    → ((q : QueueRow) → (f q).execution_id ≡ q.execution_id)
    → ((q : QueueRow) → (f q).tenant_id ≡ q.tenant_id)
    → ((q : QueueRow) → (f q).priority ≡ q.priority)
    → Keeps IsConsistent (statement (update_queued i f))
unfolding update_queued
update_queued-IsConsistent i f keep_id keep_tenant keep_priority =
    Triple-statement _
      (λ db v.
        queue-map-IsConsistent _ db (λ q. ground (arith, keep_id q))
          (λ q. ground (arith, keep_tenant q)) (λ q. ground (arith, keep_priority q)) v)
      (λ db v. v)

pub set_visible_after-IsConsistent :
    (i : Uuid) (t : Time) → Keeps IsConsistent (set_visible_after i t)
unfolding set_visible_after
set_visible_after-IsConsistent i t =
    update_queued-IsConsistent i _ (λ q. refl) (λ q. refl) (λ q. refl)

pub reschedule-IsConsistent :
    (now : Time) (i : Uuid) (attempt : ℕ) → Keeps IsConsistent (reschedule now i attempt)
unfolding reschedule
reschedule-IsConsistent now i attempt =
    update_queued-IsConsistent i _ (λ q. refl) (λ q. refl) (λ q. refl)
