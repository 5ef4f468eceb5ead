-- ===== src/Store/Invariant/EndedKept.antt =====
-- The methods of the store, one by one, against an execution that has ended
-- (internal/store/postgres).
use jobplane.Base.{ℕ, ◌⊎◌, inl, inr, ◌≡◌, refl, String, List, [], ◌∷◌, ◌++◌, map, arith}
use jobplane.Base.Int.{ℤ}
use jobplane.Store.Models.{Uuid, Time, Json, Tenant, Job, Execution, CallbackStatus}
use jobplane.Store.Db.{Db, QueueRow}
use jobplane.Store.Exec.{statement, discards}
use jobplane.Store.Exec.Triple.{
  Triple, Keeps, Committed, Triple-bind, Triple-statement, Triple-pure, Triple-and, Triple-weaken,
  Keeps-statement, Keeps-transaction,
}
use jobplane.Store.Queue.{
  update_claimed, update_started, claim_batch, dequeue_body, dequeue_batch, row_id, insert_queued,
  enqueue,
}
use jobplane.Store.Jobs.{insert_execution, create_execution, as_inserted, create_job, insert_job}
use jobplane.Store.Executions.{
  select_dead, delete_dead, retry_of, retry_body, retry_from_dlq, update_callback_status,
}
use jobplane.Store.Tenants.{create_tenant, insert_tenant, update_tenant, replace_tenant}
use jobplane.Store.Logs.{add_log_entry, insert_log}
use jobplane.Store.Invariant.Backed.{IsConsistent}
use jobplane.Store.Invariant.Queueing.{update_claimed-IsConsistent, update_started-IsConsistent}
use jobplane.Store.Invariant.Creating.{Inserted}
use jobplane.Store.Invariant.Kept.{KeptByStore, IsConsistent-KeptByStore}
use jobplane.Store.Invariant.Ended.{
  HasEnded, EndedIn, Ended-append, EndedIn-Unqueued, update_started-HasEnded,
}
use jobplane.Store.Invariant.EndedReported.{
  same_executions, update_execution-HasEnded, complete-HasEnded, set_visible_after-HasEnded,
  fail-HasEnded,
}

module _ (i : Uuid) where
  insert_execution-executions :
      (e : Execution) (db : Db)
      → ((insert_execution e db).1.executions ≡ db.executions)
        ⊎ ((insert_execution e db).1.executions ≡ db.executions ++ e ∷ [])
  unfolding insert_execution
  insert_execution-executions e db = ground arith

  insert_execution-HasEnded :
      (e : Execution) (db : Db) → HasEnded i db → HasEnded i (insert_execution e db).1
  insert_execution-HasEnded e db h = elim (insert_execution-executions e db) [
    | inl same ↦ rw same h
    | inr more ↦ rw more (Ended-append i e db.executions h)
  ]

  create_execution-HasEnded : (e : Execution) → Keeps (HasEnded i) (create_execution e)
  unfolding create_execution
  create_execution-HasEnded e = Keeps-statement _ (insert_execution-HasEnded (as_inserted e))

  insert_queued-executions :
      (now : Time) (j : Uuid) (payload : Json) (t : Time) (db : Db)
      → (insert_queued now j payload t db).1.executions ≡ db.executions
  unfolding insert_queued
  insert_queued-executions now j payload t db = ground arith

  enqueue-HasEnded :
      (now : Time) (j : Uuid) (payload : Json) (t : Time)
      → Keeps (HasEnded i) (enqueue now j payload t)
  unfolding enqueue
  enqueue-HasEnded now j payload t =
      same_executions i (insert_queued now j payload _) (insert_queued-executions now j payload _)

  select_dead-executions : (j : Uuid) (db : Db) → (select_dead j db).1.executions ≡ db.executions
  unfolding select_dead
  select_dead-executions j db = ground arith

  delete_dead-executions : (j : Uuid) (db : Db) → (delete_dead j db).1.executions ≡ db.executions
  unfolding delete_dead
  delete_dead-executions j db = refl

  retry_from_dlq-HasEnded :
      (now : Time) (new_id j : Uuid) → Keeps (HasEnded i) (retry_from_dlq now new_id j)
  unfolding retry_from_dlq retry_body
  retry_from_dlq-HasEnded now new_id j = Keeps-transaction (HasEnded i) _ (
      Triple-bind {R = λ _. HasEnded i} _ _
        (Triple-weaken (same_executions i (select_dead j) (select_dead-executions j)))
        λ found.
          Triple-bind {R = λ _. HasEnded i} _ _
            (Triple-weaken
              (Keeps-statement _ (insert_execution-HasEnded (retry_of new_id now found.1))))
            λ _.
              Triple-bind {R = λ _. HasEnded i} _ _
                (Triple-weaken (enqueue-HasEnded now new_id found.0.payload now))
                λ _.
                  Triple-bind {R = λ _. HasEnded i} _ _
                    (Triple-weaken (same_executions i (delete_dead j) (delete_dead-executions j)))
                    (λ _. Triple-pure _ (λ db v. v)))

  claimed : (now : Time) (ids : List ℕ) → Keeps (EndedIn i) (statement (update_claimed now ids))
  unfolding update_claimed
  claimed now ids = Keeps-statement _ (λ db v. (update_claimed-IsConsistent now ids db v.0, v.1))

  started : (now : Time) (ids : List ℕ) → Keeps (EndedIn i) (statement (update_started now ids))
  started now ids = Keeps-statement (update_started now ids) λ db v. (
    update_started-IsConsistent now ids db v.0,
    update_started-HasEnded i now ids db (EndedIn-Unqueued i db v) v.1,
  )

  claim_batch-EndedIn :
      (now : Time) (rows : List QueueRow)
      → Triple (EndedIn i) (claim_batch now rows) (Committed (EndedIn i)) (λ _. Unit {0})
  unfolding claim_batch
  claim_batch-EndedIn now [] = Triple-pure (discards []) (λ db v. tt)
  claim_batch-EndedIn now (q ∷ qs) =
      Triple-bind {R = λ _. EndedIn i} _ _ (Triple-weaken (claimed now (map row_id (q ∷ qs)))) λ _.
        Triple-bind {R = λ _. EndedIn i} _ _ (Triple-weaken (started now (map row_id (q ∷ qs))))
          (λ _. Triple-pure _ (λ db v. v))

  dequeue_batch-EndedIn :
      (now : Time) (locked : List ℕ) (tenants : List Uuid) (limit : ℤ)
      → Keeps (EndedIn i) (dequeue_batch now locked tenants limit)
  unfolding dequeue_batch dequeue_body
  dequeue_batch-EndedIn now locked tenants limit = Keeps-transaction (EndedIn i) _ (
      Triple-bind {R = λ _. EndedIn i} _ _ (Triple-statement _ (λ db v. v) (λ db v. tt))
        (claim_batch-EndedIn now))

  insert_job-executions : (job : Job) (db : Db) → (insert_job job db).1.executions ≡ db.executions
  unfolding insert_job
  insert_job-executions job db = ground arith

  create_job-HasEnded : (job : Job) → Keeps (HasEnded i) (create_job job)
  unfolding create_job
  create_job-HasEnded job = same_executions i (insert_job job) (insert_job-executions job)

  insert_tenant-executions :
      (t : Tenant) (key : String) (db : Db) → (insert_tenant t key db).1.executions ≡ db.executions
  unfolding insert_tenant
  insert_tenant-executions t key db = ground arith

  create_tenant-HasEnded : (t : Tenant) (key : String) → Keeps (HasEnded i) (create_tenant t key)
  unfolding create_tenant
  create_tenant-HasEnded t key =
      same_executions i (insert_tenant t key) (insert_tenant-executions t key)

  update_tenant-HasEnded : (t : Tenant) → Keeps (HasEnded i) (update_tenant t)
  unfolding update_tenant
  update_tenant-HasEnded t =
      same_executions i (replace_tenant t) (λ db. unfold replace_tenant in refl)

  insert_log-executions :
      (now : Time) (j : Uuid) (content : String) (db : Db)
      → (insert_log now j content db).1.executions ≡ db.executions
  unfolding insert_log
  insert_log-executions now j content db = ground arith

  add_log_entry-HasEnded :
      (now : Time) (j : Uuid) (content : String) → Keeps (HasEnded i) (add_log_entry now j content)
  unfolding add_log_entry
  add_log_entry-HasEnded now j content =
      same_executions i (insert_log now j content) (insert_log-executions now j content)

  update_callback_status-HasEnded :
      (j : Uuid) (s : CallbackStatus) → Keeps (HasEnded i) (update_callback_status j s)
  unfolding update_callback_status
  update_callback_status-HasEnded j s = update_execution-HasEnded i j _ (λ e. refl) (λ e over. over)

  -- Ended executions stay ended, by every method of the store.
  pub EndedIn-KeptByStore : KeptByStore (EndedIn i) (λ e db. Inserted e db × HasEnded i db)
  EndedIn-KeptByStore = record {
    by_create_tenant =
        λ t key. Triple-and (c.by_create_tenant t key) (create_tenant-HasEnded t key);
    by_update_tenant = λ t. Triple-and (c.by_update_tenant t) (update_tenant-HasEnded t);
    by_create_job = λ job. Triple-and (c.by_create_job job) (create_job-HasEnded job);
    by_create_execution =
        λ e a. Triple-and (c.by_create_execution e a) (create_execution-HasEnded e);
    by_enqueue = λ e a now payload t.
        Triple-and (c.by_enqueue e a now payload t) (enqueue-HasEnded now e.id payload t);
    by_dequeue_batch = dequeue_batch-EndedIn;
    by_complete = λ now j x r. Triple-and (c.by_complete now j x r) (complete-HasEnded i now j x r);
    by_fail = λ now j x m. Triple-and (c.by_fail now j x m) (fail-HasEnded i now j x m);
    by_set_visible_after =
        λ j t. Triple-and (c.by_set_visible_after j t) (set_visible_after-HasEnded i j t);
    by_retry_from_dlq =
        λ now n j. Triple-and (c.by_retry_from_dlq now n j) (retry_from_dlq-HasEnded now n j);
    by_add_log_entry =
        λ now j x. Triple-and (c.by_add_log_entry now j x) (add_log_entry-HasEnded now j x);
    by_update_callback_status =
        λ j s. Triple-and (c.by_update_callback_status j s) (update_callback_status-HasEnded j s);
  }
    where
      c : KeptByStore IsConsistent Inserted
      c = IsConsistent-KeptByStore
