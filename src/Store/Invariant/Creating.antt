-- ===== src/Store/Invariant/Creating.antt =====
-- Creating an execution and its row of the queue keeps the invariant, as do the retry of a dead
-- letter and the writes that touch neither.
use jobplane.Base.{
  ◌≡◌, refl, ◌∙◌, inl, inr, String, true, false, some, [], ◌∷◌, ◌++◌, arith, ◌==◌, All-mono,
  All-select, All-append, Distinct-select, Distinct-append_one, any, Bool-cases, first-append_fresh,
  ==_refl,
}
use jobplane.Store.Models.{Uuid, Time, Json, Job, Tenant, Execution, CallbackStatus, is_active}
use jobplane.Store.Db.{execution_key, queue_key, dead_key, Db, find_execution}
use jobplane.Store.Exec.{statement}
use jobplane.Store.Exec.Triple.{
  Triple, Keeps, Post, Triple-bind, Triple-statement, Triple-pure, Keeps-statement,
  Keeps-transaction, as-Post, forget-Post, Triple-weaken,
}
use jobplane.Store.Queue.{insert_queued, enqueue, visible_or_now, update_execution}
use jobplane.Store.Jobs.{create_execution, as_inserted, insert_job, create_job, insert_execution}
use jobplane.Store.Executions.{
  select_dead, delete_dead, retry_of, retry_from_dlq, update_callback_status,
}
use jobplane.Store.Tenants.{insert_tenant, create_tenant, replace_tenant, update_tenant}
use jobplane.Store.Logs.{insert_log, add_log_entry}
use jobplane.Store.Invariant.Backed.{Backed, Known, IsConsistent, Backed-append, Known-append}
use jobplane.Store.Invariant.Queueing.{executions-map-IsConsistent}

-- The execution `e` has just been inserted.
abbrev pub Inserted : Execution → Db → Type 0
Inserted e db = IsConsistent db × (find_execution e.id db.executions ≡ some e)

module _ (e : Execution) where
  insert_execution-Post :
      (db : Db)
      → IsConsistent db
      → Post (λ _. Inserted e) IsConsistent (insert_execution e db).0 (insert_execution e db).1
  unfolding insert_execution
  insert_execution-Post db v = elim (Bool-cases (any (λ x. x.id == e.id) db.executions)) [
    | inl taken ↦ rw taken v
    | inr fresh ↦ rw fresh (ground (arith, appended fresh))
  ]
    where
      appended :
          any (λ x. x.id == e.id) db.executions ≡ false
          → Inserted e (record db { executions = db.executions ++ e ∷ [] })
      appended fresh = (
        record {
          executions_distinct =
              Distinct-append_one execution_key db.executions e fresh v.executions_distinct;
          queue_distinct = v.queue_distinct;
          dlq_distinct = v.dlq_distinct;
          backed = All-mono _ _ db.queue (Backed-append db.executions e) v.backed;
          known = All-mono _ _ db.dlq (Known-append db.executions e) v.known;
        },
        first-append_fresh (λ x. x.id == e.id) db.executions (e ∷ []) fresh ∙ rw (==_refl e.id),
      )

  pub insert_execution-Inserted :
      Triple IsConsistent (statement (insert_execution e)) (λ _. Inserted e) IsConsistent
  insert_execution-Inserted = Triple-statement _ insert_execution-Post (λ db v. v)

  module _ (active : is_active e.status ≡ true) (now : Time) (payload : Json) where
    insert_queued-post :
        (t : Time) (db : Db) → Inserted e db → IsConsistent (insert_queued now e.id payload t db).1
    unfolding insert_queued
    insert_queued-post t db (v, found) =
        rw (found, insert_queued)
          (elim (Bool-cases (any (λ q. q.execution_id == e.id) db.queue)) [
            | inl taken ↦ rw taken v
            | inr fresh ↦ rw fresh (record {
              executions_distinct = v.executions_distinct;
              queue_distinct = Distinct-append_one queue_key db.queue _ fresh v.queue_distinct;
              dlq_distinct = v.dlq_distinct;
              backed = All-append (Backed db.executions) db.queue _ v.backed (
                record {
                  execution = e;
                  found = found;
                  active = active;
                  same_tenant = refl;
                  same_priority = refl;
                },
                tt,
              );
              known = v.known;
            })
          ])

    pub enqueue-IsConsistent :
        (t : Time)
        → Triple (Inserted e) (enqueue now e.id payload t) (λ _. IsConsistent) IsConsistent
    unfolding enqueue
    enqueue-IsConsistent t =
        Triple-statement _
          (λ db h.
            as-Post IsConsistent (insert_queued now e.id payload (visible_or_now now t) db).0 _
              (insert_queued-post (visible_or_now now t) db h))
          (λ db h. h.0)

pub create_execution-Inserted :
    (e : Execution)
    → Triple IsConsistent (create_execution e) (λ _. Inserted (as_inserted e)) IsConsistent
unfolding create_execution
create_execution-Inserted e = insert_execution-Inserted (as_inserted e)

delete_dead-IsConsistent :
    (i : Uuid) (db : Db) → IsConsistent db → IsConsistent (delete_dead i db).1
unfolding delete_dead
delete_dead-IsConsistent i db v = record {
  executions_distinct = v.executions_distinct;
  queue_distinct = v.queue_distinct;
  dlq_distinct = Distinct-select dead_key _ db.dlq v.dlq_distinct;
  backed = v.backed;
  known = All-select (Known db.executions) (Known db.executions) _ db.dlq (λ d _ k. k) v.known;
}

select_dead-unchanged : (i : Uuid) (db : Db) → (select_dead i db).1 ≡ db
unfolding select_dead
select_dead-unchanged i db = ground arith

pub retry_from_dlq-IsConsistent :
    (now : Time) (new_id i : Uuid) → Keeps IsConsistent (retry_from_dlq now new_id i)
unfolding retry_from_dlq retry_of
retry_from_dlq-IsConsistent now new_id i = Keeps-transaction IsConsistent _ (
    Triple-bind {R = λ _. IsConsistent} _ _
      (Triple-statement (select_dead i) (λ db v. as_committed db v) (λ db v. tt))
      λ found.
        let e = retry_of new_id now found.1 in
        Triple-bind {R = λ _. Inserted e} _ _ (Triple-weaken (insert_execution-Inserted e)) λ _.
          Triple-bind {R = λ _. IsConsistent} _ _
            (Triple-weaken (enqueue-IsConsistent e refl now found.0.payload now))
            λ _.
              Triple-bind {R = λ _. IsConsistent} _ _
                (Triple-weaken (Keeps-statement (delete_dead i) (delete_dead-IsConsistent i)))
                (λ _. Triple-pure _ (λ db v. v)))
  where
    as_committed :
        (db : Db)
        → IsConsistent db
        → Post (λ _. IsConsistent) (λ _. Unit {0}) (select_dead i db).0 (select_dead i db).1
    as_committed db v =
        forget-Post _ IsConsistent (λ _. Unit {0}) (select_dead i db).0 _ (λ d _. tt)
          (as-Post IsConsistent (select_dead i db).0 _ (rw (select_dead-unchanged i db) v))

module _ (db : Db) (v : IsConsistent db) where
  -- Writes to tables that the invariant does not speak of.
  insert_job-IsConsistent : (job : Job) → IsConsistent (insert_job job db).1
  unfolding insert_job
  insert_job-IsConsistent job = ground arith

  insert_tenant-IsConsistent : (t : Tenant) (key : String) → IsConsistent (insert_tenant t key db).1
  unfolding insert_tenant
  insert_tenant-IsConsistent t key = ground arith

  insert_log-IsConsistent :
      (now : Time) (i : Uuid) (content : String) → IsConsistent (insert_log now i content db).1
  unfolding insert_log
  insert_log-IsConsistent now i content = ground arith

pub create_job-IsConsistent : (job : Job) → Keeps IsConsistent (create_job job)
unfolding create_job
create_job-IsConsistent job = Keeps-statement _ (λ db v. insert_job-IsConsistent db v job)

pub create_tenant-IsConsistent :
    (t : Tenant) (key : String) → Keeps IsConsistent (create_tenant t key)
unfolding create_tenant
create_tenant-IsConsistent t key = Keeps-statement _ (λ db v. insert_tenant-IsConsistent db v t key)

pub update_tenant-IsConsistent : (t : Tenant) → Keeps IsConsistent (update_tenant t)
unfolding update_tenant replace_tenant
update_tenant-IsConsistent t = Keeps-statement _ λ db v. record {
  executions_distinct = v.executions_distinct;
  queue_distinct = v.queue_distinct;
  dlq_distinct = v.dlq_distinct;
  backed = v.backed;
  known = v.known;
}

pub add_log_entry-IsConsistent :
    (now : Time) (i : Uuid) (content : String) → Keeps IsConsistent (add_log_entry now i content)
unfolding add_log_entry
add_log_entry-IsConsistent now i content =
    Keeps-statement _ (λ db v. insert_log-IsConsistent db v now i content)

pub update_callback_status-IsConsistent :
    (i : Uuid) (s : CallbackStatus) → Keeps IsConsistent (update_callback_status i s)
unfolding update_callback_status update_execution
update_callback_status-IsConsistent i s = Keeps-statement _ λ db v.
    executions-map-IsConsistent _ db
      (λ j. record {
        keeps_id = λ e. ground arith;
        keeps_active = λ e _ a. ground arith;
        keeps_tenant = λ e _. ground arith;
        keeps_priority = λ e _. ground arith;
      })
      v
