-- ===== src/Store/Executions/Retry.antt =====
-- What RetryFromDLQ writes (internal/store/postgres/execution.go).
use jobplane.Base.{
  arith, suc, none, ◌≡◌, ◌∙◌, refl, true, false, some, [], ◌∷◌, ◌++◌, any, ◌==◌, ==_refl,
  first-append_fresh,
}
use jobplane.Store.Models.{pending, Uuid, Time, Execution}
use jobplane.Store.Db.{Db, DlqRow, find_execution, find_dead, dead_key}
use jobplane.Store.Exec.{ok}
use jobplane.Store.Jobs.{has_tenant, insert_execution}
use jobplane.Store.Queue.{enqueue, insert_queued, new_row, visible_or_now}
use jobplane.Store.Queue.Outcome.{quiet, Deletes, dlq_of}
use jobplane.Store.Executions.{retry_of, retry_from_dlq, select_dead}
use jobplane.Store.Views.{first-delete}

-- A new execution of the same job, tenant and priority: it waits, has never run, names the one that
-- it retries, and calls nobody back.
abbrev pub fresh_retry : Uuid → Time → Execution → Execution
fresh_retry new_id now e = record {
  id = new_id;
  job_id = e.job_id;
  tenant_id = e.tenant_id;
  status = pending;
  priority = e.priority;
  attempt = 0;
  exit_code = none;
  error_message = none;
  retried_from = some e.id;
  callback_url = none;
  callback_headers = none;
  callback_status = none;
  result = none;
  scheduled_at = none;
  created_at = now;
  started_at = none;
  completed_at = none;
}

at_once : (now : Time) → visible_or_now now now ≡ now
at_once now = ground arith

-- Where no statement is lost, the new id is not taken, and the job and the tenant are there, a dead
-- execution is retried as a new one, pending and with no callback, which is queued for now with the
-- payload of the dead letter; the dead letter goes, and nothing else in the tables changes.
pub retry_from_dlq_effect :
    (now : Time) (new_id i : Uuid) (db : Db) (d : DlqRow) (e : Execution)
    → find_dead i db.dlq ≡ some d
    → find_execution i db.executions ≡ some e
    → any (λ x. x.id == new_id) db.executions ≡ false
    → any (λ j. j.id == e.job_id) db.jobs ≡ true
    → has_tenant e.tenant_id db ≡ true
    → any (λ q. q.execution_id == new_id) db.queue ≡ false
    → let (r, w) = retry_from_dlq now new_id i (quiet db) in
      let retried = fresh_retry new_id now e in
      (r ≡ ok new_id)
      × (w.db.executions ≡ db.executions ++ retried ∷ [])
      × (w.db.queue
          ≡ db.queue
            ++ record {
              id = db.next_queue_id;
              execution_id = new_id;
              tenant_id = e.tenant_id;
              payload = d.payload;
              priority = e.priority;
              attempt = 0;
              visible_after = now;
              created_at = now;
            }
              ∷ [])
      × Deletes i (dlq_of db) (dlq_of w.db)
      × (w.db ≡ record db {
        executions = w.db.executions;
        queue = w.db.queue;
        next_queue_id = suc db.next_queue_id;
        dlq = w.db.dlq;
      })
unfolding retry_from_dlq enqueue retry_of new_row
retry_from_dlq_effect now new_id i db d e dead found fresh job tenant unqueued =
    let there : find_execution new_id (db.executions ++ retry_of new_id now e ∷ [])
        ≡ some (retry_of new_id now e) =
      first-append_fresh (λ x. x.id == new_id) db.executions (retry_of new_id now e ∷ []) fresh
      ∙ unfold retry_of in rw (==_refl new_id) in
    rw (dead, select_dead)
      (rw found (
        rw (fresh, insert_execution)
          (rw job (
            rw tenant (
              rw (there, insert_queued)
                (rw unqueued (
                  refl,
                  refl,
                  rw (at_once now) refl,
                  λ j. first-delete dead_key i j db.dlq,
                  refl,
                )))))))
