-- ===== src/Store/Invariant/Kept.antt =====
-- The interface between the store (internal/store) and the handlers: an invariant of the tables that
-- every method of the store keeps.
use jobplane.Base.{ℕ, ◌≡◌, String, true, Option, List}
use jobplane.Base.Int.{ℤ}
use jobplane.Store.Models.{Uuid, Time, Json, Tenant, Job, Execution, CallbackStatus, is_active}
use jobplane.Store.Db.{Db}
use jobplane.Store.Exec.Triple.{Triple, Keeps}
use jobplane.Store.Queue.{dequeue_batch, complete, fail, set_visible_after, enqueue}
use jobplane.Store.Jobs.{create_job, create_execution, as_inserted}
use jobplane.Store.Executions.{retry_from_dlq, update_callback_status}
use jobplane.Store.Tenants.{create_tenant, update_tenant}
use jobplane.Store.Logs.{add_log_entry}
use jobplane.Store.Invariant.Backed.{IsConsistent}
use jobplane.Store.Invariant.Queueing.{dequeue_batch-IsConsistent, set_visible_after-IsConsistent}
use jobplane.Store.Invariant.Finishing.{complete-IsConsistent, fail-IsConsistent}
use jobplane.Store.Invariant.Creating.{
  Inserted, create_execution-Inserted, enqueue-IsConsistent, retry_from_dlq-IsConsistent,
  create_job-IsConsistent, create_tenant-IsConsistent, update_tenant-IsConsistent,
  add_log_entry-IsConsistent, update_callback_status-IsConsistent,
}

-- `Created e` holds between the INSERT of the execution `e` and its INSERT into the queue.
pub record KeptByStore (I : Db → Type 0) (Created : Execution → Db → Type 0) : Type 0 where
  pub by_create_tenant : (t : Tenant) (key : String) → Keeps I (create_tenant t key)
  pub by_update_tenant : (t : Tenant) → Keeps I (update_tenant t)
  pub by_create_job : (job : Job) → Keeps I (create_job job)
  pub by_create_execution :
      (e : Execution)
      → is_active e.status ≡ true
      → Triple I (create_execution e) (λ _. Created (as_inserted e)) I
  pub by_enqueue :
      (e : Execution)
      → is_active e.status ≡ true
      → (now : Time) (payload : Json) (t : Time)
      → Triple (Created e) (enqueue now e.id payload t) (λ _. I) I
  pub by_dequeue_batch :
      (now : Time) (locked : List ℕ) (tenants : List Uuid) (limit : ℤ)
      → Keeps I (dequeue_batch now locked tenants limit)
  pub by_complete :
      (now : Time) (i : Uuid) (exit_code : ℤ) (result : Option Json)
      → Keeps I (complete now i exit_code result)
  pub by_fail :
      (now : Time) (i : Uuid) (exit_code : Option ℤ) (message : String)
      → Keeps I (fail now i exit_code message)
  pub by_set_visible_after : (i : Uuid) (t : Time) → Keeps I (set_visible_after i t)
  pub by_retry_from_dlq : (now : Time) (new_id i : Uuid) → Keeps I (retry_from_dlq now new_id i)
  pub by_add_log_entry :
      (now : Time) (i : Uuid) (content : String) → Keeps I (add_log_entry now i content)
  pub by_update_callback_status :
      (i : Uuid) (s : CallbackStatus) → Keeps I (update_callback_status i s)

pub IsConsistent-KeptByStore : KeptByStore IsConsistent Inserted
IsConsistent-KeptByStore = record {
  by_create_tenant = create_tenant-IsConsistent;
  by_update_tenant = update_tenant-IsConsistent;
  by_create_job = create_job-IsConsistent;
  by_create_execution = λ e _. create_execution-Inserted e;
  by_enqueue = enqueue-IsConsistent;
  by_dequeue_batch = dequeue_batch-IsConsistent;
  by_complete = complete-IsConsistent;
  by_fail = fail-IsConsistent;
  by_set_visible_after = set_visible_after-IsConsistent;
  by_retry_from_dlq = retry_from_dlq-IsConsistent;
  by_add_log_entry = add_log_entry-IsConsistent;
  by_update_callback_status = update_callback_status-IsConsistent;
}
