-- ===== src/Store/Executions.antt =====
-- internal/store/postgres/execution.go.
pub mod Retry
use jobplane.Base.{
  ℕ, ◌/◌, ◌%◌, ◌^◌, Bool, Option, none, some, List, [], ◌∷◌, not, ◌&&◌, ◌||◌, ◌==◌, leb,
  if◌then◌else◌, length, take, drop, select,
}
use jobplane.Base.Sort.{order_by}
use jobplane.Base.Int.{ℤ, pos, pos_part, ltb_ℤ}
use jobplane.Store.Models.{
  has_json, Uuid, Time, Execution, CallbackStatus, DlqEntry, pending, is_running,
}
use jobplane.Store.Db.{Db, DlqRow, find_execution, find_dead, find_job}
use jobplane.Store.Exec.{
  no_rows, unsupported_scan, invalid_row_count, not_null_violation, Result, ok, err, Exec, ◌>>=◌,
  ◌>>◌, pure, statement, commits, Finish, transaction,
}
use jobplane.Store.Queue.{update_execution, enqueue}
use jobplane.Store.Jobs.{or_no_rows, insert_execution}

-- The row that `Scan` reads. A NULL in `result` or `callback_headers` is an error of `Scan`.
abbrev pub scan_execution : Option Execution → Result Execution
scan_execution none = err no_rows
scan_execution (some e) =
    if has_json e.result && has_json e.callback_headers then ok e else err unsupported_scan

unfoldable pub get_execution_by_id : Uuid → Exec Execution
get_execution_by_id id = statement (λ db. (scan_execution (find_execution id db.executions), db))

unfoldable pub update_callback_status : Uuid → CallbackStatus → Exec (Unit {0})
unfolding update_execution
update_callback_status id status =
    statement (update_execution id (λ e. record e { callback_status = some status }))

-- The first four bytes of the uuid: the bit pattern of the `int32` key of the advisory lock.
abbrev pub tenant_lock_key : Uuid → ℕ
tenant_lock_key tenant_id = tenant_id / 2 ^ 96 % 2 ^ 32

abbrev pub runs_for : Uuid → Execution → Bool
runs_for tenant_id e = e.tenant_id == tenant_id && is_running e.status

-- The advisory lock, a statement that changes no row, and the count.
unfoldable pub count_running_executions : Uuid → Exec ℕ
count_running_executions tenant_id = do
  statement (λ db. (ok tt, db))
  statement (λ db. (ok (length (select (runs_for tenant_id) db.executions)), db))

-- One row of the join; a row whose execution or job is missing is left out.
unfoldable pub join_entry : Db → DlqRow → Option DlqEntry
join_entry db d = elim (find_execution d.execution_id db.executions) [
  | none ↦ none
  | some e ↦ elim (find_job e.job_id db.jobs) [
    | none ↦ none
    | some j ↦ some (record {
      id = d.id;
      execution_id = d.execution_id;
      tenant_id = d.tenant_id;
      job_id = e.job_id;
      job_name = j.name;
      priority = e.priority;
      payload = d.payload;
      error_message = d.error_message;
      attempts = d.attempts;
      failed_at = d.failed_at;
    })
  ]
]

abbrev add_some : {A : Type 0} → Option A → List A → List A
add_some none xs = xs
add_some (some x) xs = x ∷ xs

unfoldable pub join_entries : Db → List DlqRow → List DlqEntry
unfolding join_entry
join_entries db [] = []
join_entries db (d ∷ ds) = add_some (join_entry db d) (join_entries db ds)

-- ORDER BY failed_at DESC
abbrev pub is_newer : DlqEntry → DlqEntry → Bool
is_newer a b = leb b.failed_at a.failed_at

-- A LIMIT or OFFSET below zero is refused by the database.
unfoldable pub page_of_dlq : Uuid → ℕ → ℕ → Db → List DlqEntry
unfolding join_entries
page_of_dlq tenant_id limit offset db = take limit (
    drop offset
      (order_by is_newer (join_entries db (select (λ d. d.tenant_id == tenant_id) db.dlq))))

unfoldable pub list_dlq : Uuid → ℤ → ℤ → Exec (List DlqEntry)
unfolding page_of_dlq
list_dlq tenant_id limit offset = statement λ db.
    if ltb_ℤ limit (pos 0) || ltb_ℤ offset (pos 0)
    then (err invalid_row_count, db)
    else (ok (page_of_dlq tenant_id (pos_part limit) (pos_part offset) db), db)

-- SELECT … FROM execution_dlq LEFT JOIN executions WHERE dlq.execution_id = $1. Without the
-- execution its columns are NULL, which `Scan` does not put into a string.
unfoldable pub select_dead : Uuid → Db → Result (DlqRow × Execution) × Db
select_dead i db = elim (find_dead i db.dlq) [
  | none ↦ (or_no_rows none, db)
  | some d ↦ elim (find_execution i db.executions) [
    | none ↦ (err not_null_violation, db)
    | some e ↦ (ok (d, e), db)
  ]
]

-- DELETE FROM execution_dlq WHERE execution_id = $1
unfoldable pub delete_dead : Uuid → Db → Result (Unit {0}) × Db
delete_dead i db = (ok tt, record db { dlq = select (λ d. not (d.execution_id == i)) db.dlq })

-- The row that INSERT INTO executions writes for the retry: what the statement does not name is
-- NULL or the column's default.
unfoldable pub retry_of : Uuid → Time → Execution → Execution
retry_of new_id now e = record {
  id = new_id;
  job_id = e.job_id;
  tenant_id = e.tenant_id;
  status = pending;
  priority = e.priority;
  attempt = 0;
  exit_code = none;
  error_message = none;
  retried_from = some e.id;
  callback_url = none;
  callback_headers = none;
  callback_status = none;
  result = none;
  scheduled_at = none;
  created_at = now;
  started_at = none;
  completed_at = none;
}

-- `new_id` is what `uuid.New` returns.
unfoldable pub retry_body : Time → Uuid → Uuid → Exec (Finish Uuid)
unfolding select_dead insert_execution retry_of delete_dead enqueue
retry_body now new_id execution_id = do
  found ← statement (select_dead execution_id)
  statement (insert_execution (retry_of new_id now found.1))
  enqueue now new_id found.0.payload now
  statement (delete_dead execution_id)
  pure (commits new_id)

unfoldable pub retry_from_dlq : Time → Uuid → Uuid → Exec Uuid
unfolding retry_body
retry_from_dlq now new_id execution_id = transaction (retry_body now new_id execution_id)
