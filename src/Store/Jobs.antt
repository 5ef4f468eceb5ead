-- ===== src/Store/Jobs.antt =====
-- internal/store/postgres/job.go. The JSON column of the command is kept as the list of strings
-- that it encodes.
use jobplane.Base.{Bool, Option, none, some, ◌++◌, [], ◌∷◌, ◌==◌, any, if◌then◌else◌}
use jobplane.Store.Models.{Uuid, Job, Execution}
use jobplane.Store.Db.{Db, find_job}
use jobplane.Store.Exec.{
  no_rows, unique_violation, foreign_key_violation, Result, ok, err, Exec, statement,
}

abbrev pub has_tenant : Uuid → Db → Bool
has_tenant i db = any (λ t. t.tenant.id == i) db.tenants

-- INSERT INTO jobs
unfoldable pub insert_job : Job → Db → Result (Unit {0}) × Db
insert_job job db =
    if any (λ j. j.id == job.id) db.jobs
    then (err unique_violation, db)
    else (if has_tenant job.tenant_id db
        then (ok tt, record db { jobs = db.jobs ++ job ∷ [] })
        else (err foreign_key_violation, db))

unfoldable pub create_job : Job → Exec (Unit {0})
unfolding insert_job
create_job job = statement (insert_job job)

-- A query that returns no row is `sql.ErrNoRows`.
abbrev pub or_no_rows : {A : Type 0} → Option A → Result A
or_no_rows none = err no_rows
or_no_rows (some a) = ok a

unfoldable pub get_job_by_id : Uuid → Exec Job
get_job_by_id id = statement (λ db. (or_no_rows (find_job id db.jobs), db))

-- INSERT INTO executions
unfoldable pub insert_execution : Execution → Db → Result (Unit {0}) × Db
insert_execution execution db =
    if any (λ e. e.id == execution.id) db.executions
    then (err unique_violation, db)
    else (if any (λ j. j.id == execution.job_id) db.jobs
        then (if has_tenant execution.tenant_id db
            then (ok tt, record db { executions = db.executions ++ execution ∷ [] })
            else (err foreign_key_violation, db))
        else (err foreign_key_violation, db))

-- The statement names ten columns; the others keep their defaults.
abbrev pub as_inserted : Execution → Execution
as_inserted e = record e {
  attempt = 0;
  exit_code = none;
  error_message = none;
  retried_from = none;
  result = none;
  started_at = none;
  completed_at = none;
}

unfoldable pub create_execution : Execution → Exec (Unit {0})
unfolding insert_execution
create_execution execution = statement (insert_execution (as_inserted execution))
