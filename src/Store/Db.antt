-- ===== src/Store/Db.antt =====
-- internal/store/postgres/migrations: the tables that the store reads and writes, with the unique
-- and foreign keys that a statement may break.
use jobplane.Base.{ℕ, String, Option, List, [], ◌==◌, first}
use jobplane.Base.Int.{ℤ}
use jobplane.Store.Models.{Uuid, Time, Json, Tenant, Job, Execution, LogEntry}

-- A row of `tenants`: what `GetTenantByID` returns, with the hash of the key beside it.
pub record TenantRow : Type 0 where
  pub tenant : Tenant
  pub api_key_hash : String

-- A row of `execution_queue`.
pub record QueueRow : Type 0 where
  pub id : ℕ
  pub execution_id : Uuid
  pub tenant_id : Uuid
  pub payload : Json
  pub priority : ℤ
  pub attempt : ℕ
  pub visible_after : Time
  pub created_at : Time

-- A row of `execution_dlq`.
pub record DlqRow : Type 0 where
  pub id : ℕ
  pub execution_id : Uuid
  pub tenant_id : Uuid
  pub payload : Json
  pub error_message : Option String
  pub attempts : ℕ
  pub failed_at : Time

-- `next_…_id` are the sequences behind the BIGSERIAL columns.
pub record Db : Type 0 where
  pub tenants : List TenantRow
  pub jobs : List Job
  pub executions : List Execution
  pub queue : List QueueRow
  pub dlq : List DlqRow
  pub logs : List LogEntry
  pub next_queue_id : ℕ
  pub next_dlq_id : ℕ
  pub next_log_id : ℕ

abbrev pub empty_db : Db
empty_db = record {
  tenants = [];
  jobs = [];
  executions = [];
  queue = [];
  dlq = [];
  logs = [];
  next_queue_id = 1;
  next_dlq_id = 1;
  next_log_id = 1;
}

-- SELECT … FROM executions WHERE id = $1, and the same for the other tables.
abbrev pub find_execution : Uuid → List Execution → Option Execution
find_execution i = first (λ e. e.id == i)

abbrev pub find_queued : Uuid → List QueueRow → Option QueueRow
find_queued i = first (λ q. q.execution_id == i)

abbrev pub find_dead : Uuid → List DlqRow → Option DlqRow
find_dead i = first (λ d. d.execution_id == i)

abbrev pub find_job : Uuid → List Job → Option Job
find_job i = first (λ j. j.id == i)

-- The unique columns.
abbrev pub execution_key : Execution → ℕ
execution_key e = e.id

abbrev pub queue_key : QueueRow → ℕ
queue_key q = q.execution_id

abbrev pub dead_key : DlqRow → ℕ
dead_key d = d.execution_id
