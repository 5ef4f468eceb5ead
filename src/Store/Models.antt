-- ===== src/Store/Models.antt =====
-- internal/store/models.go: the rows of the tables, and the statuses of an execution.
-- A uuid is the number that its 16 bytes spell, so `uuid.Nil` is 0. A time counts nanoseconds from
-- Go's zero time, and JSON and text are strings.
use jobplane.Base.{ℕ, ◌*◌, String, Bool, true, false, Option, none, some, List}
use jobplane.Base.Int.{ℤ}

abbrev pub Uuid : Type 0
Uuid = ℕ

abbrev pub Time : Type 0
Time = ℕ

abbrev pub Json : Type 0
Json = String

-- One second, as a `time.Duration`.
abbrev pub second : ℕ
second = 1000000000

abbrev pub minute : ℕ
minute = 60 * second

pub data ExecutionStatus : Type 0 where
  pending scheduled running completed failed cancelled : ExecutionStatus

pub data CallbackStatus : Type 0 where
  callback_pending callback_delivered callback_failed : CallbackStatus

pub record Tenant : Type 0 where
  pub id : Uuid
  pub name : String
  pub rate_limit : ℤ
  pub rate_limit_burst : ℤ
  pub max_concurrent_executions : ℤ
  pub callback_url : Option String
  pub callback_headers : Option Json
  pub created_at : Time

pub record Job : Type 0 where
  pub id : Uuid
  pub tenant_id : Uuid
  pub name : String
  pub image : String
  pub command : List String
  pub default_timeout : ℤ
  pub priority : ℤ
  pub callback_url : Option String
  pub callback_headers : Option Json
  pub created_at : Time

pub record Execution : Type 0 where
  pub id : Uuid
  pub job_id : Uuid
  pub tenant_id : Uuid
  pub status : ExecutionStatus
  pub priority : ℤ
  pub attempt : ℕ
  pub exit_code : Option ℤ
  pub error_message : Option String
  pub retried_from : Option Uuid
  pub callback_url : Option String
  pub callback_headers : Option Json
  pub callback_status : Option CallbackStatus
  pub result : Option Json
  pub scheduled_at : Option Time
  pub created_at : Time
  pub started_at : Option Time
  pub completed_at : Option Time

pub record LogEntry : Type 0 where
  pub id : ℕ
  pub execution_id : Uuid
  pub content : String
  pub created_at : Time

-- An entry of the dead letter queue as `ListDLQ` returns it, joined with its execution and job.
pub record DlqEntry : Type 0 where
  pub id : ℕ
  pub execution_id : Uuid
  pub tenant_id : Uuid
  pub job_id : Uuid
  pub job_name : String
  pub priority : ℤ
  pub payload : Json
  pub error_message : Option String
  pub attempts : ℕ
  pub failed_at : Time

-- The column is not NULL, so that `Scan` can put it into a json.RawMessage.
abbrev pub has_json : Option Json → Bool
has_json none = false
has_json (some json) = true

-- An item that `DequeueBatch` hands to a worker.
pub record QueueItem : Type 0 where
  pub execution_id : Uuid
  pub payload : Json

-- The execution waits for a worker or runs.
abbrev pub is_active : ExecutionStatus → Bool
is_active pending = true
is_active scheduled = true
is_active running = true
is_active _ = false

abbrev pub is_running : ExecutionStatus → Bool
is_running running = true
is_running _ = false

abbrev pub is_failed : ExecutionStatus → Bool
is_failed failed = true
is_failed _ = false
