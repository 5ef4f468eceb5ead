-- ===== src/Api.antt =====
-- pkg/api/api.go: the bodies of requests and responses. An optional field that is left out of a
-- request has Go's zero value; a uuid is written as the number that it stands for.
use jobplane.Base.{ℕ, String, Option, List}
use jobplane.Base.Int.{ℤ, pos}
use jobplane.Store.Models.{Uuid, Time, Json, ExecutionStatus, CallbackStatus, QueueItem}

-- A JSON object of strings, `map[string]string`.
abbrev pub Headers : Type 0
Headers = List (String × String)

pub record CreateTenantRequest : Type 0 where
  pub name : String
  pub rate_limit : ℤ
  pub rate_limit_burst : ℤ
  pub max_concurrent_executions : ℤ
  pub callback_url : Option String
  pub callback_headers : Option Headers

pub record UpdateTenantRequest : Type 0 where
  pub name : String
  pub rate_limit : ℤ
  pub rate_limit_burst : ℤ
  pub max_concurrent_executions : ℤ
  pub callback_url : Option String
  pub callback_headers : Option Headers

pub record CreateJobRequest : Type 0 where
  pub name : String
  pub image : String
  pub command : List String
  pub default_timeout : ℤ
  pub priority : ℤ
  pub callback_url : Option String
  pub callback_headers : Option Headers

pub record RunJobRequest : Type 0 where
  pub scheduled_at : Option Time
  pub callback_url : Option String
  pub callback_headers : Option Headers

pub record ExecutionResultRequest : Type 0 where
  pub exit_code : Option ℤ
  pub error : String
  pub result : Option Json

pub record DequeueRequest : Type 0 where
  pub limit : ℤ
  pub tenant_ids : List Uuid

pub record AddLogRequest : Type 0 where
  pub content : String

pub record ExecutionResponse : Type 0 where
  pub id : Uuid
  pub status : ExecutionStatus
  pub priority : ℤ
  pub attempt : ℕ
  pub scheduled_at : Option Time
  pub started_at : Option Time
  pub completed_at : Option Time
  pub exit_code : Option ℤ
  pub error : Option String
  pub result : Option Json
  pub callback_url : Option String
  pub callback_status : Option CallbackStatus

pub record LogLine : Type 0 where
  pub id : ℕ
  pub content : String
  pub created_at : Time

pub record DlqExecutionResponse : Type 0 where
  pub id : ℕ
  pub execution_id : Uuid
  pub job_id : Uuid
  pub job_name : String
  pub priority : ℤ
  pub error_message : Option String
  pub attempts : ℕ
  pub failed_at : Time

-- The body of a response, by its Go type.
pub data Body : Type 0 where
  no_body : Body
  error_response : String → ℕ → Body
  tenant_created : Uuid → String → String → Body
  job_created : Uuid → Body
  run_started : Uuid → Body
  execution_found : ExecutionResponse → Body
  dlq_listed : List DlqExecutionResponse → Body
  retry_started : Uuid → Body
  dequeued : List QueueItem → Body
  logs_listed : List LogLine → Body
  plain_text : String → Body
  -- {"status": …}
  probe_status : String → Body

pub record Response : Type 0 where
  pub status : ℕ
  pub body : Body

abbrev pub priority_min : ℤ
priority_min = pos 0

abbrev pub priority_max : ℤ
priority_max = pos 100
