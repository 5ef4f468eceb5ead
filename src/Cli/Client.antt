-- ===== src/Cli/Client.antt =====
-- cmd/cli/cmd/client.go: a call of the controller, from the request to the result or the error.
-- JSON is a Body, decoded as the type that is asked for; `Wire` holds how the network answers and the
-- texts that fmt and json make.
pub mod Keys
use Prim.Native.String.{◌++◌}
use jobplane.Base.{ℕ, String, Bool, ◌||◌, Option, none, some, List, ◌==◌, if◌then◌else◌}
use jobplane.Base.Int.{ℤ}
use jobplane.Store.Models.{Uuid}
use jobplane.Api.{
  CreateJobRequest, RunJobRequest, ExecutionResponse, LogLine, DlqExecutionResponse, Body,
  job_created, run_started, execution_found, dlq_listed, retry_started, logs_listed, Response,
}

-- The endpoints that the client calls, with what their URL and body hold.
pub data Endpoint : Type 0 where
  post_job : CreateJobRequest → Endpoint
  post_run : String → RunJobRequest → Endpoint
  execution_at : String → Endpoint
  logs_after : String → String → Endpoint
  dlq_page : String → String → Endpoint
  post_retry : String → Endpoint

pub record Request : Type 0 where
  pub authorization : String
  pub endpoint : Endpoint

pub data Transport : Type 0 where
  unbuilt : String → Transport
  unanswered : String → Transport
  answered : Response → Transport

pub record Wire : Type 0 where
  pub send : Request → Transport
  pub show_int : ℤ → String
  pub show_body : Body → String

pub data ClientResult (A : Type 0) : Type 0 where
  received : A → ClientResult A
  api_error : ℕ → String → ClientResult A
  client_error : String → ClientResult A

pub record JobClient : Type 0 where
  pub base_url : String
  pub token : String

-- The path of a request, after the base URL.
unfoldable pub path_of : Endpoint → String
path_of (post_job req) = "/jobs"
path_of (post_run job_id req) = "/jobs/" ++ (job_id ++ "/run")
path_of (execution_at execution_id) = "/executions/" ++ execution_id
path_of (logs_after execution_id after_id) =
    "/executions/" ++ (execution_id ++ ("/logs?after_id=" ++ after_id))
path_of (dlq_page limit offset) = "/executions/dlq?limit=" ++ (limit ++ ("&offset=" ++ offset))
path_of (post_retry execution_id) = "/executions/dlq/" ++ (execution_id ++ "/retry")

abbrev pub authorization_of : JobClient → String
authorization_of client = "Bearer " ++ client.token

abbrev pub is_ok : ℕ → Bool
is_ok status = status == 200

-- CreateJob and RunJob take a 200 and a 201.
abbrev pub is_ok_or_created : ℕ → Bool
is_ok_or_created status = status == 200 || status == 201

module _ {A : Type 0} (wire : Wire) where
  abbrev pub parsed : Option A → ClientResult A
  parsed none = client_error "failed to parse response"
  parsed (some a) = received a

  -- The status decides whether the body is an error or the result.
  unfoldable pub result_of : (ℕ → Bool) → (Body → Option A) → Transport → ClientResult A
  result_of accepts decode (unbuilt text) = client_error ("failed to create request: " ++ text)
  result_of accepts decode (unanswered text) = client_error ("request failed: " ++ text)
  result_of accepts decode (answered response) =
      if accepts response.status
      then parsed (decode response.body)
      else api_error response.status (wire.show_body response.body)

  unfoldable pub call : JobClient → (ℕ → Bool) → (Body → Option A) → Endpoint → ClientResult A
  unfolding result_of
  call client accepts decode endpoint =
      result_of accepts decode
        (wire.send (record { authorization = authorization_of client; endpoint = endpoint }))

-- What json.Unmarshal finds in a body, by the type that is asked for.
abbrev pub job_id_in : Body → Option Uuid
job_id_in (job_created id) = some id
job_id_in _ = none

abbrev pub execution_id_in : Body → Option Uuid
execution_id_in (run_started id) = some id
execution_id_in _ = none

abbrev pub execution_in : Body → Option ExecutionResponse
execution_in (execution_found e) = some e
execution_in _ = none

abbrev pub logs_in : Body → Option (List LogLine)
logs_in (logs_listed ls) = some ls
logs_in _ = none

abbrev pub dlq_in : Body → Option (List DlqExecutionResponse)
dlq_in (dlq_listed ds) = some ds
dlq_in _ = none

abbrev pub retried_in : Body → Option Uuid
retried_in (retry_started id) = some id
retried_in _ = none

module _ (wire : Wire) (client : JobClient) where
  unfoldable pub create_job : CreateJobRequest → ClientResult Uuid
  unfolding call
  create_job req = call wire client is_ok_or_created job_id_in (post_job req)

  unfoldable pub run_job : String → RunJobRequest → ClientResult Uuid
  unfolding call
  run_job job_id req = call wire client is_ok_or_created execution_id_in (post_run job_id req)

  unfoldable pub get_execution : String → ClientResult ExecutionResponse
  unfolding call
  get_execution execution_id = call wire client is_ok execution_in (execution_at execution_id)

  unfoldable pub get_logs : String → ℤ → ClientResult (List LogLine)
  unfolding call
  get_logs execution_id after_id =
      call wire client is_ok logs_in (logs_after execution_id (wire.show_int after_id))

  unfoldable pub list_dlq_executions : ℤ → ℤ → ClientResult (List DlqExecutionResponse)
  unfolding call
  list_dlq_executions limit offset =
      call wire client is_ok dlq_in (dlq_page (wire.show_int limit) (wire.show_int offset))

  unfoldable pub retry_dlq_execution : String → ClientResult Uuid
  unfolding call
  retry_dlq_execution execution_id = call wire client is_ok retried_in (post_retry execution_id)
