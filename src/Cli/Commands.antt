-- ===== src/Cli/Commands.antt =====
-- cmd/cli/cmd/create.go, run.go, submit.go, status.go and dlq.go: the commands, from their flags to
-- the lines they print. os.Exit and the flags' and viper's parsing are left out.
use Prim.Native.String.{◌++◌}
use jobplane.Base.{String, Option, none, some, List, [], ◌∷◌, if◌then◌else◌}
use jobplane.Base.Int.{ℤ}
use jobplane.Store.Models.{Uuid, Time}
use jobplane.Controller.Handlers.Jobs.{is_empty}
use jobplane.Api.{CreateJobRequest, RunJobRequest, ExecutionResponse}
use jobplane.Cli.Client.{
  Wire, JobClient, ClientResult, received, api_error, client_error, create_job, run_job,
  get_execution, retry_dlq_execution,
}
use jobplane.Cli.Status.{Format, print_status}

-- The flags of create and submit.
pub record JobFlags : Type 0 where
  pub name : String
  pub image : String
  pub command : List String
  pub timeout : ℤ
  pub priority : ℤ

-- The flags of run: --schedule, and --callback-url.
pub record RunFlags : Type 0 where
  pub schedule_at : String
  pub callback_url : String

abbrev no_token : String
no_token =
    "API token not found. Please set it using the --token flag or the JOBPLANE_TOKEN environment variable"

-- What stops create and submit before a request is made.
unfoldable pub check_flags : JobClient → JobFlags → Option String
check_flags client flags =
    if is_empty client.token
    then some no_token
    else if is_empty flags.name
    then some "Error: --name is required"
    else if is_empty flags.image
    then some "Error: --image is required"
    else elim flags.command [ [] ↦ some "Error: --command is required" | word ∷ words ↦ none ]

unfoldable pub request_of : JobFlags → CreateJobRequest
request_of flags = record {
  name = flags.name;
  image = flags.image;
  command = flags.command;
  default_timeout = flags.timeout;
  priority = flags.priority;
  callback_url = none;
  callback_headers = none;
}

abbrev pub empty_request : RunJobRequest
empty_request = record { scheduled_at = none; callback_url = none; callback_headers = none }

module _ (wire : Wire) (client : JobClient) (format : Format) where
  -- The error of a call after a text, with the status in brackets where the controller answered.
  abbrev error_line : {A : Type 0} → String → String → ClientResult A → String
  error_line before_code before (received a) = before
  error_line before_code before (api_error code text) =
      before_code ++ (" (" ++ (format.show_nat code ++ ("): " ++ text)))
  error_line before_code before (client_error text) = before ++ (": " ++ text)

  unfoldable pub created_lines : JobFlags → ClientResult Uuid → List String
  created_lines flags (received id) =
      "✓ Job created!" ∷ ("ID: " ++ format.show_uuid id) ∷ ("Name: " ++ flags.name) ∷ []
  created_lines flags error = error_line "Error" "Error" error ∷ []

  unfoldable pub create : JobFlags → List String
  unfolding check_flags request_of created_lines
  create flags = elim (check_flags client flags) [
    | some text ↦ text ∷ []
    | none ↦ created_lines flags (create_job wire client (request_of flags))
  ]

  unfoldable pub submitted_lines : Uuid → ClientResult Uuid → List String
  submitted_lines job_id (received id) =
      "✓ Job submitted!"
      ∷ ("Job ID: " ++ format.show_uuid job_id)
      ∷ ("Execution ID: " ++ format.show_uuid id)
      ∷ []
  submitted_lines job_id error =
      let created = "Job created (ID: " ++ (format.show_uuid job_id ++ ") but run failed") in
      error_line created created error ∷ []

  -- The job is run where it was created.
  unfoldable pub then_run : ClientResult Uuid → List String
  unfolding submitted_lines
  then_run (received id) =
      submitted_lines id (run_job wire client (format.show_uuid id) empty_request)
  then_run error = error_line "Create failed" "Create failed" error ∷ []

  unfoldable pub submit : JobFlags → List String
  unfolding check_flags request_of then_run
  submit flags = elim (check_flags client flags) [
    | some text ↦ text ∷ []
    | none ↦ then_run (create_job wire client (request_of flags))
  ]

  -- time.Parse with time.RFC3339, and its error's text
  module _ (parse_time : String → Option Time) (parse_error : String → String) where
    abbrev pub optional : String → Option String
    optional text = if is_empty text then none else some text

    -- The request of run, or what is wrong with --schedule.
    unfoldable pub run_request : RunFlags → Option RunJobRequest
    run_request flags =
        if is_empty flags.schedule_at
        then some (record empty_request { callback_url = optional flags.callback_url })
        else elim (parse_time flags.schedule_at) [
          | none ↦ none
          | some t ↦ some (record {
            scheduled_at = some t;
            callback_url = optional flags.callback_url;
            callback_headers = none;
          })
        ]

    unfoldable pub started_lines : ClientResult Uuid → List String
    started_lines (received id) = "🚀 Execution started!" ∷ ("ID: " ++ format.show_uuid id) ∷ []
    started_lines error = error_line "Error" "Error" error ∷ []

    unfoldable pub run : String → RunFlags → List String
    unfolding run_request started_lines
    run job_id flags = if is_empty client.token then no_token ∷ [] else elim (run_request flags) [
      | none ↦
          ("Invalid schedule format. Use RFC3339 (e.g. 2024-01-01T12:00:00Z): "
            ++ parse_error flags.schedule_at)
          ∷ []
      | some req ↦ started_lines (run_job wire client job_id req)
    ]

  unfoldable pub status_lines : Time → ClientResult ExecutionResponse → List String
  unfolding print_status
  status_lines now (received e) = print_status format now e
  status_lines now (api_error code text) =
      ("Request failed with status code: " ++ format.show_nat code) ∷ []
  status_lines now (client_error text) = ("Error: " ++ text) ∷ []

  unfoldable pub status : Time → String → List String
  unfolding status_lines
  status now execution_id =
      if is_empty client.token
      then no_token ∷ []
      else status_lines now (get_execution wire client execution_id)

  -- APIError.Error, and the text of another error.
  unfoldable pub error_text : {A : Type 0} → ClientResult A → String
  error_text (received a) = ""
  error_text (api_error code text) = "API error (" ++ (format.show_nat code ++ ("): " ++ text))
  error_text (client_error text) = text

  unfoldable pub retried_lines : String → ClientResult Uuid → List String
  unfolding error_text
  retried_lines execution_id (received id) =
      ("✅ Execution " ++ (execution_id ++ " retried successfully."))
      ∷ ("   New Execution ID: " ++ format.show_uuid id)
      ∷ []
  retried_lines execution_id error = ("Error retrying execution: " ++ error_text error) ∷ []

  unfoldable pub dlq_retry : String → List String
  unfolding retried_lines
  dlq_retry execution_id = retried_lines execution_id (retry_dlq_execution wire client execution_id)
