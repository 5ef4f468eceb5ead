-- ===== src/Examples/Rows.antt =====
-- A small database: one tenant with a job and four executions, three of them queued and one dead,
-- and an environment that lets every statement through.
use text.Mathlib.Text.{◌==◌ as str_eq}
use jobplane.Base.{ℕ, ◌*◌, none, some, [], ◌∷◌, if◌then◌else◌}
use jobplane.Base.{true, false, leb, ◌-◌, ℕ}
use jobplane.Controller.Middleware.RateLimit.{Bucket}
use jobplane.Base.Int.{pos}
use jobplane.Store.Models.{
  Uuid, Time, Tenant, Job, Execution, ExecutionStatus, pending, running, failed, second,
}
use jobplane.Store.Db.{Db, QueueRow, DlqRow}
use jobplane.Store.Exec.{World}
use jobplane.Controller.Handlers.{Library, Call, Hooks, Server}

abbrev pub now : Time
now = 1000 * second

abbrev pub acme : Tenant
acme = record {
  id = 1;
  name = "acme";
  rate_limit = pos 10;
  rate_limit_burst = pos 20;
  max_concurrent_executions = pos 2;
  callback_url = none;
  callback_headers = some "null";
  created_at = 5;
}

abbrev pub other_tenant : Tenant
other_tenant = record acme { id = 2; name = "other" }

abbrev pub build : Job
build = record {
  id = 10;
  tenant_id = 1;
  name = "build";
  image = "alpine";
  command = "make" ∷ [];
  default_timeout = pos 60;
  priority = pos 5;
  callback_url = some "http://hook";
  callback_headers = none;
  created_at = 6;
}

abbrev pub execution_at : Uuid → ExecutionStatus → ℕ → Execution
execution_at i status attempt = record {
  id = i;
  job_id = 10;
  tenant_id = 1;
  status = status;
  priority = pos 5;
  attempt = attempt;
  exit_code = none;
  error_message = none;
  retried_from = none;
  callback_url = some "http://hook";
  callback_headers = none;
  callback_status = none;
  result = none;
  scheduled_at = none;
  created_at = 7;
  started_at = none;
  completed_at = none;
}

abbrev pub row_at : ℕ → Uuid → ℕ → Time → QueueRow
row_at id i attempt visible_after = record {
  id = id;
  execution_id = i;
  tenant_id = 1;
  payload = "{}";
  priority = pos 5;
  attempt = attempt;
  visible_after = visible_after;
  created_at = 7;
}

abbrev pub dead_build : DlqRow
dead_build = record {
  id = 1;
  execution_id = 103;
  tenant_id = 1;
  payload = "{}";
  error_message = some "boom";
  attempts = 6;
  failed_at = 8;
}

-- Execution 100 waits, 101 runs for the first time, 102 for the sixth, and 103 is dead.
abbrev pub tables : Db
tables = record {
  tenants = record { tenant = acme; api_key_hash = "hash of key" } ∷ [];
  jobs = build ∷ [];
  executions =
      execution_at 100 pending 0
      ∷ execution_at 101 running 1
      ∷ execution_at 102 running 6
      ∷ execution_at 103 failed 6
      ∷ [];
  queue = row_at 1 100 0 0 ∷ row_at 2 101 1 (2000 * second) ∷ row_at 3 102 6 (2000 * second) ∷ [];
  dlq = dead_build ∷ [];
  logs = [];
  next_queue_id = 4;
  next_dlq_id = 2;
  next_log_id = 1;
}

abbrev pub world : World
world = record { db = tables; faults = [] }

abbrev pub server : Server
server = record { world = world; notices = [] }

-- Three texts are the names of uuids, and no text is a number.
abbrev pub lib : Library
lib = record {
  parse_uuid = λ s.
      if str_eq s "job"
      then some 10
      else (if str_eq s "waiting" then some 100 else (if str_eq s "runs" then some 101 else none));
  atoi = λ s. none;
  marshal_headers = λ hs. "{}";
  marshal_payload = λ job. "{}";
  log_tie = λ l. 0;
  sha256_hex = λ key. if str_eq key "key" then "hash of key" else "another hash";
}

abbrev pub call : Call
call = record { now = now; new_uuid = 200 }

abbrev pub hooks : Hooks
hooks = record { has_webhook = true; has_on_tenant_updated = true }

-- A bucket that counts its tokens down and never fills.
abbrev pub counter : Bucket ℕ
counter = record {
  new_limiter = λ limit burst. 20;
  allow = λ n tokens. if leb 1 tokens then (true, tokens - 1) else (false, 0);
}
