-- ===== src/Examples/ConfigRuns.antt =====
-- The theorems about Load and the controller's main on a small configuration.
use text.Mathlib.Text.{◌==◌ as str_eq}
use jobplane.Base.{String, true, ◌≡◌, refl, ◌*◌, some, none, if◌then◌else◌}
use jobplane.Base.Int.{ℤ, pos}
use jobplane.Store.Models.{minute}
use jobplane.Config.{Viper, Config, loaded, load, settings_of}
use jobplane.Controller.Webhook.Pool.{server_shutdown}
use jobplane.Controller.Program.{Flags, Outside, main}
use jobplane.Controller.Program.Order.{Ran, started, main-Ran}

-- The runtime stands in the file and in a variable, which goes first.
abbrev sources : Viper
sources = record {
  auto_env = λ key. none;
  env = λ name.
      if str_eq name "RUNTIME"
      then some "exec"
      else if str_eq name "SYSTEM_SECRET"
      then some "secret"
      else none;
  file = λ key.
      if str_eq key "runtime"
      then some "kubernetes"
      else if str_eq key "database_url"
      then some "postgres://db"
      else none;
  read_error = none;
  parse_int = λ text. some (pos 1);
  parse_duration = λ text. some (pos 0);
}

abbrev found : Config
found = record (settings_of sources (pos 1) (pos 0) (pos 1) (pos 0) (pos 0) (pos 0)) {
  heart_visibility_extension = pos (5 * minute);
}

loads : load sources "jobplane.yaml" ≡ loaded found
unfolding load settings_of
loads = refl

variable_first : found.runtime ≡ "exec"
unfolding settings_of
variable_first = refl

-- The flags ask for a migration, and at the end the dispatcher's deadline passes.
abbrev migrating : Flags
migrating = record { migrate = true; config_path = "jobplane.yaml" }

abbrev outside : Outside
outside = record {
  load = load sources;
  open_error = none;
  migrate_error = none;
  tracer_error = none;
  metrics_error = none;
  http_shutdown_error = none;
  dispatcher_error = some "context deadline exceeded";
}

abbrev show_port : ℤ → String
show_port port = "6161"

main-Ran_example :
    Ran
      (started show_port migrating found)
      (some "context deadline exceeded")
      (main show_port outside migrating)
unfolding server_shutdown
main-Ran_example = main-Ran show_port outside migrating found loads
