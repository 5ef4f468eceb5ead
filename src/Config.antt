-- ===== src/Config.antt =====
-- internal/config/config.go: the settings of the controller and the worker. `Viper` holds what viper
-- finds in its sources: AutomaticEnv's variable for a key, a variable by its name, both `none` where
-- it is not set or empty, and the config file that was read.
pub mod Valid
use Prim.Native.String.{◌++◌}
use text.Mathlib.Text.{◌==◌ as str_eq}
use jobplane.Base.{
  ◌*◌, String, Bool, true, false, ◌||◌, Option, none, some, List, [], ◌∷◌, first, if◌then◌else◌,
}
use jobplane.Base.Int.{ℤ, pos, leb_ℤ}
use jobplane.Store.Models.{minute}

pub record Viper : Type 0 where
  pub auto_env : String → Option String
  pub env : String → Option String
  pub file : String → Option String
  pub read_error : Option String
  -- the decoding of a text as an int and as a duration
  pub parse_int : String → Option ℤ
  pub parse_duration : String → Option ℤ

pub record Config : Type 0 where
  pub system_secret : String
  pub database_url : String
  pub http_port : ℤ
  pub controller_url : String
  pub heart_visibility_extension : ℤ
  pub worker_concurrency : ℤ
  pub worker_poll_interval : ℤ
  pub worker_max_backoff : ℤ
  pub worker_heartbeat_interval : ℤ
  pub runtime : String
  pub runtime_work_dir : String
  pub kubernetes_namespace : String
  pub kubernetes_service_account : String
  pub kubernetes_cpu_limit : String
  pub kubernetes_memory_limit : String
  pub otel_endpoint : String

pub data Loaded : Type 0 where
  config_error : String → Loaded
  loaded : Config → Loaded

-- SetDefault
abbrev pub defaults : List (String × String)
defaults =
    ("http_port", "6161")
    ∷ ("controller_url", "http://localhost:6161")
    ∷ ("heartbeat_visibility_extension", "5m")
    ∷ ("worker_concurrency", "1")
    ∷ ("worker_poll_interval", "1s")
    ∷ ("worker_max_backoff", "30s")
    ∷ ("worker_heartbeat_interval", "2m")
    ∷ ("runtime", "docker")
    ∷ ("otel_endpoint", "localhost:4317")
    ∷ []

-- BindEnv
abbrev pub bindings : List (String × String)
bindings =
    ("system_secret", "SYSTEM_SECRET")
    ∷ ("database_url", "DATABASE_URL")
    ∷ ("http_port", "PORT")
    ∷ ("controller_url", "CONTROLLER_URL")
    ∷ ("heartbeat_visibility_extension", "HEARTBEAT_VISIBILITY_EXTENSION")
    ∷ ("worker_concurrency", "WORKER_CONCURRENCY")
    ∷ ("worker_poll_interval", "WORKER_POLL_INTERVAL")
    ∷ ("worker_max_backoff", "WORKER_MAX_BACKOFF")
    ∷ ("worker_heartbeat_interval", "WORKER_HEARTBEAT_INTERVAL")
    ∷ ("runtime", "RUNTIME")
    ∷ ("runtime_workdir", "RUNTIME_WORKDIR")
    ∷ ("kubernetes_namespace", "KUBERNETES_NAMESPACE")
    ∷ ("kubernetes_service_account", "KUBERNETES_SERVICE_ACCOUNT")
    ∷ ("kubernetes_cpu_limit", "KUBERNETES_CPU_LIMIT")
    ∷ ("kubernetes_memory_limit", "KUBERNETES_MEMORY_LIMIT")
    ∷ ("otel_endpoint", "OTEL_EXPORTER_OTLP_ENDPOINT")
    ∷ []

abbrev value_of : Option (String × String) → Option String
value_of none = none
value_of (some entry) = some entry.1

abbrev entry_of : String → List (String × String) → Option String
entry_of key entries = value_of (first (λ entry. str_eq (entry.0) key) entries)

abbrev pub or_next : Option String → Option String → Option String
or_next none later = later
or_next (some text) later = some text

abbrev pub or_empty : Option String → String
or_empty none = ""
or_empty (some text) = text

infixl 10 ◌>>=◌
abbrev ◌>>=◌ : Option ℤ → (ℤ → Option Config) → Option Config
none >>= f = none
some n >>= f = f n

module _ (v : Viper) where
  abbrev bound : Option String → Option String
  bound none = none
  bound (some name) = v.env name

  -- A variable goes before the file, and the file before the default.
  unfoldable pub get_string : String → String
  get_string key = or_empty (
      or_next (v.auto_env key)
        (or_next (bound (entry_of key bindings)) (or_next (v.file key) (entry_of key defaults))))

  -- The numbers that are decoded, with the texts.
  unfoldable pub settings_of : ℤ → ℤ → ℤ → ℤ → ℤ → ℤ → Config
  unfolding get_string
  settings_of http_port extension concurrency poll_interval max_backoff heartbeat_interval =
      record {
        system_secret = get_string "system_secret";
        database_url = get_string "database_url";
        http_port = http_port;
        controller_url = get_string "controller_url";
        heart_visibility_extension = extension;
        worker_concurrency = concurrency;
        worker_poll_interval = poll_interval;
        worker_max_backoff = max_backoff;
        worker_heartbeat_interval = heartbeat_interval;
        runtime = get_string "runtime";
        runtime_work_dir = get_string "runtime_workdir";
        kubernetes_namespace = get_string "kubernetes_namespace";
        kubernetes_service_account = get_string "kubernetes_service_account";
        kubernetes_cpu_limit = get_string "kubernetes_cpu_limit";
        kubernetes_memory_limit = get_string "kubernetes_memory_limit";
        otel_endpoint = get_string "otel_endpoint";
      }

  -- v.Unmarshal
  unfoldable pub unmarshal : Option Config
  unfolding settings_of get_string
  unmarshal = do
    http_port ← v.parse_int (get_string "http_port")
    extension ← v.parse_duration (get_string "heartbeat_visibility_extension")
    concurrency ← v.parse_int (get_string "worker_concurrency")
    poll_interval ← v.parse_duration (get_string "worker_poll_interval")
    max_backoff ← v.parse_duration (get_string "worker_max_backoff")
    heartbeat_interval ← v.parse_duration (get_string "worker_heartbeat_interval")
    some (settings_of http_port extension concurrency poll_interval max_backoff heartbeat_interval)

  abbrev pub is_runtime : String → Bool
  is_runtime name = str_eq name "docker" || (str_eq name "exec" || str_eq name "kubernetes")

  -- `if ext <= 0 { ext = 5 minutes }`
  abbrev pub with_extension : Config → Config
  with_extension cfg =
      if leb_ℤ cfg.heart_visibility_extension (pos 0)
      then record cfg { heart_visibility_extension = pos (5 * minute) }
      else cfg

  unfoldable pub check_config : Option Config → Loaded
  check_config none = config_error "failed to parse config"
  check_config (some cfg) =
      if is_runtime cfg.runtime
      then loaded (with_extension cfg)
      else config_error (
          "invalid runtime: must be 'docker', 'exec', or 'kubernetes', got '"
          ++ (cfg.runtime ++ "'"))

  unfoldable pub check_required : Loaded
  unfolding get_string check_config unmarshal
  check_required =
      if str_eq (get_string "database_url") ""
      then config_error "database_url is required (env: DATABASE_URL)"
      else if str_eq (get_string "system_secret") ""
      then config_error "system_secret is required (env: SYSTEM_SECRET)"
      else check_config unmarshal

  -- The error of reading the file counts only for a file that was asked for.
  unfoldable pub load : String → Loaded
  unfolding check_required
  load config_path = if str_eq config_path "" then check_required else elim v.read_error [
    | some text ↦ config_error ("failed to read config file: " ++ text)
    | none ↦ check_required
  ]
