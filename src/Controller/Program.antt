-- ===== src/Controller/Program.antt =====
-- cmd/controller/main.go: what the controller starts and stops, in order, with the results of the
-- calls that leave the program as arguments.
pub mod Order
use Prim.Native.String.{◌++◌}
use jobplane.Base.{
  ℕ, ◌*◌, ◌≡◌, refl, ◌⊎◌, inl, inr, String, Bool, true, false, Option, none, some, List, [], ◌∷◌,
  if◌then◌else◌, any, Bool-cases, Option-cases,
}
use jobplane.Base.Int.{ℤ}
use jobplane.Store.Models.{second}
use jobplane.Store.Exec.{Result, ok, err, Exec, ◌>>=◌, pure, attempt_to}
use jobplane.Store.Queue.{count}
use jobplane.Config.{Config, Loaded, config_error, loaded}
use jobplane.Controller.Webhook.Pool.{server_shutdown}

-- The callback of the gauge of the queue's depth: an error of Count is logged, not returned.
unfoldable pub observe_depth : Exec (Option ℕ)
unfolding count
observe_depth = do counted ← attempt_to count; pure (elim counted [ ok n ↦ some n | err e ↦ none ])

pub record Flags : Type 0 where
  pub migrate : Bool
  pub config_path : String

-- What the calls of main return: an error's text, if any.
pub record Outside : Type 0 where
  pub load : String → Loaded
  pub open_error : Option String
  pub migrate_error : Option String
  pub tracer_error : Option String
  pub metrics_error : Option String
  pub http_shutdown_error : Option String
  pub dispatcher_error : Option String

pub data Action : Type 0 where
  opens_store : String → Action
  migrates : Action
  starts_tracer : String → Action
  starts_metrics : Action
  registers_depth : Action
  serves : String → Action
  waits_for_signal : Action
  shuts_down : ℕ → Action
  stops_metrics : Action
  stops_tracer : Action
  closes_store : Action

-- log.Fatalf, after which no deferred call runs, or the return of main.
pub data Exit : Type 0 where
  fatal : String → Exit
  returned : Exit

pub record Run : Type 0 where
  pub actions : List Action
  pub exit : Exit

abbrev pub then_run : Action → Run → Run
then_run action rest = record { actions = action ∷ rest.actions; exit = rest.exit }

-- An action, and `log.Fatalf` if it fails.
abbrev pub step : Action → String → Option String → Run → Run
step action text none rest = then_run action rest
step action text (some error) rest = record { actions = action ∷ []; exit = fatal (text ++ error) }

-- The end of main and its deferred calls.
unfoldable pub stop : Option String → Run
unfolding server_shutdown
stop error =
    step (shuts_down (5 * second)) "Server forced to shutdown: " error
      (record { actions = stops_metrics ∷ stops_tracer ∷ closes_store ∷ []; exit = returned })

module _ (show_int : ℤ → String) (outside : Outside) where
  -- The gauge's error is only logged.
  unfoldable pub serve_until_signal : Config → Run
  unfolding stop server_shutdown
  serve_until_signal cfg = then_run registers_depth (
      then_run (serves (":" ++ show_int cfg.http_port)) (
        then_run waits_for_signal
          (stop (server_shutdown outside.http_shutdown_error outside.dispatcher_error))))

  unfoldable pub start_observing : Config → Run
  unfolding serve_until_signal
  start_observing cfg =
      step (starts_tracer cfg.otel_endpoint) "Failed to init tracing: " outside.tracer_error (
        step starts_metrics "Failed to init metrics: " outside.metrics_error
          (serve_until_signal cfg))

  unfoldable pub migrate_if : Bool → Run → Run
  migrate_if wanted rest =
      if wanted then step migrates "Migration failed: " outside.migrate_error rest else rest

  unfoldable pub start_loaded : Bool → Loaded → Run
  unfolding migrate_if start_observing
  start_loaded migrate (config_error text) = record {
    actions = [];
    exit = fatal ("Failed to load config: " ++ text);
  }
  start_loaded migrate (loaded cfg) =
      step (opens_store cfg.database_url) "Failed to connect to DB: " outside.open_error
        (migrate_if migrate (start_observing cfg))

  unfoldable pub main : Flags → Run
  unfolding start_loaded
  main flags = start_loaded flags.migrate (outside.load flags.config_path)
