-- ===== src/Controller/Program/Order.antt =====
-- The order in which cmd/controller/main.go starts and stops things.
use Prim.Native.String.{◌++◌ as then_text}
use jobplane.Base.{
  ◌*◌, ◌≡◌, refl, String, Bool, true, false, Option, none, some, List, [], ◌∷◌, ◌++◌, if◌then◌else◌,
  any,
}
use jobplane.Base.Int.{ℤ}
use jobplane.Store.Models.{second}
use jobplane.Config.{Config, loaded}
use jobplane.Controller.Webhook.Pool.{server_shutdown}
use jobplane.Controller.Program.{
  Flags, Outside, Action, opens_store, migrates, starts_tracer, starts_metrics, registers_depth,
  serves, waits_for_signal, shuts_down, stops_metrics, stops_tracer, closes_store, fatal, returned,
  Run, step, then_run, stop, serve_until_signal, start_observing, migrate_if, start_loaded, main,
}

abbrev pub is_serve : Action → Bool
is_serve (serves address) = true
is_serve action = false

-- A program that dies before it serves, or goes through all of `started` and is then stopped.
pub data Ran (started : List Action) (error : Option String) (r : Run) : Type 0 where
  never_served :
      (text : String) → r.exit ≡ fatal text → any is_serve r.actions ≡ false → Ran started error r
  closed :
      error ≡ none
      → r.exit ≡ returned
      → r.actions ≡ started ++ stops_metrics ∷ stops_tracer ∷ closes_store ∷ []
      → Ran started error r
  cut_off :
      (text : String)
      → error ≡ some text
      → r.exit ≡ fatal (then_text "Server forced to shutdown: " text)
      → r.actions ≡ started
      → Ran started error r

step-Ran :
    (action : Action) (text : String) (failed : Option String) (started : List Action)
    (error : Option String) (rest : Run)
    → is_serve action ≡ false
    → Ran started error rest
    → Ran (action ∷ started) error (step action text failed rest)
step-Ran action text (some e) started error rest quiet h = never_served _ refl (rw quiet refl)
step-Ran action text none started error rest quiet (never_served t dies silent) =
    never_served t dies (rw (quiet, silent) refl)
step-Ran action text none started error rest quiet (closed clean ends same) =
    closed clean ends (rw same refl)
step-Ran action text none started error rest quiet (cut_off t e ends same) =
    cut_off t e ends (rw same refl)

abbrev serving : String → List Action
serving address = registers_depth ∷ serves address ∷ waits_for_signal ∷ shuts_down (5 * second) ∷ []

-- All that main does until it is stopped.
abbrev pub started : (ℤ → String) → Flags → Config → List Action
started show_int flags cfg =
    opens_store cfg.database_url ∷ (if flags.migrate then migrates ∷ [] else [])
    ++ (starts_tracer cfg.otel_endpoint
        ∷ starts_metrics
        ∷ serving (then_text ":" (show_int cfg.http_port)))

serve-Ran :
    (address : String) (error : Option String)
    → Ran (serving address) error (
        then_run registers_depth
          (then_run (serves address) (then_run waits_for_signal (stop error))))
unfolding stop
serve-Ran address none = closed refl refl refl
serve-Ran address (some text) = cut_off text refl refl refl

module _ (show_int : ℤ → String) (outside : Outside) where
  abbrev pub shutdown_error : Option String
  shutdown_error = server_shutdown outside.http_shutdown_error outside.dispatcher_error

  migrate_if-Ran :
      (wanted : Bool) (actions : List Action) (rest : Run)
      → Ran actions shutdown_error rest
      → Ran
          ((if wanted then migrates ∷ [] else []) ++ actions)
          shutdown_error
          (migrate_if show_int outside wanted rest)
  unfolding migrate_if
  migrate_if-Ran true actions rest h = step-Ran _ _ outside.migrate_error _ _ rest refl h
  migrate_if-Ran false actions rest h = h

  start_loaded-Ran :
      (flags : Flags) (cfg : Config)
      → Ran
          (started show_int flags cfg)
          shutdown_error
          (start_loaded show_int outside flags.migrate (loaded cfg))
  unfolding start_loaded start_observing serve_until_signal
  start_loaded-Ran flags cfg = step-Ran _ _ outside.open_error _ _ _ refl (
      migrate_if-Ran flags.migrate _ _ (
        step-Ran _ _ outside.tracer_error _ _ _ refl
          (step-Ran _ _ outside.metrics_error _ _ _ refl (serve-Ran _ shutdown_error))))

  -- Where the settings load, the controller dies before it starts to serve, or it has connected to
  -- the database, migrated it if asked to, and then started to serve and waited for the signal. After
  -- that it shuts down, and if that went well stops the metrics and the tracing and closes the store,
  -- in this order; if not, it ends at once with the error of the HTTP server, or else of the
  -- dispatcher.
  pub main-Ran :
      (flags : Flags) (cfg : Config)
      → outside.load flags.config_path ≡ loaded cfg
      → Ran (started show_int flags cfg) shutdown_error (main show_int outside flags)
  unfolding main
  main-Ran flags cfg h = rw h (start_loaded-Ran flags cfg)
