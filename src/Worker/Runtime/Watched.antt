-- ===== src/Worker/Runtime/Watched.antt =====
-- internal/worker/runtime/kubernetes.go and internal/worker/agent.go: what a Kubernetes execution
-- is reported as.
use Prim.Native.String.{◌++◌ as followed_by}
use jobplane.Base.{◌≡◌, ◌↔◌, refl, ap, ◌∙◌, subst, String, Bool, true, Option, none, some, [], All}
use mathlib.Core.List.{append-nil}
use jobplane.Base.Int.{negsuc}
use jobplane.Store.Models.{Job}
use jobplane.Controller.Handlers.Internal.{is_success}
use jobplane.Worker.Report.{Host, ResultFile, no_directory, started, report_of, failure}
use jobplane.Worker.Report.Outcome.{Succeeds, report-success}
use jobplane.Worker.Runtime.{
  StartOptions, ExitResult, give_up, waited, run_execution, finish_execution,
}
use jobplane.Worker.Runtime.Kubernetes.{
  KubernetesConfig, ApiServer, Cluster, wait_for_pod, watch, watch_pod, wait_found, wait_result,
  start, kubernetes_runtime,
}
use jobplane.Worker.Runtime.Events.{
  IsUndecided, EndsWell, IsWell, watch-EndsWell, watch-append, EndsWell-watch,
}

-- The pod is found, and its watch starts.
abbrev pub IsWatched : ApiServer → Type 0
IsWatched api =
    (api.create_error ≡ none)
    × ((wait_for_pod api.context_error api.listings).0 ≡ none)
    × (api.watch_refused ≡ none)

module _ (api : ApiServer) where
  watch_pod-IsWell :
      (refusal : Option String)
      → IsWell (watch_pod (record api { watch_refused = refusal }))
        ↔ ((refusal ≡ none) × EndsWell api.events)
  unfolding watch_pod
  watch_pod-IsWell (some text) = (λ h. absurd (cc), λ h. absurd (cc))
  watch_pod-IsWell none = (
    λ h. (refl, watch-EndsWell api.context_error_after api.events h),
    λ h. EndsWell-watch api.context_error_after api.events h.1,
  )

  wait_found-IsWell :
      (error : Option String)
      → IsWell (wait_found api error)
        ↔ ((error ≡ none) × (api.watch_refused ≡ none) × EndsWell api.events)
  unfolding wait_found
  wait_found-IsWell (some text) = (λ h. absurd (cc), λ h. absurd (cc))
  wait_found-IsWell none =
      let both = watch_pod-IsWell api.watch_refused in
      (λ h. let r = both.0 h in (refl, r.0, r.1), λ h. both.1 (h.1, h.2))

waited-IsWell :
    (late : Bool) (file : ResultFile) (err : Option String) (result : ExitResult)
    → Succeeds (started (waited late (record { result = result; err = err })) file)
      ↔ IsWell (record { result = result; err = err })
unfolding waited
waited-IsWell late file (some text) result = (λ h. absurd h, λ h. absurd (cc))
waited-IsWell late file none result = (λ h. (refl, h), λ h. h.1)

module _ (api : ApiServer) (config : KubernetesConfig) (late : Bool) (opts : StartOptions)
    (cluster : Cluster) where
  run-Succeeds :
      (error : Option String)
      → Succeeds (
          (run_execution
            (kubernetes_runtime (record api { create_error = error }) config)
            late
            opts
            cluster).0)
        ↔ ((error ≡ none)
            × ((wait_for_pod api.context_error api.listings).0 ≡ none)
            × (api.watch_refused ≡ none)
            × EndsWell api.events)
  unfolding run_execution finish_execution kubernetes_runtime start wait_result
  run-Succeeds (some text) = (λ h. absurd h, λ h. absurd (cc))
  run-Succeeds none =
      let ret = wait_result api in
      let well = waited-IsWell late no_directory ret.err ret.result in
      let found = wait_found-IsWell api (wait_for_pod api.context_error api.listings).0 in
      (
        λ h. let r = found.0 (well.0 h) in (refl, r.0, r.1, r.2),
        λ h. well.1 (found.1 (h.1, h.2, h.3)),
      )

  -- The controller counts a Kubernetes execution as a success exactly where its Job was created, its
  -- pod found and watched, and the first event that decides shows the pod as succeeded, or as failed
  -- with a first container that exited with code 0.
  pub kubernetes_success :
      (host : Host) (job : Job)
      → (is_success
            (report_of host job (run_execution (kubernetes_runtime api config) late opts cluster).0)
          ≡ true)
        ↔ (IsWatched api × EndsWell api.events)
  kubernetes_success host job =
      let ran = (run_execution (kubernetes_runtime api config) late opts cluster).0 in
      let both = report-success host job ran in
      let ends = run-Succeeds api.create_error in
      (
        λ h. let (c, f, w, e) = ends.0 (both.0 h) in ((c, f, w), e),
        λ h. both.1 (ends.1 (h.0.0, h.0.1, h.0.2, h.1)),
      )

  watch_closed :
      All IsUndecided api.events
      → watch api.context_error_after api.events ≡ give_up api.context_error_after
  unfolding watch
  watch_closed us =
      subst (λ l. watch api.context_error_after l ≡ give_up api.context_error_after)
        (append-nil api.events) (watch-append api.context_error_after api.events [] us)

  lost_wait :
      IsWatched api → All IsUndecided api.events → wait_result api ≡ give_up api.context_error_after
  unfolding wait_result wait_found watch_pod
  lost_wait (created, found, watched) us =
      let loop : watch_pod api ≡ watch api.context_error_after api.events = rw watched refl in
      ap (wait_found api) found ∙ loop ∙ watch_closed us

  run-started :
      (error : Option String)
      → error ≡ none
      → (run_execution
          (kubernetes_runtime (record api { create_error = error }) config)
          late
          opts
          cluster).0
        ≡ started (waited late (wait_result api)) no_directory
  unfolding run_execution finish_execution kubernetes_runtime start wait_result
  run-started (some text) e = absurd (cc)
  run-started none e = refl

  -- Where the server closes the watch before the pod has ended, while the context is alive, Wait
  -- returns no error, and the execution is reported as failed with exit code -1.
  pub kubernetes_lost_watch :
      IsWatched api
      → All IsUndecided api.events
      → api.context_error_after ≡ none
      → (host : Host) (job : Job)
      → report_of host job (run_execution (kubernetes_runtime api config) late opts cluster).0
        ≡ failure (some (negsuc 0)) (followed_by "Exit code " (host.show_int (negsuc 0)))
  unfolding report_of waited
  kubernetes_lost_watch watched us alive host job =
      let ended : wait_result api ≡ give_up none = lost_wait watched us ∙ ap give_up alive in
      ap (report_of host job) (
        run-started api.create_error watched.0
        ∙ ap (λ r. started (waited late r) no_directory) ended)
      ∙ refl
