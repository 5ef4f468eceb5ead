-- ===== src/Worker/Runtime/Events.antt =====
-- internal/worker/runtime/kubernetes.go: which events of a watch end it well.
use jobplane.Base.{
  ◌≡◌, ◌⊎◌, refl, sym, ap, ◌∙◌, subst, inl, inr, String, Option, none, some, List, [], ◌∷◌, ◌++◌,
  All,
}
use jobplane.Base.Int.{pos}
use jobplane.Worker.Runtime.{WaitReturn}
use jobplane.Worker.Runtime.Kubernetes.{
  PodPhase, pod_pending, pod_running, pod_succeeded, pod_failed, pod_unknown, Terminated, Pod,
  WatchEvent, watch_error, other_object, pod_event, failed_result, phase_result, or_next, watch,
}

-- The pod has not ended.
abbrev pub GoesOn : PodPhase → Type 0
GoesOn pod_succeeded = ⊥
GoesOn pod_failed = ⊥
GoesOn _ = Unit {0}

-- The event is about no pod, or about one that has not ended.
abbrev pub IsUndecided : WatchEvent → Type 0
IsUndecided watch_error = ⊥
IsUndecided other_object = Unit {0}
IsUndecided (pod_event pod) = GoesOn pod.phase

-- The pod has succeeded, or has failed with a first container that exited with code 0.
abbrev pub HasExitedWell : Pod → Type 0
HasExitedWell pod =
    (pod.phase ≡ pod_succeeded)
    ⊎ ((pod.phase ≡ pod_failed)
        × (t : Terminated) × (rest : List (Option Terminated)) × (pod.statuses ≡ some t ∷ rest)
        × (t.exit_code ≡ pos 0))

-- The first event that decides shows a pod that has exited well.
abbrev pub EndsWell : List WatchEvent → Type 0
EndsWell events =
    (before : List WatchEvent) × (pod : Pod) × (later : List WatchEvent) × (events
      ≡ before ++ pod_event pod ∷ later)
    × All IsUndecided before
    × HasExitedWell pod

-- What Wait returns is a success for the agent.
abbrev pub IsWell : WaitReturn → Type 0
IsWell ret = (ret.err ≡ none) × (ret.result.exit_code ≡ pos 0)

failed_result-IsWell :
    (statuses : List (Option Terminated))
    → IsWell (failed_result statuses)
    → (t : Terminated) × (rest : List (Option Terminated)) × (statuses ≡ some t ∷ rest)
      × (t.exit_code ≡ pos 0)
unfolding failed_result
failed_result-IsWell [] h = absurd (cc)
failed_result-IsWell (none ∷ rest) h = absurd (cc)
failed_result-IsWell (some t ∷ rest) h = (t, rest, refl, h.1)

module _ (closed : Option String) where
  skip_one :
      (event : WatchEvent) (rest : List WatchEvent)
      → IsUndecided event
      → EndsWell rest
      → EndsWell (event ∷ rest)
  skip_one event rest u (before, pod, later, e, us, w) =
      (event ∷ before, pod, later, ap (λ l. event ∷ l) e, (u, us), w)

  pod-EndsWell :
      (phase : PodPhase) (statuses : List (Option Terminated)) (rest : List WatchEvent)
      → (IsWell (watch closed rest) → EndsWell rest)
      → IsWell (or_next (phase_result phase statuses) (watch closed rest))
      → EndsWell (pod_event (record { phase = phase; statuses = statuses }) ∷ rest)
  unfolding phase_result
  pod-EndsWell pod_succeeded statuses rest later h = ([], _, rest, refl, tt, inl refl)
  pod-EndsWell pod_failed statuses rest later h =
      let (t, more, e, code) = failed_result-IsWell statuses h in
      ([], _, rest, refl, tt, inr (refl, t, more, e, code))
  pod-EndsWell pod_pending statuses rest later h = skip_one _ rest tt (later h)
  pod-EndsWell pod_running statuses rest later h = skip_one _ rest tt (later h)
  pod-EndsWell pod_unknown statuses rest later h = skip_one _ rest tt (later h)

  pub watch-EndsWell : (events : List WatchEvent) → IsWell (watch closed events) → EndsWell events
  unfolding watch
  watch-EndsWell [] h = absurd (cc)
  watch-EndsWell (watch_error ∷ rest) h = absurd (cc)
  watch-EndsWell (other_object ∷ rest) h = skip_one other_object rest tt (watch-EndsWell rest h)
  watch-EndsWell (pod_event pod ∷ rest) h =
      pod-EndsWell pod.phase pod.statuses rest (watch-EndsWell rest) h

  watch-pending :
      (phase : PodPhase) (statuses : List (Option Terminated)) (rest : List WatchEvent)
      → GoesOn phase
      → watch closed (pod_event (record { phase = phase; statuses = statuses }) ∷ rest)
        ≡ watch closed rest
  unfolding watch phase_result
  watch-pending pod_succeeded statuses rest g = elim g [ ]
  watch-pending pod_failed statuses rest g = elim g [ ]
  watch-pending pod_pending statuses rest g = refl
  watch-pending pod_running statuses rest g = refl
  watch-pending pod_unknown statuses rest g = refl

  -- Events that decide nothing are passed over.
  pub watch-append :
      (before rest : List WatchEvent)
      → All IsUndecided before
      → watch closed (before ++ rest) ≡ watch closed rest
  unfolding watch
  watch-append [] rest us = refl
  watch-append (watch_error ∷ before) rest us = absurd us.0
  watch-append (other_object ∷ before) rest us = watch-append before rest us.1
  watch-append (pod_event pod ∷ before) rest us =
      watch-pending pod.phase pod.statuses (before ++ rest) us.0 ∙ watch-append before rest us.1

  exited-IsWell :
      (pod : Pod) (later : List WatchEvent)
      → HasExitedWell pod
      → IsWell (watch closed (pod_event pod ∷ later))
  unfolding watch phase_result failed_result
  exited-IsWell pod later (inl e) = rw e (refl, refl)
  exited-IsWell pod later (inr (e, t, rest, st, code)) = rw (e, st) (refl, code)

  pub EndsWell-watch : (events : List WatchEvent) → EndsWell events → IsWell (watch closed events)
  EndsWell-watch events (before, pod, later, e, us, w) =
      subst IsWell (sym (ap (watch closed) e ∙ watch-append before (pod_event pod ∷ later) us))
        (exited-IsWell pod later w)
