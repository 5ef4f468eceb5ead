-- ===== src/Worker/Runtime/Kubernetes.antt =====
-- internal/worker/runtime/kubernetes.go: jobs as Kubernetes Jobs. `ApiServer` holds what the API server
-- answers to one execution. A loop on a ticker is a recursion on the answers to its polls; after
-- the last of them the context ends, as every context here has a deadline.
use Prim.Native.String.{◌++◌}
use text.Mathlib.Text.{◌==◌ as str_eq}
use jobplane.Base.{
  ℕ, String, Bool, false, not, Option, none, some, List, [], ◌∷◌, select, if◌then◌else◌,
}
use jobplane.Base.Int.{ℤ, pos, negsuc}
use jobplane.Worker.Report.{no_directory}
use jobplane.Worker.Runtime.{
  StartOptions, WaitReturn, give_up, exit_with, Started, refused, running, Runtime,
}

pub record KubernetesConfig : Type 0 where
  pub namespace : String
  pub service_account : String
  pub default_cpu_limit : String
  pub default_memory_limit : String

pub data PodPhase : Type 0 where
  pod_pending pod_running pod_succeeded pod_failed pod_unknown : PodPhase

-- The exit code and the reason of a terminated container.
pub record Terminated : Type 0 where
  pub exit_code : ℤ
  pub reason : String

-- The container statuses, each with its Terminated state where it has one.
pub record Pod : Type 0 where
  pub phase : PodPhase
  pub statuses : List (Option Terminated)

pub data WatchEvent : Type 0 where
  watch_error other_object : WatchEvent
  pod_event : Pod → WatchEvent

-- The answer to a List of pods, and to a Get of one.
pub data Listing : Type 0 where
  list_error : String → Listing
  names : List String → Listing

pub data Got : Type 0 where
  get_error : String → Got
  got : PodPhase → Got

pub record ApiServer : Type 0 where
  -- time.Now().UnixNano() in decimal
  pub now : String
  pub create_error : Option String
  pub listings : List Listing
  pub watch_refused : Option String
  pub events : List WatchEvent
  -- ctx.Err() where a loop on the context ends, and after the watch's channel is closed
  pub context_error : String
  pub context_error_after : Option String
  pub ready_polls : List Got
  pub log_error : Option String
  pub delete_error : Option String

-- The specification of a Job, its fixed parts left out but those that say how often it runs.
pub record JobSpec : Type 0 where
  pub name : String
  pub namespace : String
  pub image : String
  pub command : List String
  pub env : List (String × String)
  pub cpu_limit : String
  pub memory_limit : String
  pub service_account : String
  pub backoff_limit : ℕ
  pub restarts : Bool

pub record Cluster : Type 0 where
  pub jobs : List JobSpec

pub record KubernetesHandle : Type 0 where
  pub namespace : String
  pub job_name : String
  pub pod_name : String

abbrev pub text_or : String → String → String
text_or text default = if str_eq text "" then default else text

unfoldable pub with_defaults : KubernetesConfig → KubernetesConfig
with_defaults config = record config {
  namespace = text_or config.namespace "default";
  default_cpu_limit = text_or config.default_cpu_limit "500m";
  default_memory_limit = text_or config.default_memory_limit "256Mi";
}

unfoldable pub job_spec : KubernetesConfig → String → StartOptions → JobSpec
job_spec config name opts = record {
  name = name;
  namespace = config.namespace;
  image = opts.image;
  command = opts.command;
  env = opts.env;
  cpu_limit = config.default_cpu_limit;
  memory_limit = config.default_memory_limit;
  service_account = config.service_account;
  backoff_limit = 0;
  restarts = false;
}

-- waitForPod: the first name in the first listing that has one.
unfoldable pub wait_for_pod : String → List Listing → Option String × String
wait_for_pod context_error [] = (some context_error, "")
wait_for_pod context_error (list_error text ∷ rest) = (some text, "")
wait_for_pod context_error (names [] ∷ rest) = wait_for_pod context_error rest
wait_for_pod context_error (names (name ∷ more) ∷ rest) = (none, name)

-- waitForContainerReady
unfoldable pub wait_for_container_ready : String → List Got → Option String
wait_for_container_ready context_error [] = some context_error
wait_for_container_ready context_error (get_error text ∷ rest) = some text
wait_for_container_ready context_error (got pod_running ∷ rest) = none
wait_for_container_ready context_error (got pod_succeeded ∷ rest) = none
wait_for_container_ready context_error (got pod_failed ∷ rest) = none
wait_for_container_ready context_error (got pod_pending ∷ rest) =
    wait_for_container_ready context_error rest
wait_for_container_ready context_error (got pod_unknown ∷ rest) =
    wait_for_container_ready context_error rest

abbrev pub reason_of : String → Option String
reason_of reason = if str_eq reason "" then none else some reason

-- The result of a failed pod, from its first container.
unfoldable pub failed_result : List (Option Terminated) → WaitReturn
failed_result [] = exit_with (negsuc 0) none
failed_result (none ∷ rest) = exit_with (negsuc 0) none
failed_result (some t ∷ rest) = exit_with t.exit_code (reason_of t.reason)

-- What a pod's phase decides: nothing, or the result.
unfoldable pub phase_result : PodPhase → List (Option Terminated) → Option WaitReturn
unfolding failed_result
phase_result pod_succeeded statuses = some (exit_with (pos 0) none)
phase_result pod_failed statuses = some (failed_result statuses)
phase_result pod_pending statuses = none
phase_result pod_running statuses = none
phase_result pod_unknown statuses = none

abbrev pub or_next : Option WaitReturn → WaitReturn → WaitReturn
or_next none next = next
or_next (some ret) next = ret

-- The loop on the watch's events.
unfoldable pub watch : Option String → List WatchEvent → WaitReturn
unfolding phase_result
watch context_error [] = give_up context_error
watch context_error (watch_error ∷ rest) = give_up (some "watch error")
watch context_error (other_object ∷ rest) = watch context_error rest
watch context_error (pod_event pod ∷ rest) =
    or_next (phase_result pod.phase pod.statuses) (watch context_error rest)

module _ (api : ApiServer) where
  unfoldable pub start :
      KubernetesConfig → StartOptions → Cluster → Started KubernetesHandle × Cluster
  unfolding job_spec
  start config opts cluster = elim api.create_error [
    | some text ↦ (refused ("failed to create kubernetes job: " ++ text), cluster)
    | none ↦ (
      running (record {
        namespace = config.namespace;
        job_name = "jobplane-" ++ api.now;
        pod_name = "";
      }),
      record { jobs = job_spec config ("jobplane-" ++ api.now) opts ∷ cluster.jobs },
    )
  ]

  unfoldable pub watch_pod : WaitReturn
  unfolding watch
  watch_pod = elim api.watch_refused [
    | some text ↦ give_up (some text)
    | none ↦ watch api.context_error_after api.events
  ]

  -- The rest of Wait, after the error of waitForPod.
  unfoldable pub wait_found : Option String → WaitReturn
  unfolding watch_pod
  wait_found (some text) = give_up (some text)
  wait_found none = watch_pod

  unfoldable pub wait_result : WaitReturn
  unfolding wait_found wait_for_pod
  wait_result = wait_found (wait_for_pod api.context_error api.listings).0

  -- StreamLogs: an error, or the handle with the pod's name known.
  unfoldable pub open_log_stream : KubernetesHandle → Option String × KubernetesHandle
  unfolding wait_for_pod wait_for_container_ready
  open_log_stream h =
      if str_eq h.pod_name ""
      then elim ((wait_for_pod api.context_error api.listings).0) [
        | some text ↦ (some ("failed to find pod for job " ++ (h.job_name ++ (": " ++ text))), h)
        | none ↦ open_logs (record h { pod_name = (wait_for_pod api.context_error api.listings).1 })
      ]
      else open_logs h
    where
      open_logs : KubernetesHandle → Option String × KubernetesHandle
      open_logs h' = elim (wait_for_container_ready api.context_error api.ready_polls) [
        | some text ↦ (some text, h')
        | none ↦ (api.log_error, h')
      ]

  -- Stop deletes the Job.
  unfoldable pub stop : KubernetesHandle → Cluster → Cluster
  stop h cluster = elim api.delete_error [
    | some text ↦ cluster
    | none ↦ record { jobs = select (λ job. not (str_eq job.name h.job_name)) cluster.jobs }
  ]

  -- Cleanup has nothing to do, and there is no result directory.
  unfoldable pub kubernetes_runtime : KubernetesConfig → Runtime KubernetesHandle Cluster
  unfolding start wait_result stop
  kubernetes_runtime config = record {
    start = start config;
    wait = λ h cluster. (wait_result, cluster);
    stop = stop;
    cleanup = λ h cluster. (none, cluster);
    result_file = λ h cluster. no_directory;
  }
