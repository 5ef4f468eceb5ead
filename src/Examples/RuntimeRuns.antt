-- ===== src/Examples/RuntimeRuns.antt =====
-- The theorems about the runtimes on small executions.
use jobplane.Base.{◌≡◌, ◌↔◌, refl, String, true, false, none, some, List, [], ◌∷◌}
use jobplane.Base.Int.{pos, negsuc}
use jobplane.Base.Text.{split}
use jobplane.Base.FilePath.{clean, join, has_prefix}
use jobplane.Controller.Handlers.Internal.{is_success}
use jobplane.Worker.Report.{report_of, failure}
use jobplane.Worker.Runtime.{StartOptions, run_execution}
use jobplane.Worker.Runtime.Disk.{removed, Disk, is_under, remove_all}
use jobplane.Worker.Runtime.Untar.{Entry, type_reg, goes_well, untar}
use jobplane.Worker.Runtime.Untar.Inside.{AddsInside, untar-AddsInside}
use jobplane.Worker.Runtime.Exec.{
  Os, Machine, exit_error, delivered, grace_over, exec_id, exec_runtime,
}
use jobplane.Worker.Runtime.Tidy.{exec_run-leaves_nothing}
use jobplane.Worker.Runtime.Docker.{Daemon, DockerHost, context_done, not_found, docker_runtime}
use jobplane.Worker.Runtime.Leftovers.{Leaves, leaves_container, docker_run-Leaves}
use jobplane.Worker.Runtime.Kubernetes.{
  ApiServer, KubernetesConfig, Cluster, Pod, pod_failed, pod_running, WatchEvent, other_object,
  pod_event, names, wait_for_pod, kubernetes_runtime,
}
use jobplane.Worker.Runtime.Events.{EndsWell}
use jobplane.Worker.Runtime.Watched.{IsWatched, kubernetes_success, kubernetes_lost_watch}
use jobplane.Examples.Rows.{build}
use jobplane.Examples.WorkerRuns.{host}

clean_tests :
    (clean "/a/../b//c/." ≡ "/b/c")
    × (clean "/../.." ≡ "/")
    × (clean "../a/.." ≡ "..")
    × (clean "a/.." ≡ ".")
    × (join "/tmp/x" "../y" ≡ "/tmp/y")
unfolding clean join split
clean_tests = (refl, refl, refl, refl, refl)

abbrev entry : String → Entry
entry name = record { name = name; type_flag = type_reg; body = "{}"; io = goes_well }

abbrev empty_disk : Disk
empty_disk = record { dirs = "/tmp/other" ∷ []; files = [] }

abbrev results : List Entry
results = entry "./result.json" ∷ entry "../../etc/passwd" ∷ []

-- The second entry is refused, after the first is written.
untar-results : untar "/tmp/jp" results none empty_disk ≡ (
  some "illegal file path: ../../etc/passwd",
  record { dirs = "/tmp/other" ∷ []; files = ("/tmp/jp/result.json", "{}") ∷ [] },
)
unfolding untar join clean split
untar-results = refl

is_rooted : has_prefix "/tmp/jp" "/" ≡ true
unfolding has_prefix
is_rooted = refl

untar-AddsInside_example :
    AddsInside "/tmp/jp" empty_disk (untar "/tmp/jp" results none empty_disk).1
untar-AddsInside_example = untar-AddsInside "/tmp/jp" is_rooted results none empty_disk

abbrev options : StartOptions
options = record {
  image = "alpine";
  command = "true" ∷ [];
  payload = "";
  env = ("JOBPLANE_EXECUTION_ID", "100") ∷ [];
  timeout = pos 60;
}

abbrev os : Os
os = record {
  new_uuid = "1";
  environ = [];
  mkdir_error = none;
  stdout_error = none;
  stderr_error = none;
  start_error = none;
  written = ("/work/100/result.json", "{}") ∷ [];
  cmd_wait = exit_error (negsuc 0);
  context_error = some "context deadline exceeded";
  terminated = delivered;
  stop_event = grace_over;
  killed = delivered;
  orphans = [];
  removal = removed;
}

abbrev machine : Machine
machine = record {
  disk = record { dirs = "/work/99" ∷ []; files = ("/work/99/result.json", "{}") ∷ [] };
  stdouts = "/work/99" ∷ [];
  stderrs = "/work/99" ∷ [];
  processes = "/work/99" ∷ [];
}

-- A process beyond its deadline is killed, and all that is its own is removed.
exec_run-leaves_nothing_example :
    (run_execution (exec_runtime os "/work") true options machine).1 ≡ machine
unfolding is_under remove_all join clean exec_id split
exec_run-leaves_nothing_example =
    exec_run-leaves_nothing os "/work" true options machine refl refl
      (record { no_files = refl; no_stdout = refl; no_stderr = refl; no_process = refl }) (refl, tt)
      refl

abbrev daemon : Daemon
daemon = record {
  temp_dir = "/tmp/jp";
  mkdir_error = none;
  has_image = true;
  pull_error = none;
  container_id = "c1";
  create_error = none;
  start_error = none;
  wait_event = context_done "context deadline exceeded";
  copied = not_found;
  remove_error = none;
  stop_error = none;
  removal = removed;
}

abbrev docker_host : DockerHost
docker_host = record { disk = empty_disk; containers = "c0" ∷ []; active = [] }

-- A container beyond its deadline is stopped and stays.
docker_run-Leaves_example :
    Leaves daemon docker_host
      (leaves_container daemon)
      (run_execution (docker_runtime daemon) true options docker_host).1
unfolding has_prefix clean remove_all split
docker_run-Leaves_example =
    docker_run-Leaves daemon true docker_host options refl
      (record { rooted = refl; tidy = refl; named = refl; no_files = refl; no_container = refl })

abbrev evicted : Pod
evicted = record {
  phase = pod_failed;
  statuses = some (record { exit_code = pos 0; reason = "Evicted" }) ∷ [];
}

abbrev api : List WatchEvent → ApiServer
api events = record {
  now = "1";
  create_error = none;
  listings = names [] ∷ names ("pod" ∷ []) ∷ [];
  watch_refused = none;
  events = events;
  context_error = "context deadline exceeded";
  context_error_after = none;
  ready_polls = [];
  log_error = none;
  delete_error = none;
}

abbrev config : KubernetesConfig
config = record {
  namespace = "jobs";
  service_account = "";
  default_cpu_limit = "";
  default_memory_limit = "";
}

abbrev cluster : Cluster
cluster = record { jobs = [] }

-- A pod that failed with exit code 0 counts as a success.
kubernetes_success_example :
    (is_success (
        report_of host build
          (run_execution
            (kubernetes_runtime (api (other_object ∷ pod_event evicted ∷ [])) config)
            false
            options
            cluster).0)
      ≡ true)
    ↔ (IsWatched (api (other_object ∷ pod_event evicted ∷ []))
        × EndsWell (other_object ∷ pod_event evicted ∷ []))
kubernetes_success_example =
    kubernetes_success (api (other_object ∷ pod_event evicted ∷ [])) config false options cluster
      host build

abbrev still_running : WatchEvent
still_running = pod_event (record { phase = pod_running; statuses = [] })

kubernetes_lost_watch_example :
    report_of host build
      (run_execution (kubernetes_runtime (api (still_running ∷ [])) config) false options cluster).0
    ≡ failure (some (negsuc 0)) "Exit code 1"
unfolding wait_for_pod
kubernetes_lost_watch_example =
    kubernetes_lost_watch (api (still_running ∷ [])) config false options cluster (refl, refl, refl)
      (tt, tt) refl host build
