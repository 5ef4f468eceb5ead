-- ===== src/Worker/Runtime/Docker.antt =====
-- internal/worker/runtime/docker.go: jobs as containers. `Daemon` holds what the Docker daemon and
-- the file system answer to one execution.
use Prim.Native.String.{◌++◌}
use text.Mathlib.Text.{◌==◌ as str_eq}
use jobplane.Base.{String, Bool, not, Option, none, some, List, ◌∷◌, map, select, if◌then◌else◌}
use jobplane.Base.Int.{ℤ}
use jobplane.Worker.Runtime.{
  StartOptions, WaitReturn, give_up, exit_with, Started, refused, running, Runtime,
}
use jobplane.Worker.Runtime.Disk.{
  Disk, RemoveAll, removal_error, make_dir, remove_with, read_result,
}
use jobplane.Worker.Runtime.Untar.{Entry, untar}

-- What ends the select of Wait: an error, a status with perhaps an error, or the context.
pub data WaitEvent : Type 0 where
  wait_error context_done : String → WaitEvent
  status : ℤ → Option String → WaitEvent

-- CopyFromContainer: there is no output directory, another error, or an archive with its end.
pub data Copied : Type 0 where
  not_found : Copied
  copy_error : String → Copied
  archive : List Entry → Option String → Copied

pub record Daemon : Type 0 where
  pub temp_dir : String
  pub mkdir_error : Option String
  pub has_image : Bool
  pub pull_error : Option String
  pub container_id : String
  pub create_error : Option String
  pub start_error : Option String
  pub wait_event : WaitEvent
  pub copied : Copied
  pub remove_error : Option String
  pub stop_error : Option String
  -- how the one call of os.RemoveAll ends
  pub removal : RemoveAll

-- The containers that exist, and those among them that run.
pub record DockerHost : Type 0 where
  pub disk : Disk
  pub containers : List String
  pub active : List String

pub record DockerHandle : Type 0 where
  pub container_id : String
  pub host_work_dir : String
  pub env_vars : List String

abbrev pub container_output_dir : String
container_output_dir = "/jobplane/output"

unfoldable pub map_to_env_list : List (String × String) → List String
map_to_env_list env = map (λ entry. entry.0 ++ ("=" ++ entry.1)) env

abbrev pub other_than : String → List String → List String
other_than id ids = select (λ i. not (str_eq id i)) ids

-- Assigning to a map replaces an entry or adds one.
unfoldable pub set_env : String → String → List (String × String) → List (String × String)
set_env name value env = (name, value) ∷ select (λ entry. not (str_eq (entry.0) name)) env

abbrev pub discard_dir : RemoveAll → String → DockerHost → DockerHost
discard_dir removal dir host = record host { disk = remove_with removal dir host.disk }

module _ (daemon : Daemon) where
  -- ContainerStart, of a container that exists.
  unfoldable pub start_container : List String → DockerHost → Started DockerHandle × DockerHost
  start_container env host = elim daemon.start_error [
    | some text ↦ (
      refused ("Failed to start container: " ++ text),
      discard_dir daemon.removal daemon.temp_dir host,
    )
    | none ↦ (
      running (record {
        container_id = daemon.container_id;
        host_work_dir = daemon.temp_dir;
        env_vars = env;
      }),
      record host { active = daemon.container_id ∷ host.active },
    )
  ]

  unfoldable pub create_container : StartOptions → DockerHost → Started DockerHandle × DockerHost
  unfolding start_container map_to_env_list set_env
  create_container opts host = elim daemon.create_error [
    | some text ↦ (
      refused ("Failed to create container: " ++ text),
      discard_dir daemon.removal daemon.temp_dir host,
    )
    | none ↦
        start_container
          (map_to_env_list (set_env "JOBPLANE_OUTPUT_DIR" container_output_dir opts.env))
          (record host { containers = daemon.container_id ∷ host.containers })
  ]

  -- ImagePull where ImageInspect fails.
  abbrev pub pull_outcome : Option String
  pull_outcome = if daemon.has_image then none else daemon.pull_error

  unfoldable pub start_in : StartOptions → DockerHost → Started DockerHandle × DockerHost
  unfolding create_container
  start_in opts host = elim pull_outcome [
    | some text ↦ (
      refused ("Failed to pull image " ++ (opts.image ++ (": " ++ text))),
      discard_dir daemon.removal daemon.temp_dir host,
    )
    | none ↦ create_container opts host
  ]

  unfoldable pub start : StartOptions → DockerHost → Started DockerHandle × DockerHost
  unfolding start_in
  start opts host = elim daemon.mkdir_error [
    | some text ↦ (refused ("Failed to create host work directory: " ++ text), host)
    | none ↦ start_in opts (record host { disk = make_dir daemon.temp_dir host.disk })
  ]

  unfoldable pub copy_results_from_container : String → Disk → Option String × Disk
  copy_results_from_container dir disk = elim daemon.copied [
    | not_found ↦ (none, disk)
    | copy_error text ↦ (some text, disk)
    | archive entries ending ↦ untar dir entries ending disk
  ]

  -- ContainerRemove; its error is dropped.
  unfoldable pub remove_container : String → DockerHost → DockerHost
  remove_container id host = elim daemon.remove_error [
    | some text ↦ host
    | none ↦ record host {
      containers = other_than id host.containers;
      active = other_than id host.active;
    }
  ]

  -- A container that has ended: its results are copied and it is removed, whatever the copy says.
  unfoldable pub collect : DockerHandle → DockerHost → DockerHost
  unfolding copy_results_from_container remove_container
  collect h host = remove_container h.container_id (record host {
    disk = (copy_results_from_container h.host_work_dir host.disk).1;
    active = other_than h.container_id host.active;
  })

  unfoldable pub wait : DockerHandle → DockerHost → WaitReturn × DockerHost
  unfolding collect
  wait h host = elim daemon.wait_event [
    | wait_error text ↦ (give_up (some text), host)
    | context_done text ↦ (give_up (some text), host)
    | status code error ↦ (exit_with code error, collect h host)
  ]

  unfoldable pub stop : DockerHandle → DockerHost → DockerHost
  stop h host = elim daemon.stop_error [
    | some text ↦ host
    | none ↦ record host { active = other_than h.container_id host.active }
  ]

  unfoldable pub cleanup : DockerHandle → DockerHost → Option String × DockerHost
  cleanup h host =
      if str_eq h.host_work_dir ""
      then (none, host)
      else (removal_error daemon.removal, discard_dir daemon.removal h.host_work_dir host)

  unfoldable pub docker_runtime : Runtime DockerHandle DockerHost
  unfolding start wait stop cleanup
  docker_runtime = record {
    start = start;
    wait = wait;
    stop = stop;
    cleanup = cleanup;
    result_file = λ h host. read_result h.host_work_dir host.disk;
  }
