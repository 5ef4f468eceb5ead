-- ===== src/Worker/Runtime/Leftovers.antt =====
-- internal/worker/runtime/docker.go: what an execution leaves behind on the worker's host.
use text.Mathlib.Text.{◌==◌ as str_eq}
use jobplane.Base.{
  ◌≡◌, refl, sym, ap, subst, ◌∙◌, String, Bool, true, false, Option, none, some, [], ◌∷◌,
  if◌then◌else◌,
}
use jobplane.Base.Text.{str_eq_refl}
use jobplane.Base.FilePath.{has_prefix, clean}
use jobplane.Worker.Runtime.{
  StartOptions, Started, run_execution, finish_execution, is_some, running,
}
use jobplane.Worker.Runtime.Disk.{Disk, removed, remove_all, make_dir}
use jobplane.Worker.Runtime.Disk.Removal.{remove_all-make_dir, remove_all-AddsInside}
use jobplane.Worker.Runtime.Untar.Inside.{AddsInside, untar-AddsInside}
use jobplane.Worker.Runtime.Docker.{
  Daemon, DockerHost, DockerHandle, WaitEvent, wait_error, context_done, status, Copied, not_found,
  copy_error, archive, other_than, map_to_env_list, set_env, container_output_dir, start_container,
  create_container, pull_outcome, start_in, start, copy_results_from_container, remove_container,
  collect, wait, stop, cleanup, docker_runtime,
}

abbrev is_status : WaitEvent → Bool
is_status (status code error) = true
is_status (wait_error text) = false
is_status (context_done text) = false

-- A container was made, and then not started, or not waited for to its end, or not removed.
abbrev pub leaves_container : Daemon → Bool
leaves_container daemon =
    if is_some daemon.mkdir_error
    then false
    else if is_some (pull_outcome daemon)
    then false
    else if is_some daemon.create_error
    then false
    else if is_some daemon.start_error
    then true
    else if is_status daemon.wait_event
    then is_some daemon.remove_error
    else true

-- No other directory, file or container is named as the new ones.
pub record IsFresh (daemon : Daemon) (host : DockerHost) : Type 0 where
  pub rooted : has_prefix daemon.temp_dir "/" ≡ true
  pub tidy : clean daemon.temp_dir ≡ daemon.temp_dir
  pub named : str_eq daemon.temp_dir "" ≡ false
  pub no_files : remove_all daemon.temp_dir host.disk ≡ host.disk
  pub no_container : other_than daemon.container_id host.containers ≡ host.containers

-- The disk is as before, and of the containers only `left` more.
abbrev pub Leaves : Daemon → DockerHost → Bool → DockerHost → Type 0
Leaves daemon before left after =
    (after.disk ≡ before.disk)
    × (after.containers
        ≡ (if left then daemon.container_id ∷ before.containers else before.containers))

-- The daemon and the file system, where os.RemoveAll removes all.
abbrev tidy_daemon : Daemon → Daemon
tidy_daemon daemon = record daemon { removal = removed }

module _ (given : Daemon) (late : Bool) (host : DockerHost)
    (fresh : IsFresh (tidy_daemon given) host) where
  abbrev daemon : Daemon
  daemon = tidy_daemon given

  abbrev after : Started DockerHandle × DockerHost → DockerHost
  after r = (finish_execution (docker_runtime daemon) late r).1

  abbrev handle_of : StartOptions → DockerHandle
  handle_of opts = record {
    container_id = daemon.container_id;
    host_work_dir = daemon.temp_dir;
    env_vars = map_to_env_list (set_env "JOBPLANE_OUTPUT_DIR" container_output_dir opts.env);
  }

  abbrev made : DockerHost
  made = record host { disk = make_dir daemon.temp_dir host.disk }

  abbrev created : DockerHost
  created = record made { containers = daemon.container_id ∷ host.containers }

  abbrev begun : DockerHost
  begun = record created { active = daemon.container_id ∷ host.active }

  undone : remove_all daemon.temp_dir (make_dir daemon.temp_dir host.disk) ≡ host.disk
  undone = remove_all-make_dir daemon.temp_dir host.disk ∙ fresh.no_files

  copied-AddsInside :
      (c : Copied) (disk : Disk)
      → AddsInside daemon.temp_dir disk
          (copy_results_from_container (record daemon { copied = c }) daemon.temp_dir disk).1
  unfolding copy_results_from_container
  copied-AddsInside not_found disk = ([], [], refl, refl, tt, tt)
  copied-AddsInside (copy_error text) disk = ([], [], refl, refl, tt, tt)
  copied-AddsInside (archive entries ending) disk =
      untar-AddsInside daemon.temp_dir fresh.rooted entries ending disk

  copied_undone :
      remove_all daemon.temp_dir (copy_results_from_container daemon daemon.temp_dir made.disk).1
      ≡ host.disk
  copied_undone =
      remove_all-AddsInside daemon.temp_dir made.disk _ fresh.tidy
        (copied-AddsInside daemon.copied made.disk)
      ∙ undone

  module _ (opts : StartOptions) where
    abbrev handle : DockerHandle
    handle = handle_of opts

    abbrev HasLeft : Bool → DockerHost → Type 0
    HasLeft left ended =
        (remove_all daemon.temp_dir ended.disk ≡ host.disk)
        × (ended.containers
            ≡ (if left then daemon.container_id ∷ host.containers else host.containers))

    module _ (disk : Disk) (gone : remove_all daemon.temp_dir disk ≡ host.disk) where
      remove_container-HasLeft :
          (error : Option String)
          → HasLeft (is_some error) (
              remove_container
                (record daemon { remove_error = error })
                daemon.container_id
                (record begun {
                  disk = disk;
                  active = other_than daemon.container_id begun.active;
                }))
      unfolding remove_container
      remove_container-HasLeft none =
          (gone, rw (str_eq_refl daemon.container_id, fresh.no_container) refl)
      remove_container-HasLeft (some text) = (gone, refl)

    wait-HasLeft :
        (v : WaitEvent)
        → HasLeft
            (if is_status v then is_some daemon.remove_error else true)
            (wait (record daemon { wait_event = v }) handle begun).1
    unfolding wait collect copy_results_from_container remove_container
    wait-HasLeft (wait_error text) = (undone, refl)
    wait-HasLeft (context_done text) = (undone, refl)
    wait-HasLeft (status code error) =
        remove_container-HasLeft (copy_results_from_container daemon daemon.temp_dir made.disk).1
          copied_undone daemon.remove_error

    cleanup-HasLeft :
        (left : Bool) (ended : DockerHost)
        → HasLeft left ended
        → Leaves daemon host left (cleanup daemon handle ended).1
    unfolding cleanup
    cleanup-HasLeft left ended h = rw fresh.named h

    stop-HasLeft :
        (left : Bool) (error : Option String) (ended : DockerHost)
        → HasLeft left ended
        → HasLeft left (stop (record daemon { stop_error = error }) handle ended)
    unfolding stop
    stop-HasLeft left none ended h = h
    stop-HasLeft left (some text) ended h = h

    -- What a container leaves that was started.
    abbrev still_there : Bool
    still_there = if is_status daemon.wait_event then is_some daemon.remove_error else true

    -- After the wait, by its error and the deadline.
    finish_waited :
        (failed timed : Bool) (ended : DockerHost)
        → HasLeft still_there ended
        → Leaves daemon host still_there
            (cleanup daemon handle
              (if failed then (if timed then stop daemon handle ended else ended) else ended)).1
    finish_waited false timed ended left = cleanup-HasLeft still_there ended left
    finish_waited true false ended left = cleanup-HasLeft still_there ended left
    finish_waited true true ended left =
        cleanup-HasLeft still_there (stop daemon handle ended)
          (stop-HasLeft still_there daemon.stop_error ended left)

    finish_running : Leaves daemon host still_there (after (running handle, begun))
    unfolding finish_execution docker_runtime
    finish_running =
        let (ret, ended) = wait daemon handle begun in
        finish_waited (is_some ret.err) late ended (wait-HasLeft daemon.wait_event)

    -- The steps of Start, each with what a failure leaves.
    start_container-Leaves :
        (error : Option String)
        → Leaves daemon host (if is_some error then true else still_there) (
            after (
              start_container
                (record daemon { start_error = error })
                (map_to_env_list (set_env "JOBPLANE_OUTPUT_DIR" container_output_dir opts.env))
                created))
    unfolding finish_execution start_container
    start_container-Leaves (some text) = (undone, refl)
    start_container-Leaves none = finish_running

    create_container-Leaves :
        (error : Option String)
        → Leaves daemon host
            (if is_some error
              then false
              else if is_some daemon.start_error
              then true
              else still_there)
            (after (create_container (record daemon { create_error = error }) opts made))
    unfolding finish_execution create_container start_container
    create_container-Leaves (some text) = (undone, refl)
    create_container-Leaves none = start_container-Leaves daemon.start_error

    start_in-Leaves :
        (has_image : Bool) (error : Option String)
        → Leaves daemon host
            (if is_some (if has_image then none else error)
              then false
              else if is_some daemon.create_error
              then false
              else if is_some daemon.start_error
              then true
              else still_there)
            (after
              (start_in (record daemon { has_image = has_image; pull_error = error }) opts made))
    unfolding finish_execution start_in create_container start_container
    start_in-Leaves true error = create_container-Leaves daemon.create_error
    start_in-Leaves false none = create_container-Leaves daemon.create_error
    start_in-Leaves false (some text) = (undone, refl)

    start-Leaves :
        (error : Option String)
        → Leaves daemon host
            (leaves_container (record daemon { mkdir_error = error }))
            (after (start (record daemon { mkdir_error = error }) opts host))
    unfolding finish_execution start start_in create_container start_container
    start-Leaves (some text) = (refl, refl)
    start-Leaves none = start_in-Leaves daemon.has_image daemon.pull_error

-- Whatever the daemon answers, an execution leaves no directory and no file on the worker's disk,
-- where os.RemoveAll removes all and the temporary directory is new, absolute and clean. It leaves a
-- container exactly where one was created and then was not started, did not end before the wait
-- did, as by the deadline, or was not removed.
pub docker_run-Leaves :
    (daemon : Daemon) (late : Bool) (host : DockerHost) (opts : StartOptions)
    → daemon.removal ≡ removed
    → IsFresh daemon host
    → Leaves daemon host
        (leaves_container daemon)
        (run_execution (docker_runtime daemon) late opts host).1
unfolding run_execution docker_runtime start
docker_run-Leaves daemon late host opts clean_up =
    subst
      (λ d.
        IsFresh d host
        → Leaves d host (leaves_container d) (run_execution (docker_runtime d) late opts host).1)
      (ap (λ r. record daemon { removal = r }) (sym clean_up))
      (λ fresh. start-Leaves daemon late host fresh opts daemon.mkdir_error)
