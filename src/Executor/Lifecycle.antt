-- ===== src/Executor/Lifecycle.antt =====
-- `start`, `stop` and `resize` (executor_lifecycle.go), and `createPodmanSecrets`.
pub mod Rollback
pub mod FailFast
use admiral_fleet.Prelude.{
  Text, codes, Bool, true, false, List, [], ◌∷◌, ◌++◌, Option, none, some, if◌then◌else◌, eq_text,
  ◌||◌, any_of,
}
use admiral_fleet.Fleet.Task.{FleetTask, ServiceInfo, TaskAction, resume_app}
use admiral_fleet.Fleet.Effects.{
  Result, ok, err, Act, World, Call, start, stop, daemon_reload, pod_exists, pod_is_paused,
  pod_unpause, pull, secret_create, render, chown_instance_data, start_metadata, pure, fail,
  perform, ◌>>=◌, ◌>>◌, or_fail, observe, for_each, when, command, ask, read,
}
use admiral_fleet.Quadlet.Names.{pod_name, pod_unit_name, secret_name}
use admiral_fleet.Executor.Report.{
  Stage, Failure, Report, Metadata, TaskResult, failed, rolled_back, still_paused,
  invalid_memory_limit, conclude, inspect_pause_state, unpause_pod, verify_pause_state,
  persist_checks, render_quadlet, chown_data, create_secrets, pull_image, reload_systemd,
  collect_metadata, pod_not_found, stop_unit, start_unit, started, stopped, resized, evidence,
  no_metadata, target_tier,
}
use admiral_fleet.Executor.Files.{
  Ports, load_host_ports, write_service_health_checks, write_instance_tier_info,
}
use admiral_fleet.Executor.Limits.{has_valid_task_memory_limit}

-- `unitNames`: a task's one unit is its pod's.
unfoldable pub unit_names : FleetTask → List Text
unit_names task = pod_unit_name task.instance_id ∷ []

abbrev pub secret_calls : Text → ServiceInfo → List (Text × Text) → Act Text (Unit {0})
secret_calls instance_id svc secrets =
    for_each secrets λ kv. command (secret_create (secret_name instance_id svc.name kv.0) kv.1)

-- `createPodmanSecrets`
unfoldable pub create_podman_secrets : FleetTask → Act Text (Unit {0})
unfolding for_each command
create_podman_secrets task =
    for_each task.services λ svc. secret_calls task.instance_id svc svc.secrets

abbrev is_resume : TaskAction → Bool
is_resume resume_app = true
is_resume _ = false

-- The first part of `start`: a paused pod is unpaused, and seen not to be paused any more.
unfoldable pub resume_pod : Text → Act Failure (Unit {0})
unfolding ◌>>=◌ pure fail or_fail ask command
resume_pod pod = do
  paused ← or_fail (ask (pod_is_paused pod)) (failed inspect_pause_state)
  when paused (do
    or_fail (command (pod_unpause pod)) (failed unpause_pod)
    still ← or_fail (ask (pod_is_paused pod)) (failed verify_pause_state)
    when still (fail still_paused))

-- Each distinct image is pulled once, in the order of the services.
unfoldable pub pull_images : List Text → List ServiceInfo → Act Failure (Unit {0})
unfolding ◌>>=◌ pure or_fail command
pull_images seen [] = pure tt
pull_images seen (svc ∷ services) = do
  let again = any_of (λ image. eq_text image svc.image) seen
  when (if again then false else true) (or_fail (command (pull svc.image)) (failed pull_image))
  pull_images (if again then seen else svc.image ∷ seen) services

abbrev pub stop_units : List Text → Act Failure (Unit {0})
stop_units units = for_each units λ unit. or_fail (command (stop unit)) (failed (stop_unit unit))

abbrev pub start_units : List Text → Act Failure (Unit {0})
start_units units = for_each units λ unit. or_fail (command (start unit)) (failed (start_unit unit))

-- The body of `start`: what it fails with, or what it reports.
unfoldable pub start_body : FleetTask → Act Failure (Report × Metadata)
unfolding resume_pod load_host_ports write_service_health_checks create_podman_secrets pull_images
    unit_names read
start_body task = do
  when (is_resume task.action) (resume_pod (pod_name task.instance_id))
  m ← load_host_ports task.instance_id
  or_fail (write_service_health_checks task.instance_id task.services m) (failed persist_checks)
  or_fail (command (render task m)) (failed render_quadlet)
  or_fail (command (chown_instance_data task.instance_id)) (failed chown_data)
  or_fail (create_podman_secrets task) (failed create_secrets)
  when task.verify_images (pull_images [] task.services)
  when task.verify_images (stop_units (unit_names task))
  or_fail (command daemon_reload) (failed reload_systemd)
  start_units (unit_names task)
  e ← or_fail (read (start_metadata task.instance_id)) (failed collect_metadata)
  pure (started task.instance_id, evidence e)

-- `start`
unfoldable pub start_app : FleetTask → TaskResult → World → TaskResult × World
unfolding start_body conclude
start_app task result = conclude result (start_body task)

-- `stop`
unfoldable pub stop_app : FleetTask → TaskResult → World → TaskResult × World
unfolding unit_names conclude for_each or_fail command ◌>>=◌ pure
stop_app task result =
    conclude result (do stop_units (unit_names task); pure (stopped task.instance_id, no_metadata))

-- `restoreOnFailure`: every unit that was stopped is started again; the errors are collected.
unfoldable pub restore_units : {E : Type 0} → List Text → Act E (List (Text × Text))
unfolding ◌>>=◌ pure observe command
restore_units [] = pure []
restore_units (unit ∷ units) = do
  r ← observe (command (start unit))
  errors ← restore_units units
  pure (elim r [ ok _ ↦ errors | err e ↦ (unit, e) ∷ errors ])

abbrev pub rolling_back : {A : Type 0} → List Text → Stage → Result Text A → Act Failure A
rolling_back stopped_units stage (ok a) = pure a
rolling_back stopped_units stage (err e) = do
  errors ← restore_units stopped_units
  fail (rolled_back stage e errors)

-- A step of `resize` after the stop: if it fails, the units are started again.
unfoldable pub or_roll_back : {A : Type 0} → List Text → Stage → Act Text A → Act Failure A
unfolding ◌>>=◌ pure fail observe restore_units
or_roll_back stopped_units stage m = do r ← observe m; rolling_back stopped_units stage r

-- The loop that stops the units. It keeps those that stopped, and starts these again on an error,
-- whose message does not mention the outcome of the rollback.
unfoldable pub stop_for_resize : List Text → List Text → Act Failure (List Text)
unfolding ◌>>=◌ pure fail observe command restore_units
stop_for_resize stopped_units [] = pure stopped_units
stop_for_resize stopped_units (unit ∷ units) = do
  r ← observe (command (stop unit))
  elim r [
    | ok _ ↦ stop_for_resize (stopped_units ++ unit ∷ []) units
    | err e ↦ restore_units stopped_units >> fail (failed (stop_unit unit) e)
  ]

-- What `resize` does to the stopped instance.
unfoldable pub resize_stopped : FleetTask → List Text → Act Failure (Report × Metadata)
unfolding ◌>>=◌ pure observe load_host_ports write_service_health_checks write_instance_tier_info
    or_roll_back unit_names for_each command
resize_stopped task units = do
  m ← load_host_ports task.instance_id
  or_roll_back units persist_checks (write_service_health_checks task.instance_id task.services m)
  or_roll_back units render_quadlet (command (render task m))
  observe (write_instance_tier_info task.instance_id task.tier)
  or_roll_back units chown_data (command (chown_instance_data task.instance_id))
  or_roll_back units reload_systemd (command daemon_reload)
  for_each (unit_names task) λ unit. or_roll_back units (start_unit unit) (command (start unit))
  pure (resized task.instance_id, target_tier task.tier)

unfoldable pub resize_body : FleetTask → Act Failure (Report × Metadata)
unfolding stop_for_resize resize_stopped or_fail has_valid_task_memory_limit
resize_body task = do
  when (if has_valid_task_memory_limit task.tier.memory then false else true)
      (fail (invalid_memory_limit task.tier.memory))
  or_fail (command (pod_exists (pod_name task.instance_id))) (failed pod_not_found)
  units ← stop_for_resize [] (unit_names task)
  resize_stopped task units

-- `resize`, whose metadata is set before anything can fail
unfoldable pub resize_app : FleetTask → TaskResult → World → TaskResult × World
unfolding resize_body conclude
resize_app task result =
    conclude (record result { metadata = target_tier task.tier }) (resize_body task)
