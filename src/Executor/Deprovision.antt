-- ===== src/Executor/Deprovision.antt =====
-- `deprovision` (executor_deprovision.go) and `removePodmanSecrets`.
pub mod Cleanup
pub mod Plan
pub mod Frame
pub mod Safety
use admiral_fleet.Prelude.{
  Text, codes, Bool, true, false, List, [], ◌∷◌, ◌++◌, map, Option, none, some, if◌then◌else◌,
  is_empty, ◌||◌, ◌&&◌, contains, to_lower,
}
use admiral_fleet.Fleet.Task.{FleetTask, ServiceInfo}
use admiral_fleet.Fleet.Effects.{
  Result, ok, err, Act, World, Call, stop, disable, daemon_reload, reset_failed, remove_pod,
  remove_container, remove_volume, secret_remove, remove_quadlet, remove_all, instance_dir, pure,
  fail, ◌>>=◌, ◌>>◌, or_fail, observe, command,
}
use admiral_fleet.Security.{Refusal, validate_instance_id}
use admiral_fleet.Quadlet.Names.{
  pod_name, container_name, volume_name, shared_volume_name, secret_name, volume_unit_name,
  shared_volume_unit_name,
}
use admiral_fleet.Executor.Report.{
  Stage, Failure, Report, Metadata, TaskResult, failed, cleanup_failed, invalid_instance_id,
  conclude, deprovisioned, no_metadata, stop_unit, remove_quadlet_files, reload_systemd,
  remove_data_dir, local_removal,
}
use admiral_fleet.Executor.Lifecycle.{unit_names}

-- `isMissingUnitDuringDeprovision`, of the text of an error
unfoldable pub is_missing_unit : Text → Bool
is_missing_unit message =
    let m = to_lower message in
    contains m (codes "unit not found")
    || contains m (codes "unit not loaded")
    || contains m (codes "unit is not loaded")
    || contains m (codes "unit not available")
    || contains m (codes "notinstalled")
    || (contains m (codes "unit file") && contains m (codes "does not exist"))

-- `deprovisionUnitNames`
unfoldable pub volume_units : Text → List ServiceInfo → List Text
volume_units instance_id [] = []
volume_units instance_id (svc ∷ services) =
    let rest = volume_units instance_id services in
    if is_empty svc.volume then rest else volume_unit_name instance_id svc.name ∷ rest

unfoldable pub deprovision_unit_names : FleetTask → List Text
unfolding unit_names volume_units
deprovision_unit_names task =
    unit_names task
    ++ (volume_units task.instance_id task.services
        ++ map (shared_volume_unit_name task.instance_id) task.shared_volumes)

-- `cleanupErrs`
abbrev pub Errors : Type 0
Errors = List (Call × Text)

-- A clean-up action goes on after an error. It gives the errors that it keeps.
abbrev pub Cleanup : Type 0
Cleanup = Act Failure Errors

abbrev keep : Call → Result Text (Unit {0}) → Errors
keep c (ok _) = []
keep c (err e) = (c, e) ∷ []

-- A removal whose error is kept.
unfoldable pub attempt : Call → Cleanup
unfolding ◌>>=◌ pure observe command
attempt c = do r ← observe (command c); pure (keep c r)

-- One clean-up after the other, with the errors of both.
unfoldable pub both : Cleanup → Cleanup → Cleanup
unfolding ◌>>=◌ pure
both m k = do a ← m; b ← k; pure (a ++ b)

unfoldable pub each : {A : Type 0} → List A → (A → Cleanup) → Cleanup
unfolding both pure
each [] f = pure []
each (x ∷ xs) f = both (f x) (each xs f)

-- Disabling a unit: that it is missing is no error.
abbrev keep_unless_missing : Call → Result Text (Unit {0}) → Errors
keep_unless_missing c (ok _) = []
keep_unless_missing c (err e) = if is_missing_unit e then [] else (c, e) ∷ []

unfoldable pub disable_unit : Text → Cleanup
unfolding ◌>>=◌ pure observe command is_missing_unit
disable_unit unit = do
  r ← observe (command (disable unit))
  pure (keep_unless_missing (disable unit) r)

-- What follows the stop of a unit: a missing unit is not disabled.
abbrev pub after_stop : Text → Result Text (Unit {0}) → Cleanup
after_stop unit (ok _) = disable_unit unit
after_stop unit (err e) =
    if is_missing_unit e then pure [] else both (pure ((stop unit, e) ∷ [])) (disable_unit unit)

unfoldable pub retire_unit : Text → Cleanup
unfolding ◌>>=◌ observe command disable_unit both
retire_unit unit = do r ← observe (command (stop unit)); after_stop unit r

-- The container of a service, and its volume if it has one.
unfoldable pub remove_service : Text → ServiceInfo → Cleanup
unfolding both attempt pure
remove_service instance_id svc =
    both (attempt (remove_container (container_name instance_id svc.name))) (
      if is_empty svc.volume
      then pure []
      else attempt (remove_volume (volume_name instance_id svc.name)))

-- `removePodmanSecrets`
unfoldable pub remove_podman_secrets : FleetTask → Cleanup
unfolding each attempt
remove_podman_secrets task = each task.services λ svc.
    each svc.secrets λ kv. attempt (secret_remove (secret_name task.instance_id svc.name kv.0))

-- The clean-up of the running workload, in the order of the source.
unfoldable pub cleanup_runtime : FleetTask → Cleanup
unfolding both each retire_unit attempt remove_service remove_podman_secrets deprovision_unit_names
cleanup_runtime task = both (each (deprovision_unit_names task) retire_unit) (
    both (attempt (remove_pod (pod_name task.instance_id))) (
      both (each task.services (remove_service task.instance_id)) (
        both
          (each task.shared_volumes
            λ volume. attempt (remove_volume (shared_volume_name task.instance_id volume)))
          (remove_podman_secrets task))))

-- The removal of what a retry needs: Quadlet files and instance data. A failed `reset-failed` is
-- only logged.
unfoldable pub remove_metadata : Text → Act Failure (Report × Metadata)
unfolding ◌>>=◌ pure or_fail observe command
remove_metadata instance_id = do
  or_fail (command (remove_quadlet instance_id)) (failed remove_quadlet_files)
  or_fail (command daemon_reload) (failed reload_systemd)
  observe (command reset_failed)
  or_fail (command (remove_all (instance_dir instance_id))) (failed remove_data_dir)
  pure (deprovisioned instance_id, no_metadata)

-- `if err := errors.Join(cleanupErrs...); err != nil { … }`
abbrev pub unless_errors : Text → Errors → Act Failure (Report × Metadata)
unless_errors instance_id [] = remove_metadata instance_id
unless_errors instance_id (e ∷ es) = fail (cleanup_failed (e ∷ es))

-- The rest of `deprovision`, by what `ValidateInstanceID` says.
abbrev pub deprovision_accepted : FleetTask → Option Refusal → Act Failure (Report × Metadata)
deprovision_accepted task (some r) = fail (invalid_instance_id r)
deprovision_accepted task none = cleanup_runtime task >>= unless_errors task.instance_id

unfoldable pub deprovision_body : FleetTask → Act Failure (Report × Metadata)
unfolding ◌>>=◌ fail cleanup_runtime remove_metadata
deprovision_body task = deprovision_accepted task (validate_instance_id task.instance_id)

-- `deprovision`
unfoldable pub deprovision_app : FleetTask → TaskResult → World → TaskResult × World
unfolding deprovision_body conclude
deprovision_app task result = conclude result (deprovision_body task)
