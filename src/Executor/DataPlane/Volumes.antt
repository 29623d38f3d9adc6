-- ===== src/Executor/DataPlane/Volumes.antt =====
-- `restoreVolumes` (executor_restore.go).
pub mod Quiet
use admiral_fleet.Prelude.{Text, List, [], ◌∷◌, is_empty, if◌then◌else◌, map}
use admiral_fleet.Fleet.Task.{FleetTask, ServiceInfo}
use admiral_fleet.Fleet.Effects.{
  Act, Call, stop, start, volume_inspect, extract_volume, pure, fail, ◌>>=◌, ◌>>◌, or_fail,
  for_each, command, read,
}
use admiral_fleet.Fleet.Paths.{slash}
use admiral_fleet.Quadlet.Names.{container_unit_name}
use admiral_fleet.Executor.Archive.{Target, services_with_volumes, volume_targets}
use admiral_fleet.Executor.Report.{
  Failure, failed, stop_for_restore, start_after_restore, inspect_volume, restore_volume,
  volume_without_mountpoint, no_volume_services,
}
use admiral_fleet.Prelude.{◌++◌}

-- The units of the services that own the volumes.
abbrev pub owning_units : FleetTask → List Text
owning_units task =
    map (λ svc. container_unit_name task.instance_id svc.name)
      (services_with_volumes task.backup task.services)

abbrev pub stop_owners : List Text → Act Failure (Unit {0})
stop_owners units =
    for_each units λ unit. or_fail (command (stop unit)) (failed (stop_for_restore unit))

abbrev pub start_owners : List Text → Act Failure (Unit {0})
start_owners units =
    for_each units λ unit. or_fail (command (start unit)) (failed (start_after_restore unit))

abbrev pub extract_to : Text → Target → Text → Act Failure (Unit {0})
extract_to artifact target mountpoint =
    if is_empty mountpoint
    then fail (volume_without_mountpoint target.volume)
    else or_fail
        (command (extract_volume artifact mountpoint (target.archive_prefix ++ slash ∷ [])))
        (failed (restore_volume target.volume))

-- The loop over the volumes: the answer of `volume inspect` is the mount point that
-- `extractMountPoint` reads.
unfoldable pub extract_targets : Text → List Target → Act Failure (Unit {0})
unfolding for_each read ◌>>=◌ or_fail command fail
extract_targets artifact targets = for_each targets λ target. do
  mountpoint ← or_fail (read (volume_inspect target.volume)) (failed (inspect_volume target.volume))
  extract_to artifact target mountpoint

abbrev pub some_targets : List Target → Act Failure (Unit {0})
some_targets [] = fail no_volume_services
some_targets (t ∷ ts) = pure tt

-- `restoreVolumes`: an error leaves the stopped units stopped.
unfoldable pub restore_volumes : FleetTask → Text → Act Failure (Unit {0})
unfolding for_each ◌>>=◌ or_fail command pure fail extract_targets volume_targets
    services_with_volumes
restore_volumes task artifact = do
  some_targets (volume_targets task)
  stop_owners (owning_units task)
  extract_targets artifact (volume_targets task)
  start_owners (owning_units task)
