-- ===== src/Executor/Restore/Prepare.antt =====
-- What precedes the change of data in a restore keeps what calls that change no data keep.
use admiral_fleet.Prelude.{Text, Bool, true, false}
use admiral_fleet.Fleet.Task.{FleetTask, RestoreInfo}
use admiral_fleet.Fleet.Effects.{
  Result, ok, err, Log, pure, fail, ◌>>=◌, or_fail, command, Call, extract_volume,
  copy_to_container, database_exec,
}
use admiral_fleet.Fleet.Effects.Keeps.{Keeps, Closed, call_rules, Keeps-fail}
use admiral_fleet.Executor.Files.{load_host_ports}
use admiral_fleet.Executor.Lifecycle.{unit_names}
use admiral_fleet.Executor.DataPlane.Location.{LocationError, resolve_local_backup_path, check_root}
use admiral_fleet.Executor.Restore.{
  RestoreSettings, start_restore_containers, unpause_for_restore, recreate_for_restore, find_local,
  fetch_restore_artifact, prepare_restore, prepared,
}

-- The calls that change no data of the instance.
abbrev pub is_no_data : Call → Bool
is_no_data (extract_volume a m p) = false
is_no_data (copy_to_container raw c) = false
is_no_data (database_exec c args) = false
is_no_data _ = true

module _ {P : Log → Type 0} (closed : Closed P is_no_data) where
  prepared-Keeps : (task : FleetTask) (r : Result Text (Unit {0})) → Keeps P (prepared task r)
  unfolding unpause_for_restore recreate_for_restore load_host_ports unit_names
  prepared-Keeps task (ok x) = search (call_rules, closed) depth 40 fits 4000
  prepared-Keeps task (err e) = search (call_rules, closed) depth 40 fits 4000

  pub start_restore_containers-Keeps : (task : FleetTask) → Keeps P (start_restore_containers task)
  unfolding start_restore_containers
  start_restore_containers-Keeps task =
      search (call_rules, closed, prepared-Keeps) depth 40 fits 4000

  check_root-Keeps : (root : Text) (r : Result LocationError Text) → Keeps P (check_root root r)
  unfolding fail pure ◌>>=◌ or_fail command
  check_root-Keeps root (ok p) = search (call_rules, closed) depth 40 fits 4000
  check_root-Keeps root (err p) = Keeps-fail p

  find_local-Keeps : (d k : Text) → Keeps P (find_local d k)
  unfolding find_local resolve_local_backup_path
  find_local-Keeps d k = search (call_rules, closed, check_root-Keeps) depth 40 fits 4000

  fetch-Keeps : (d : Text) (info : RestoreInfo) → Keeps P (fetch_restore_artifact d info)
  unfolding fetch_restore_artifact
  fetch-Keeps d info = search (call_rules, closed, find_local-Keeps) depth 40 fits 4000

  pub prepare_restore-Keeps :
      (s : RestoreSettings) (task : FleetTask) (info : RestoreInfo)
      → Keeps P (prepare_restore s task info)
  unfolding prepare_restore
  prepare_restore-Keeps s task info =
      search (call_rules, closed, fetch-Keeps, start_restore_containers-Keeps) depth 40 fits 4000
