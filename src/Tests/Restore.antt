-- ===== src/Tests/Restore.antt =====
-- Restores at concrete inputs.
use admiral_fleet.Prelude.{
  Text, codes, length, false, [], some, refl, eq_text, trim_space, trim_left, is_space,
}
use admiral_fleet.Fleet.Task
use admiral_fleet.Fleet.Task.{FleetTask, RestoreInfo, BackupInfo}
use admiral_fleet.Fleet.Effects.{
  Result, ok, Call, Value, Log, fresh, output, volume_inspect, nothing, command, pure, ◌>>=◌,
  perform, or_fail, err, container_exists, observe,
}
use admiral_fleet.Fleet.Paths.{
  clean, components, resolve, split, join, join_path, rel, rel_components,
}
use admiral_fleet.Quadlet.Names.{pod_name}
use admiral_fleet.Executor.DataPlane.Location.{
  resolve_local_backup_path, locate, candidate, local_backup_root,
}
use admiral_fleet.Executor.DataPlane.Location.Below.{Under, resolve_local_backup_path-Under}
use admiral_fleet.Executor.DataPlane.Database.{await_container}
use admiral_fleet.Executor.DataPlane.Volumes.{owning_units}
use admiral_fleet.Executor.DataPlane.Volumes.Quiet.{Guarded}
use admiral_fleet.Executor.Restore.{RestoreSettings, restore_backup}
use admiral_fleet.Executor.Restore.Stopped.{restore_backup-Guarded}
use admiral_fleet.Executor.Restore.Paused.{LeftPaused, restore_backup-LeftPaused}
use admiral_fleet.Executor.DataPlane.Origin.{
  Network, Trust, Url, v4, v6, follow, new_restore_client, pin_url, resolve_url,
  resolve_restore_host, addresses_of, all_or, is_usable, is_restricted_ip, is_loopback, is_private,
  is_unspecified, is_link_local_unicast, in_restricted_block, trusted_restore_ip, dial_addresses,
}
use admiral_fleet.Executor.DataPlane.Origin.Pinned.{MayDial, dial_addresses-MayDial}
use admiral_fleet.Prelude.{All, none, to_lower, lower, ◌∷◌, ◌≡◌, true, false}
use admiral_fleet.Tests.Data.{task_of, blank, willing, no_file}

abbrev settings : RestoreSettings
settings = record {
  delegate_restore = false;
  restore_containers_ready = false;
  data_dir = codes "/data";
  digests = record { sha256_hex = λ s. s; gunzip = λ s. ok s };
  delegate = λ task result w. (result, w);
}

abbrev restoring : Text → FleetTask
restoring type = record (task_of Task.TaskAction.restore_backup) {
  restore = some (record {
    backup_id = codes "b1";
    backup_type = type;
    storage_backend = codes "local";
    storage_key = codes "inst1/b1";
    service = codes "web";
    database_type = codes "mysql";
    verify_checksum = false;
    checksum_sha256 = [];
  });
}

-- A node on which every volume is mounted.
abbrev mounted : Log → Call → Result Text Value
mounted log (volume_inspect v) = ok (output (codes "/mnt"))
mounted log c = ok nothing

restore_backup-Guarded_example :
    Guarded
      (owning_units (restoring (codes "volume")))
      (restore_backup settings
        (restoring (codes "volume"))
        (blank (restoring (codes "volume")))
        (fresh mounted no_file)).1.log
restore_backup-Guarded_example =
    restore_backup-Guarded settings (restoring (codes "volume"))
      (blank (restoring (codes "volume"))) (fresh mounted no_file) refl tt

restore_backup-LeftPaused_example : LeftPaused (pod_name (codes "inst1")) (
    restore_backup settings
      (restoring (codes "volume"))
      (blank (restoring (codes "volume")))
      (fresh mounted no_file))
restore_backup-LeftPaused_example =
    restore_backup-LeftPaused settings (restoring (codes "volume"))
      (blank (restoring (codes "volume"))) (fresh mounted no_file) tt

resolve_local_backup_path-Under_example :
    Under (clean (local_backup_root (codes "/data"))) (codes "/data/backups/inst1/b1")
unfolding resolve_local_backup_path locate candidate local_backup_root clean components resolve
    split join join_path rel rel_components command pure ◌>>=◌ perform or_fail eq_text trim_space
    trim_left is_space
resolve_local_backup_path-Under_example =
    resolve_local_backup_path-Under (codes "/data") (codes "inst1//x/../b1")
      (codes "/data/backups/inst1/b1") (fresh willing no_file) refl refl

-- A resolver that answers with the public address 9.9.9.9.
abbrev network : Network
network = record {
  parse_ip = λ s. none;
  split_host_port = λ s. none;
  lookup_ip = λ host. ok (v4 151587081 ∷ []);
}

abbrev no_trust : Trust
no_trust = record { origin = []; path_prefix = []; addresses = []; ip = [] }

abbrev backup_url : Url
backup_url = record {
  scheme = codes "https";
  host = codes "backups";
  hostname = codes "backups";
  has_user = false;
  fragment = [];
  path = codes "/b1";
  customer_id = [];
  expires = [];
  signature = [];
}

dial_addresses-MayDial_example :
    All
      (MayDial network no_trust)
      (dial_addresses ((codes "backups", v4 151587081 ∷ []) ∷ []) (codes "backups"))
unfolding follow new_restore_client pin_url resolve_url resolve_restore_host addresses_of all_or
    is_usable is_restricted_ip is_loopback is_private is_unspecified is_link_local_unicast
    in_restricted_block trusted_restore_ip eq_text to_lower lower
dial_addresses-MayDial_example =
    dial_addresses-MayDial network no_trust backup_url []
      ((codes "backups", v4 151587081 ∷ []) ∷ []) (codes "backups") refl

-- The metadata service of cloud providers, the loopback address and a private one are restricted,
-- and an address of another documentation network is not.
restricted_addresses :
    (is_restricted_ip (v4 2852039166) ≡ true)
    × (is_restricted_ip (v4 2130706433) ≡ true)
    × (is_restricted_ip (v4 167772161) ≡ true)
    × (is_restricted_ip (v6 1) ≡ true)
    × (is_restricted_ip (v4 3325256705) ≡ false)
unfolding is_restricted_ip is_loopback is_private is_unspecified is_link_local_unicast
    in_restricted_block
restricted_addresses = (refl, refl, refl, refl, refl)

-- A node without the container of the database.
abbrev containerless : Log → Call → Result Text Value
containerless log (container_exists c) = err (codes "no such container")
containerless log c = ok nothing

-- The container is looked for 15 times, with a wait after each look, and the wait ends without an
-- error although it was never there.
container_never_there :
    ((await_container 15 (codes "db") (fresh containerless no_file)).0 ≡ ok tt)
    × (length (await_container 15 (codes "db") (fresh containerless no_file)).1.log ≡ 30)
unfolding await_container observe command perform pure ◌>>=◌
container_never_there = (refl, refl)
