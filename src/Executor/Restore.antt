-- ===== src/Executor/Restore.antt =====
-- `restoreBackup` (executor_restore.go): the artifact is fetched and applied, and the instance is
-- left paused. The downloads are calls of the node, and the data helper is a handler of its own.
pub mod Prepare
pub mod Paused
pub mod Stopped
use admiral_fleet.Prelude.{
  Text, codes, Bool, true, false, not, List, [], ◌∷◌, Option, none, some, eq_text, is_blank,
  to_lower, trim_space, if◌then◌else◌, ◌||◌, ◌&&◌,
}
use admiral_fleet.Fleet.Task.{FleetTask, RestoreInfo}
use admiral_fleet.Fleet.Effects.{
  Result, ok, err, Act, World, Call, container_exists, pod_is_paused, pod_pause, pod_unpause,
  render, chown_instance_data, daemon_reload, start, stat, read_file, backup_file, download_https,
  download_s3, pure, fail, ◌>>=◌, ◌>>◌, or_fail, observe, for_each, when, command, ask, read,
}
use admiral_fleet.Quadlet.Names.{pod_name, container_name}
use admiral_fleet.Executor.Report.{
  Failure, Report, Metadata, TaskResult, failed, failing, succeeding, inspect_pause_state,
  unpause_pod, render_quadlet, chown_data, reload_systemd, start_unit, check_artifact,
  artifact_not_resolved, artifact_not_accessible, storage_not_supported, download_failed,
  checksum_mismatch, backup_type_not_supported, restore_metadata_required, backup_id_required,
  storage_key_required, not_paused, not_paused_after_failure, crashed, restored, evidence,
}
use admiral_fleet.Executor.Files.{load_host_ports, is_ok}
use admiral_fleet.Executor.Lifecycle.{unit_names, start_units}
use admiral_fleet.Executor.DataPlane.Location.{
  LocationError, key_required, no_relative_path, escapes_root, root_not_managed,
  resolve_local_backup_path,
}
use admiral_fleet.Executor.DataPlane.Checksum.{
  Digests, checksum_artifact, checksum_matches, verify_restore_checksum,
}
use admiral_fleet.Executor.DataPlane.Volumes.{restore_volumes}
use admiral_fleet.Executor.DataPlane.Database.{restore_database}

-- The fields of `SystemdPodmanExecutor` that a restore reads; `delegate` is `delegateDataTask`.
pub record RestoreSettings : Type 0 where
  pub delegate_restore : Bool
  pub restore_containers_ready : Bool
  pub data_dir : Text
  pub digests : Digests
  pub delegate : FleetTask → TaskResult → World → TaskResult × World

-- Containers that exist may be paused: the pod is unpaused.
unfoldable pub unpause_for_restore : Text → Act Failure (Unit {0})
unfolding ◌>>=◌ pure or_fail ask command
unpause_for_restore pod = do
  paused ← or_fail (ask (pod_is_paused pod)) (failed inspect_pause_state)
  when paused (or_fail (command (pod_unpause pod)) (failed unpause_pod))

-- Containers that do not exist are rendered and started.
unfoldable pub recreate_for_restore : FleetTask → Act Failure (Unit {0})
unfolding ◌>>=◌ pure or_fail command for_each load_host_ports unit_names
recreate_for_restore task = do
  m ← load_host_ports task.instance_id
  or_fail (command (render task m)) (failed render_quadlet)
  or_fail (command (chown_instance_data task.instance_id)) (failed chown_data)
  or_fail (command daemon_reload) (failed reload_systemd)
  start_units (unit_names task)

abbrev pub prepared : FleetTask → Result Text (Unit {0}) → Act Failure (Unit {0})
prepared task (ok _) = unpause_for_restore (pod_name task.instance_id)
prepared task (err _) = recreate_for_restore task

-- `startRestoreContainers`
unfoldable pub start_restore_containers : FleetTask → Act Failure (Unit {0})
unfolding ◌>>=◌ observe command unpause_for_restore recreate_for_restore
start_restore_containers task = do
  r ← observe (command (container_exists (container_name task.instance_id (codes "infra"))))
  prepared task r

abbrev pub location_text : LocationError → Text
location_text key_required = codes "backup key is required"
location_text no_relative_path = codes "compute relative backup path"
location_text (escapes_root path root) = path
location_text (root_not_managed e) = e

abbrev is_local : Text → Bool
is_local backend =
    eq_text backend (codes "local") || eq_text backend (codes "local_path") || eq_text backend []

-- A local artifact must lie below the backup root and be there.
unfoldable pub find_local : Text → Text → Act Failure Text
unfolding ◌>>=◌ pure or_fail command resolve_local_backup_path
find_local data_dir key = do
  path ←
      or_fail (resolve_local_backup_path data_dir key)
        (λ e. artifact_not_resolved key (location_text e))
  or_fail (command (stat (backup_file path))) (artifact_not_accessible path)
  pure path

-- `fetchRestoreArtifact`
unfoldable pub fetch_restore_artifact : Text → RestoreInfo → Act Failure Text
unfolding find_local fail or_fail read eq_text to_lower trim_space
fetch_restore_artifact data_dir info =
    let backend = to_lower (trim_space info.storage_backend) in
    if is_local backend
    then find_local data_dir info.storage_key
    else if eq_text backend (codes "https")
    then or_fail (read (download_https info.storage_key)) download_failed
    else if eq_text backend (codes "s3")
    then or_fail (read (download_s3 info.storage_key)) download_failed
    else fail (storage_not_supported info.storage_backend)

abbrev pub needs_payload : Digests → Text → Result Text Text → Bool
needs_payload d expected r = elim (checksum_artifact d r) [
  | ok actual ↦ not (checksum_matches expected actual)
  | err e ↦ false
]

abbrev pub accept_checksum : Result Text (Bool × Text) → Act Failure (Unit {0})
accept_checksum (err e) = fail (failed check_artifact e)
accept_checksum (ok (true, actual)) = pure tt
accept_checksum (ok (false, actual)) = fail (checksum_mismatch actual)

abbrev pub read_again : Text → Bool → Result Text Text → Act Failure (Result Text Text)
read_again path true r = observe (read (read_file (backup_file path)))
read_again path false r = pure r

-- The check that `applyRestoreArtifact` begins with.
unfoldable pub check_checksum : Digests → RestoreInfo → Text → Act Failure (Unit {0})
unfolding ◌>>=◌ pure fail observe read verify_restore_checksum checksum_artifact checksum_matches
check_checksum d info path = when (info.verify_checksum && not (is_blank info.checksum_sha256)) (do
  first ← observe (read (read_file (backup_file path)))
  again ← read_again path (needs_payload d info.checksum_sha256 first) first
  accept_checksum (verify_restore_checksum d info.checksum_sha256 first again))

-- The `switch` on the type of the backup: is it of a database, is it of volumes?
unfoldable pub apply_as : Bool → Bool → FleetTask → RestoreInfo → Text → Act Failure (Unit {0})
unfolding fail restore_database restore_volumes
apply_as true v task info path = restore_database task info path
apply_as false true task info path = restore_volumes task path
apply_as false false task info path = fail (backup_type_not_supported info.backup_type)

-- `applyRestoreArtifact`
unfoldable pub apply_restore_artifact :
    Digests → FleetTask → RestoreInfo → Text → Act Failure (Unit {0})
unfolding ◌>>=◌ check_checksum apply_as eq_text
apply_restore_artifact d task info path = do
  check_checksum d info path
  apply_as (eq_text info.backup_type (codes "database")) (eq_text info.backup_type (codes "volume"))
      task info path

-- The error after a failed pause.
abbrev pause_error : Option Failure → Text → Failure
pause_error none e = not_paused e
pause_error (some f) e = not_paused_after_failure f e

abbrev pub paused_result : TaskResult → Result Text (Unit {0}) → TaskResult
paused_result result (ok _) = result
paused_result result (err e) = failing result (pause_error result.error e)

-- `pauseAfterRestore`; a task has always a unit
unfoldable pub pause_after_restore : FleetTask → TaskResult → World → TaskResult × World
unfolding command failing
pause_after_restore task result w =
    let (r, w') = command (pod_pause (pod_name task.instance_id)) w in (paused_result result r, w')

-- What is reported of the applied artifact. After a crash there is no handler any more that pauses.
abbrev pub report_restore :
    FleetTask → RestoreInfo → TaskResult → Result Failure (Unit {0}) → World → TaskResult × World
report_restore task info result (ok _) w =
    pause_after_restore task (succeeding result (restored info.backup_id, evidence info.backup_id))
      w
report_restore task info result (err crashed) w = (failing result crashed, w)
report_restore task info result (err f) w = pause_after_restore task (failing result f) w

abbrev pub apply_and_pause :
    RestoreSettings
    → FleetTask
    → RestoreInfo
    → TaskResult
    → Result Failure Text
    → World
    → TaskResult × World
apply_and_pause s task info result (err f) w = (failing result f, w)
apply_and_pause s task info result (ok path) w =
    let (r, w') = apply_restore_artifact s.digests task info path w in
    report_restore task info result r w'

-- The artifact, with the containers ready.
unfoldable pub prepare_restore : RestoreSettings → FleetTask → RestoreInfo → Act Failure Text
unfolding ◌>>=◌ pure fetch_restore_artifact start_restore_containers
prepare_restore s task info = do
  path ← fetch_restore_artifact s.data_dir info
  when (not s.restore_containers_ready) (start_restore_containers task)
  pure path

abbrev pub delegate_and_pause :
    RestoreSettings
    → FleetTask
    → TaskResult
    → Result Failure (Unit {0})
    → World
    → TaskResult × World
delegate_and_pause s task result (err f) w = (failing result f, w)
delegate_and_pause s task result (ok _) w =
    let (result', w') = s.delegate task result w in pause_after_restore task result' w'

unfoldable pub restore_with :
    RestoreSettings → FleetTask → RestoreInfo → TaskResult → World → TaskResult × World
unfolding prepare_restore start_restore_containers apply_restore_artifact pause_after_restore
    failing succeeding
restore_with s task info result w =
    if s.delegate_restore
    then delegate_and_pause s task result (start_restore_containers task w).0
        (start_restore_containers task w).1
    else apply_and_pause s task info result (prepare_restore s task info w).0
        (prepare_restore s task info w).1

-- What a restore needs to know.
unfoldable pub restore_request : FleetTask → Result Failure RestoreInfo
unfolding trim_space
restore_request task = elim task.restore [
  | none ↦ err restore_metadata_required
  | some info ↦
      if is_blank info.backup_id
      then err backup_id_required
      else if is_blank info.storage_key
      then err storage_key_required
      else ok info
]

abbrev pub on_request :
    RestoreSettings
    → FleetTask
    → TaskResult
    → Result Failure RestoreInfo
    → World
    → TaskResult × World
on_request s task result (err f) w = (failing result f, w)
on_request s task result (ok info) w = restore_with s task info result w

-- `restoreBackup`
unfoldable pub restore_backup :
    RestoreSettings → FleetTask → TaskResult → World → TaskResult × World
unfolding restore_request restore_with failing
restore_backup s task result w = on_request s task result (restore_request task) w
