-- ===== src/Executor/DataPlane/Database.antt =====
-- `restoreDatabase` (executor_restore.go) with its helpers (executor_helpers.go, executor_backup.go).
use admiral_fleet.Prelude.{
  Text, codes, ℕ, zero, suc, Bool, true, false, List, [], ◌∷◌, Option, none, some, eq_text,
  is_empty, is_blank, contains, to_lower, trim_space, if◌then◌else◌,
}
use admiral_fleet.Fleet.Task.{FleetTask, ServiceInfo, BackupInfo, RestoreInfo}
use admiral_fleet.Fleet.Effects.{
  Result, ok, err, Act, Call, container_exists, is_volume_archive, expand_gzip, clean_up_artifact,
  open_file, wait_database, copy_to_container, database_exec, pure, fail, ◌>>=◌, ◌>>◌, or_fail,
  observe, command, ask, read,
}
use admiral_fleet.Quadlet.Names.{container_name}
use admiral_fleet.Executor.Report.{
  Failure, failed, inspect_artifact, open_dump, interrupted, database_ready, copy_artifact,
  run_restore, service_required, service_not_found, env_missing, crashed,
}
use admiral_fleet.Executor.DataPlane.Volumes.{restore_volumes}

-- What `normalizeDatabaseType` gives.
pub data Engine : Type 0 where
  postgresql mysql mariadb : Engine

-- `normalizeDatabaseType`
unfoldable pub normalize_database_type : Text → Engine
unfolding to_lower trim_space eq_text
normalize_database_type explicit =
    let v = to_lower (trim_space explicit) in
    if eq_text v (codes "mysql")
    then mysql
    else if eq_text v (codes "mariadb")
    then mariadb
    else postgresql

-- The name of an engine
abbrev pub engine_name : Engine → Text
engine_name postgresql = codes "postgresql"
engine_name mysql = codes "mysql"
engine_name mariadb = codes "mariadb"

-- `findService`, `none` for the service without a name
unfoldable pub find_service : List ServiceInfo → Text → Option ServiceInfo
unfolding eq_text
find_service [] name = none
find_service (svc ∷ services) name =
    let later = find_service services name in if eq_text svc.name name then some svc else later

-- The value of a key of a Go map.
unfoldable pub lookup : List (Text × Text) → Text → Option Text
unfolding eq_text
lookup [] key = none
lookup ((k, v) ∷ m) key = let later = lookup m key in if eq_text k key then some v else later

abbrev pub first_of : Option Text → Option Text → Option Text
first_of (some v) o = some v
first_of none o = o

-- `lookupEnv`
unfoldable pub lookup_env : ServiceInfo → Text → Option Text
unfolding lookup
lookup_env svc key = first_of (lookup svc.env key) (lookup svc.secrets key)

abbrev pub given : Text → Option Text → Act Failure Text
given key none = fail (env_missing key)
given key (some v) = if is_blank v then fail (env_missing key) else pure v

-- A variable of the service that must be there and not blank.
abbrev pub required_env : ServiceInfo → Text → Act Failure Text
required_env svc key = given key (lookup_env svc key)

abbrev pub unless_there : Act Text (Unit {0}) → Result Text (Unit {0}) → Act Text (Unit {0})
unless_there next (ok _) = pure tt
unless_there next (err e) = command Call.wait >> next

-- The loop that waits for the container. Only a cancelled wait ends it with an error: the `err` of the
-- look is declared again inside the loop, so that the variable `existsErr` that is tested after the
-- loop is always assigned nil, and the restore goes on when the container was never there.
unfoldable pub await_container : ℕ → Text → Act Text (Unit {0})
unfolding ◌>>=◌ pure observe command
await_container zero container = pure tt
await_container (suc n) container = do
  r ← observe (command (container_exists container))
  unless_there (await_container n container) r

-- The client with which a dump is loaded.
unfoldable pub restore_client : Engine → Text → Text
unfolding contains to_lower
restore_client mariadb image = codes "mariadb"
restore_client engine image =
    if contains (to_lower image) (codes "mariadb") then codes "mariadb" else codes "mysql"

abbrev pub dump_path : Text
dump_path = codes "/tmp/admiral-restore.dump"

-- The command that loads the dump; the password is in its environment.
abbrev pub load : Engine → Text → Text → Text → Text → Text → Act Failure (Unit {0})
load postgresql container image raw user database =
    or_fail
      (command (
        database_exec container (
          codes "pg_restore"
          ∷ codes "--clean"
          ∷ codes "--if-exists"
          ∷ codes "--no-owner"
          ∷ codes "--no-privileges"
          ∷ codes "-Fc"
          ∷ codes "-h"
          ∷ codes "127.0.0.1"
          ∷ codes "-U"
          ∷ user
          ∷ codes "-d"
          ∷ database
          ∷ dump_path
          ∷ [])))
      (failed (run_restore container))
load engine container image raw user database = do
  or_fail (command (open_file raw)) (failed open_dump)
  or_fail
      (command (
        database_exec container (
          restore_client engine image
          ∷ codes "-h"
          ∷ codes "127.0.0.1"
          ∷ codes "-u"
          ∷ user
          ∷ database
          ∷ [])))
      (failed (run_restore container))

-- What happens with an expanded dump: up to 15 looks at the container.
unfoldable pub load_dump : Engine → Text → Text → Text → Text → Text → Act Failure (Unit {0})
unfolding ◌>>=◌ pure fail or_fail command await_container restore_client
load_dump engine container image raw user database = do
  or_fail (await_container 15 container) interrupted
  or_fail (command (wait_database container (engine_name engine)))
      (failed (database_ready container))
  or_fail (command (copy_to_container raw container)) (failed (copy_artifact container))
  load engine container image raw user database

abbrev pub returning : {A : Type 0} → Result Failure A → Act Failure A
returning (ok a) = pure a
returning (err e) = fail e

-- `defer e.cleanupRestoreArtifact(raw)`
unfoldable pub with_cleanup : Text → Act Failure (Unit {0}) → Act Failure (Unit {0})
unfolding ◌>>=◌ pure fail observe command
with_cleanup raw m = do r ← observe m; observe (command (clean_up_artifact raw)); returning r

-- An archive of volumes is restored as such, a dump is expanded and loaded.
unfoldable pub restore_content :
    FleetTask → RestoreInfo → ServiceInfo → Text → Text → Text → Bool → Act Failure (Unit {0})
unfolding ◌>>=◌ or_fail read restore_volumes load_dump with_cleanup normalize_database_type
restore_content task info svc artifact user database true = restore_volumes task artifact
restore_content task info svc artifact user database false = do
  raw ← or_fail (read (expand_gzip artifact)) (failed inspect_artifact)
  with_cleanup raw (
      load_dump (normalize_database_type info.database_type)
        (container_name task.instance_id svc.name) svc.image raw user database)

-- From the credentials on.
unfoldable pub restore_service :
    FleetTask → RestoreInfo → ServiceInfo → BackupInfo → Text → Act Failure (Unit {0})
unfolding ◌>>=◌ fail pure or_fail ask lookup_env restore_content
restore_service task info svc b artifact = do
  database ← required_env svc b.database_env
  user ← required_env svc b.username_env
  required_env svc b.password_env
  archive ← or_fail (ask (is_volume_archive artifact)) (failed inspect_artifact)
  restore_content task info svc artifact user database archive

-- `task.Backup.DatabaseEnv` without backup metadata is a nil dereference.
abbrev pub with_backup :
    FleetTask → RestoreInfo → Text → ServiceInfo → Option BackupInfo → Act Failure (Unit {0})
with_backup task info artifact svc none = fail crashed
with_backup task info artifact svc (some b) = restore_service task info svc b artifact

abbrev pub with_service :
    FleetTask → RestoreInfo → Text → Option ServiceInfo → Act Failure (Unit {0})
with_service task info artifact none = fail (service_not_found info.service)
with_service task info artifact (some svc) = with_backup task info artifact svc task.backup

-- `restoreDatabase`
unfoldable pub restore_database : FleetTask → RestoreInfo → Text → Act Failure (Unit {0})
unfolding fail find_service restore_service
restore_database task info artifact =
    if is_empty info.service
    then fail service_required
    else with_service task info artifact (find_service task.services info.service)
