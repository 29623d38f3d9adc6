-- ===== src/Executor/Restore/Stopped.antt =====
-- No step of a restore writes to a volume whose owners may run.
use admiral_fleet.Prelude.{
  Text, ℕ, zero, suc, Bool, true, false, List, Option, none, some, ◌≡◌, refl,
}
use admiral_fleet.Fleet.Task.{FleetTask, RestoreInfo, ServiceInfo, BackupInfo}
use admiral_fleet.Fleet.Effects.{
  Result, ok, err, World, Act, pod_pause, Call, extract_volume, command,
}
use admiral_fleet.Quadlet.Names.{pod_name}
use admiral_fleet.Fleet.Effects.Keeps.{
  Keeps, Closed, call_rules, Keeps-bind, Keeps-fail, Keeps-pure, Keeps-command,
}
use admiral_fleet.Executor.Report.{
  Failure, TaskResult, failing, succeeding, crashed, restored, evidence,
}
use admiral_fleet.Executor.DataPlane.Volumes.{owning_units}
use admiral_fleet.Executor.DataPlane.Volumes.Quiet.{
  Guarded, is_no_write, guarded-Closed, restore_volumes-Guarded,
}
use admiral_fleet.Executor.DataPlane.Database
use admiral_fleet.Executor.Restore.{
  RestoreSettings, check_checksum, apply_as, apply_restore_artifact, pause_after_restore,
  report_restore, apply_and_pause, prepare_restore, restore_with, restore_request, on_request,
  restore_backup, accept_checksum, read_again,
}
use admiral_fleet.Executor.DataPlane.Database.{
  restore_database, await_container, unless_there, load_dump, restore_service, restore_content,
  with_cleanup, required_env, given, with_service, with_backup, returning, Engine, load,
}
use admiral_fleet.Executor.Restore.Prepare.{is_no_data, prepare_restore-Keeps}

-- Of the calls that do not write to a volume, and the restore of volumes.
module _ (task : FleetTask) where
  closed : Closed (Guarded (owning_units task)) is_no_write
  closed = guarded-Closed (owning_units task)

  load-Keeps :
      (e : Engine) (c i r u d : Text) → Keeps (Guarded (owning_units task)) (load e c i r u d)
  load-Keeps Database.postgresql c i r u d = search (call_rules, closed) depth 40 fits 4000
  load-Keeps Database.mysql c i r u d = search (call_rules, closed) depth 40 fits 4000
  load-Keeps Database.mariadb c i r u d = search (call_rules, closed) depth 40 fits 4000

  unless_there-Keeps :
      (next : Act Text (Unit {0})) (r : Result Text (Unit {0}))
      → Keeps (Guarded (owning_units task)) next
      → Keeps (Guarded (owning_units task)) (unless_there next r)
  unless_there-Keeps next (ok x) h = Keeps-pure tt
  unless_there-Keeps next (err e) h =
      Keeps-bind (command Call.wait) (λ _. next) (Keeps-command closed Call.wait refl) (λ _. h)

  await_container-Keeps :
      (n : ℕ) (c : Text) → Keeps (Guarded (owning_units task)) (await_container n c)
  unfolding await_container
  await_container-Keeps zero c = Keeps-pure tt
  await_container-Keeps (suc n) c =
      search (call_rules, closed, unless_there-Keeps, await_container-Keeps n) depth 40 fits 4000

  load_dump-Keeps :
      (e : Engine) (c i r u d : Text) → Keeps (Guarded (owning_units task)) (load_dump e c i r u d)
  unfolding load_dump
  load_dump-Keeps e c i r u d =
      search (call_rules, closed, await_container-Keeps, load-Keeps) depth 40 fits 4000

  returning-Keeps :
      (r : Result Failure (Unit {0})) → Keeps (Guarded (owning_units task)) (returning r)
  returning-Keeps (ok x) = Keeps-pure x
  returning-Keeps (err e) = Keeps-fail e

  restore_content-Keeps :
      (info : RestoreInfo) (svc : ServiceInfo) (artifact user database : Text) (archive : Bool)
      → Keeps
          (Guarded (owning_units task))
          (restore_content task info svc artifact user database archive)
  unfolding restore_content with_cleanup
  restore_content-Keeps info svc artifact user database true = restore_volumes-Guarded task artifact
  restore_content-Keeps info svc artifact user database false =
      search (call_rules, closed, load_dump-Keeps, returning-Keeps) depth 40 fits 4000

  given-Keeps : (key : Text) (o : Option Text) → Keeps (Guarded (owning_units task)) (given key o)
  given-Keeps key none = Keeps-fail _
  given-Keeps key (some v) = search (call_rules, closed) depth 40 fits 4000

  restore_service-Keeps :
      (info : RestoreInfo) (svc : ServiceInfo) (b : BackupInfo) (artifact : Text)
      → Keeps (Guarded (owning_units task)) (restore_service task info svc b artifact)
  unfolding restore_service
  restore_service-Keeps info svc b artifact =
      search (call_rules, closed, given-Keeps, restore_content-Keeps) depth 40 fits 4000

  with_backup-Keeps :
      (info : RestoreInfo) (artifact : Text) (svc : ServiceInfo) (b : Option BackupInfo)
      → Keeps (Guarded (owning_units task)) (with_backup task info artifact svc b)
  with_backup-Keeps info artifact svc none = Keeps-fail crashed
  with_backup-Keeps info artifact svc (some b) = restore_service-Keeps info svc b artifact

  with_service-Keeps :
      (info : RestoreInfo) (artifact : Text) (o : Option ServiceInfo)
      → Keeps (Guarded (owning_units task)) (with_service task info artifact o)
  with_service-Keeps info artifact none = Keeps-fail _
  with_service-Keeps info artifact (some svc) = with_backup-Keeps info artifact svc task.backup

  restore_database-Keeps :
      (info : RestoreInfo) (artifact : Text)
      → Keeps (Guarded (owning_units task)) (restore_database task info artifact)
  unfolding restore_database
  restore_database-Keeps info artifact =
      search (call_rules, closed, with_service-Keeps) depth 40 fits 4000

  accept_checksum-Keeps :
      (r : Result Text (Bool × Text)) → Keeps (Guarded (owning_units task)) (accept_checksum r)
  accept_checksum-Keeps (err e) = Keeps-fail _
  accept_checksum-Keeps (ok (true, a)) = Keeps-pure tt
  accept_checksum-Keeps (ok (false, a)) = Keeps-fail _

  read_again-Keeps :
      (path : Text) (b : Bool) (r : Result Text Text)
      → Keeps (Guarded (owning_units task)) (read_again path b r)
  read_again-Keeps path true r = search (call_rules, closed) depth 40 fits 4000
  read_again-Keeps path false r = Keeps-pure r

  apply_as-Keeps :
      (d v : Bool) (info : RestoreInfo) (path : Text)
      → Keeps (Guarded (owning_units task)) (apply_as d v task info path)
  unfolding apply_as
  apply_as-Keeps true v info path = restore_database-Keeps info path
  apply_as-Keeps false true info path = restore_volumes-Guarded task path
  apply_as-Keeps false false info path = Keeps-fail _

  apply-Keeps :
      (s : RestoreSettings) (info : RestoreInfo) (path : Text)
      → Keeps (Guarded (owning_units task)) (apply_restore_artifact s.digests task info path)
  unfolding apply_restore_artifact check_checksum
  apply-Keeps s info path =
      search (call_rules, closed, accept_checksum-Keeps, read_again-Keeps, apply_as-Keeps) depth 40
        fits 4000

  pause-Keeps :
      (result : TaskResult) (w : World)
      → Guarded (owning_units task) w.log
      → Guarded (owning_units task) (pause_after_restore task result w).1.log
  unfolding pause_after_restore
  pause-Keeps result w h =
      (Keeps-command closed (pod_pause (pod_name task.instance_id)) refl).at w h

-- Calls that change no data keep what is known of the owners.
no_data-Closed : (units : List Text) → Closed (Guarded units) is_no_data
no_data-Closed units = record { step = λ c r l h. (guarded-Closed units).step c r l (no_write c h) }
  where
    no_write : (c : Call) → is_no_data c ≡ true → is_no_write c ≡ true
    no_write (extract_volume a m p) h = h
    no_write _ h = refl

report-Guarded :
    (task : FleetTask) (info : RestoreInfo) (result : TaskResult) (r : Result Failure (Unit {0}))
    (w : World)
    → Guarded (owning_units task) w.log
    → Guarded (owning_units task) (report_restore task info result r w).1.log
report-Guarded task info result (ok x) w h =
    pause-Keeps task (succeeding result (restored info.backup_id, evidence info.backup_id)) w h
report-Guarded task info result (err crashed) w h = h
report-Guarded task info result (err f) w h = pause-Keeps task (failing result f) w h

applied-Guarded :
    (s : RestoreSettings) (task : FleetTask) (info : RestoreInfo) (result : TaskResult)
    (r : Result Failure Text) (w : World)
    → Guarded (owning_units task) w.log
    → Guarded (owning_units task) (apply_and_pause s task info result r w).1.log
applied-Guarded s task info result (err f) w h = h
applied-Guarded s task info result (ok path) w h =
    let after = apply_restore_artifact s.digests task info path w in
    report-Guarded task info result after.0 after.1 ((apply-Keeps task s info path).at w h)

on_request-Guarded :
    (s : RestoreSettings) (task : FleetTask) (result : TaskResult) (r : Result Failure RestoreInfo)
    (w : World)
    → s.delegate_restore ≡ false
    → Guarded (owning_units task) w.log
    → Guarded (owning_units task) (on_request s task result r w).1.log
unfolding restore_with
on_request-Guarded s task result (err f) w d h = h
on_request-Guarded s task result (ok info) w d h =
    let prepared_log =
      (prepare_restore-Keeps (no_data-Closed (owning_units task)) s task info).at w h in
    rw d (
      applied-Guarded s task info result (prepare_restore s task info w).0
        (prepare_restore s task info w).1 prepared_log)

-- Unless it hands the work to the helper, a restore writes to a volume only while the units that it
-- stops for that are stopped: since the last successful stop of each, it was not started or
-- restarted. These are the units of the services that declare a volume of their own or a shared one;
-- if the task's backup metadata name a service, of that one only. This holds whatever the node
-- answers, for a restore of volumes and for one of a database whose artifact is an archive of
-- volumes, and for a log that has the property to begin with.
pub restore_backup-Guarded :
    (s : RestoreSettings) (task : FleetTask) (result : TaskResult) (w : World)
    → s.delegate_restore ≡ false
    → Guarded (owning_units task) w.log
    → Guarded (owning_units task) (restore_backup s task result w).1.log
unfolding restore_backup
restore_backup-Guarded s task result w d h =
    on_request-Guarded s task result (restore_request task) w d h
