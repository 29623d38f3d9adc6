-- ===== src/Executor/Restore/Paused.antt =====
-- A restore leaves the instance paused.
use admiral_fleet.Prelude.{Text, true, [], ◌∷◌, some, ◌≡◌, refl, ◌⊎◌, inl, inr, All, Bool-cases}
use admiral_fleet.Fleet.Task.{FleetTask, RestoreInfo}
use admiral_fleet.Fleet.Effects.{
  Result, ok, err, Value, Log, World, continue, pure, perform, ◌>>=◌, command, pod_pause,
}
use admiral_fleet.Fleet.Effects.Keeps.{Closed, event}
use admiral_fleet.Quadlet.Names.{pod_name}
use admiral_fleet.Executor.Files.{is_ok}
use admiral_fleet.Executor.Report.{
  Failure, TaskResult, failing, succeeding, crashed, restored, evidence,
}
use admiral_fleet.Executor.Restore.{
  RestoreSettings, start_restore_containers, apply_restore_artifact, pause_after_restore,
  paused_result, report_restore, apply_and_pause, delegate_and_pause, prepare_restore, restore_with,
  restore_request, on_request, restore_backup,
}
use admiral_fleet.Executor.Restore.Prepare.{
  is_no_data, prepare_restore-Keeps, start_restore_containers-Keeps,
}

-- No call changed data of the instance.
abbrev pub Untouched : Log → Type 0
Untouched = All (λ e. is_no_data e.call ≡ true)

-- The last call paused the pod, or tried to.
abbrev pub PauseLast : Text → Log → Type 0
PauseLast pod [] = ⊥
PauseLast pod (e ∷ l) = e.call ≡ pod_pause pod

abbrev pub PausedLast : Text → Log → Type 0
PausedLast pod [] = ⊥
PausedLast pod (e ∷ l) = (e.call ≡ pod_pause pod) × (is_ok e.reply ≡ true)

-- A success leaves the pod paused, and changed data at least the attempt to pause it, unless the
-- handler crashed.
abbrev pub LeftPaused : Text → TaskResult × World → Type 0
LeftPaused pod (result, w) =
    (result.success ≡ true → PausedLast pod w.log)
    × (PauseLast pod w.log ⊎ (Untouched w.log ⊎ (result.error ≡ some crashed)))

pausing :
    (pod : Text) (result : TaskResult) (r : Result Text Value) (w : World)
    → let w' = record w { log = event (pod_pause pod) r ∷ w.log } in
      let after = continue r (λ (v : Value). pure {E = Text} tt) w' in
      LeftPaused pod (paused_result result after.0, after.1)
unfolding pure failing
pausing pod result (ok v) w = ((λ h. (refl, refl)), inl refl)
pausing pod result (err e) w = ((λ h. absurd (cc h)), inl refl)

pause-LeftPaused :
    (task : FleetTask) (result : TaskResult) (w : World)
    → LeftPaused (pod_name task.instance_id) (pause_after_restore task result w)
unfolding pause_after_restore command ◌>>=◌ perform
pause-LeftPaused task result w =
    pausing (pod_name task.instance_id) result
      (w.node w.log (pod_pause (pod_name task.instance_id))) w

report-LeftPaused :
    (task : FleetTask) (info : RestoreInfo) (result : TaskResult) (r : Result Failure (Unit {0}))
    (w : World)
    → LeftPaused (pod_name task.instance_id) (report_restore task info result r w)
unfolding failing
report-LeftPaused task info result (ok x) w =
    pause-LeftPaused task (succeeding result (restored info.backup_id, evidence info.backup_id)) w
report-LeftPaused task info result (err crashed) w = ((λ h. absurd (cc h)), inr (inr refl))
report-LeftPaused task info result (err f) w = pause-LeftPaused task (failing result f) w

Untouched-Closed : Closed Untouched is_no_data
Untouched-Closed = record { step = λ c r l h u. (h, u) }

refused :
    (pod : Text) (result : TaskResult) (f : Failure) (w : World)
    → Untouched w.log
    → LeftPaused pod (failing result f, w)
unfolding failing
refused pod result f w h = ((λ e. absurd (cc e)), inr (inl h))

applied-LeftPaused :
    (s : RestoreSettings) (task : FleetTask) (info : RestoreInfo) (result : TaskResult)
    (r : Result Failure Text) (w : World)
    → Untouched w.log
    → LeftPaused (pod_name task.instance_id) (apply_and_pause s task info result r w)
applied-LeftPaused s task info result (err f) w h = refused _ result f w h
applied-LeftPaused s task info result (ok path) w h =
    let after = apply_restore_artifact s.digests task info path w in
    report-LeftPaused task info result after.0 after.1

delegated-LeftPaused :
    (s : RestoreSettings) (task : FleetTask) (result : TaskResult) (r : Result Failure (Unit {0}))
    (w : World)
    → Untouched w.log
    → LeftPaused (pod_name task.instance_id) (delegate_and_pause s task result r w)
delegated-LeftPaused s task result (err f) w h = refused _ result f w h
delegated-LeftPaused s task result (ok x) w h =
    let after = s.delegate task result w in pause-LeftPaused task after.0 after.1

on_request-LeftPaused :
    (s : RestoreSettings) (task : FleetTask) (result : TaskResult) (r : Result Failure RestoreInfo)
    (w : World)
    → Untouched w.log
    → LeftPaused (pod_name task.instance_id) (on_request s task result r w)
unfolding restore_with
on_request-LeftPaused s task result (err f) w h = refused _ result f w h
on_request-LeftPaused s task result (ok info) w h = elim (Bool-cases s.delegate_restore) [
  | inl d ↦ rw d (
      delegated-LeftPaused s task result (start_restore_containers task w).0
        (start_restore_containers task w).1
        ((start_restore_containers-Keeps Untouched-Closed task).at w h))
  | inr d ↦ rw d (
      applied-LeftPaused s task info result (prepare_restore s task info w).0
        (prepare_restore s task info w).1
        ((prepare_restore-Keeps Untouched-Closed s task info).at w h))
]

-- From a log in which no data was changed, a restore that succeeds has as its last call a successful pause of the pod. One that fails has
-- called for the pause last too, unless no data of the instance was changed before or the handler
-- crashed on missing backup metadata. This holds for the restore by the helper as well, whatever it
-- reports.
pub restore_backup-LeftPaused :
    (s : RestoreSettings) (task : FleetTask) (result : TaskResult) (w : World)
    → Untouched w.log
    → LeftPaused (pod_name task.instance_id) (restore_backup s task result w)
unfolding restore_backup
restore_backup-LeftPaused s task result w h =
    on_request-LeftPaused s task result (restore_request task) w h
