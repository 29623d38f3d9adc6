-- ===== src/Executor/Deprovision/Safety.antt =====
-- What `deprovision` guarantees, whatever the node answers.
use admiral_fleet.Prelude.{
  Text, Bool, true, false, ◌≡◌, refl, ◌∙◌, List, [], ◌∷◌, All, Option, none, some, append_nil,
}
use admiral_fleet.Fleet.Task.{FleetTask}
use admiral_fleet.Fleet.Effects.{
  Result, ok, err, Value, Log, World, Call, remove_quadlet, daemon_reload, reset_failed, remove_all,
  instance_dir, Act, pure, fail, perform, ◌>>=◌, observe, command, fresh,
}
use admiral_fleet.Fleet.Effects.Keeps.{Keeps-bind, Keeps-pure, keeps_rules, Keeps}
use admiral_fleet.Fleet.Effects.Triples.{
  Post, Triple, Triple-bind, Triple-pure, Triple-or_fail, Triple-observe, Triple-command_reply,
}
use admiral_fleet.Security.{Refusal, validate_instance_id}
use admiral_fleet.Executor.Report.{
  Failure, Report, Metadata, TaskResult, conclude, closing, failing, succeeding, failed,
  deprovisioned, no_metadata, remove_quadlet_files, reload_systemd, remove_data_dir,
}
use admiral_fleet.Executor.Deprovision.{
  Errors, remove_metadata, unless_errors, deprovision_accepted, deprovision_body, deprovision_app,
}
use admiral_fleet.Executor.Deprovision.Cleanup.{
  Tolerated, attempted, is_metadata_removal, is_removal,
}
use admiral_fleet.Executor.Deprovision.Plan.{cleanup_plan, cleanup_runtime-IsCleanup}

-- Each removal of metadata comes after tolerated events only.
abbrev pub Guarded : Log → Type 0
Guarded [] = Unit
Guarded (e ∷ l) = (is_metadata_removal e.call ≡ true → All Tolerated l) × Guarded l

Guarded-runtime : (l : Log) → All (λ e. is_metadata_removal e.call ≡ false) l → Guarded l
Guarded-runtime [] a = tt
Guarded-runtime (e ∷ l) a = (λ h. absurd (cc (h, a.0)), Guarded-runtime l a.1)

-- The log is guarded, and nothing went wrong so far.
abbrev Clean : Log → Type 0
Clean l = All Tolerated l × Guarded l

command-Clean : (c : Call) → Triple Clean (command c) (λ _. Clean) (λ _. Guarded)
command-Clean c =
    Triple-command_reply c (λ v l p. ((refl, p.0), (λ _. p.0, p.1))) (λ e l p. (λ _. p.0, p.1))

reset-Clean :
    Triple Clean (observe {F = Failure} (command reset_failed)) (λ _. Clean) (λ _. Guarded)
reset-Clean = Triple-observe (command reset_failed) (
    Triple-command_reply reset_failed (λ v l p. ((refl, p.0), (λ _. p.0, p.1)))
      (λ e l p. ((refl, p.0), (λ _. p.0, p.1))))

remove_metadata-Clean :
    (instance_id : Text) → Triple Clean (remove_metadata instance_id) (λ _. Clean) (λ _. Guarded)
unfolding remove_metadata
remove_metadata-Clean instance_id =
    Triple-bind
      (Triple-or_fail (failed remove_quadlet_files) (command-Clean (remove_quadlet instance_id)))
      (λ _. Triple-bind (Triple-or_fail (failed reload_systemd) (command-Clean daemon_reload)) (λ _.
        Triple-bind reset-Clean (λ _.
          Triple-bind
            (Triple-or_fail (failed remove_data_dir)
              (command-Clean (remove_all (instance_dir instance_id))))
            (λ _. Triple-pure (deprovisioned instance_id, no_metadata) (λ l p. p)))))

-- After the clean-up: an error that was kept ends the task.
unless_errors-Clean :
    (instance_id : Text) (errors : Errors) (w : World)
    → (errors ≡ [] → All Tolerated w.log)
    → Guarded w.log
    → Post
        (λ _. Clean)
        (λ _. Guarded)
        (unless_errors instance_id errors w).0
        (unless_errors instance_id errors w).1.log
unfolding fail
unless_errors-Clean instance_id [] w h k = (remove_metadata-Clean instance_id).at w (h refl, k)
unless_errors-Clean instance_id (e ∷ es) w h k = k

accepted-Clean :
    (task : FleetTask) (node : Log → Call → Result Text Value) (not_exist : Text → Bool)
    (o : Option Refusal)
    → let (r, w) = deprovision_accepted task o (fresh node not_exist) in
      Post (λ _. Clean) (λ _. Guarded) r w.log
unfolding ◌>>=◌ fail
accepted-Clean task node not_exist (some r) = tt
accepted-Clean task node not_exist none =
    let a = (cleanup_runtime-IsCleanup task).run (fresh node not_exist) in
    rw (a.outcome, append_nil a.new)
      (unless_errors-Clean task.instance_id a.errors (record (fresh node not_exist) { log = a.new })
        a.quiet (Guarded-runtime a.new a.runtime))

-- From a result's value to what `conclude` says of the task.
conclude-Clean :
    (result : TaskResult) (m : Act Failure (Report × Metadata)) (w : World)
    → Post (λ _. Clean) (λ _. Guarded) (m w).0 (m w).1.log
    → Guarded (conclude result m w).1.log
      × ((conclude result m w).0.success ≡ true → All Tolerated (conclude result m w).1.log)
unfolding conclude failing succeeding
conclude-Clean result m w h = go (m w) h
  where
    go :
        (o : Result Failure (Report × Metadata) × World)
        → Post (λ _. Clean) (λ _. Guarded) o.0 o.1.log
        → Guarded o.1.log × ((closing result o.0).success ≡ true → All Tolerated o.1.log)
    go (ok r, w') p = (p.1, λ _. p.0)
    go (err f, w') p = (p, λ e. absurd (cc e))

-- Whatever the node answers, a deprovision removes the Quadlet files or the data directory of an
-- instance only after events that are successes, stops and disablings of missing units, or failed
-- resets of failed units; and if it reports success then each event of its whole log is one of these.
pub metadata_goes_last :
    (task : FleetTask) (result : TaskResult) (node : Log → Call → Result Text Value)
    (not_exist : Text → Bool)
    → let (r, w) = deprovision_app task result (fresh node not_exist) in
      Guarded w.log × (r.success ≡ true → All Tolerated w.log)
unfolding deprovision_app deprovision_body
metadata_goes_last task result node not_exist =
    conclude-Clean result (deprovision_body task) (fresh node not_exist)
      (accepted-Clean task node not_exist (validate_instance_id task.instance_id))

-- The removals of the log are those of `plan`.
abbrev Attempts : List Call → Log → Type 0
Attempts plan l = attempted l [] ≡ plan

perform-Attempts :
    (plan : List Call) (c : Call) → is_removal c ≡ false → Keeps (Attempts plan) (perform c)
unfolding perform
perform-Attempts plan c h = record { at = λ w p. rw h p }

command-Attempts :
    (plan : List Call) (c : Call) → is_removal c ≡ false → Keeps (Attempts plan) (command c)
unfolding command
command-Attempts plan c h =
    Keeps-bind (perform c) (λ _. pure tt) (perform-Attempts plan c h) (λ _. Keeps-pure tt)

remove_metadata-Attempts :
    (plan : List Call) (instance_id : Text) → Keeps (Attempts plan) (remove_metadata instance_id)
unfolding remove_metadata
remove_metadata-Attempts plan instance_id =
    search (keeps_rules, command-Attempts plan, refl) depth 14

accepted-Attempts :
    (task : FleetTask) (node : Log → Call → Result Text Value) (not_exist : Text → Bool)
    → Attempts (cleanup_plan task) (deprovision_accepted task none (fresh node not_exist)).1.log
unfolding ◌>>=◌ fail
accepted-Attempts task node not_exist =
    let a = (cleanup_runtime-IsCleanup task).run (fresh node not_exist) in
    rw (a.outcome, append_nil a.new)
      (unless_errors-Attempts a.errors (record (fresh node not_exist) { log = a.new })
        (a.planned [] ∙ append_nil (cleanup_plan task)))
  where
    unless_errors-Attempts :
        (errors : Errors) (w : World)
        → Attempts (cleanup_plan task) w.log
        → Attempts (cleanup_plan task) (unless_errors task.instance_id errors w).1.log
    unless_errors-Attempts [] w h =
        (remove_metadata-Attempts (cleanup_plan task) task.instance_id).at w h
    unless_errors-Attempts (e ∷ es) w h = h

-- Whatever fails on the way, the deprovision of an accepted instance id attempts every removal of
-- the plan exactly once and in its order: it stops each unit, and removes the pod, each container
-- and volume, each shared volume and each secret.
pub every_removal_is_attempted :
    (task : FleetTask) (result : TaskResult) (node : Log → Call → Result Text Value)
    (not_exist : Text → Bool)
    → validate_instance_id task.instance_id ≡ none
    → attempted (deprovision_app task result (fresh node not_exist)).1.log [] ≡ cleanup_plan task
unfolding deprovision_app deprovision_body conclude
every_removal_is_attempted task result node not_exist h =
    rw h (accepted-Attempts task node not_exist)
