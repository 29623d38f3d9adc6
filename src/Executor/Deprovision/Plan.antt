-- ===== src/Executor/Deprovision/Plan.antt =====
-- The plan of the clean-up of `deprovision`: every removal that it attempts, in its order.
use admiral_fleet.Prelude.{
  Text, Bool, true, false, ◌≡◌, refl, ap, ◌∙◌, List, [], ◌∷◌, ◌++◌, All-append, append_assoc,
  if◌then◌else◌, is_empty, Bool-cases, inl, inr,
}
use admiral_fleet.Fleet.Task.{FleetTask, ServiceInfo}
use admiral_fleet.Fleet.Effects.{
  ok, err, World, Call, stop, remove_pod, remove_container, remove_volume, secret_remove, pure,
  perform, ◌>>=◌, observe, command,
}
use admiral_fleet.Fleet.Effects.Keeps.{event}
use admiral_fleet.Quadlet.Names.{
  pod_name, container_name, volume_name, shared_volume_name, secret_name,
}
use admiral_fleet.Executor.Deprovision.{
  Errors, Cleanup, is_missing_unit, deprovision_unit_names, attempt, both, disable_unit,
  retire_unit, remove_service, remove_podman_secrets, cleanup_runtime,
}
use admiral_fleet.Executor.Deprovision.Cleanup.{
  Tolerated, Ran, IsCleanup, attempted-append, Reply-cases, IsCleanup-nothing, IsCleanup-both,
  IsCleanup-each, IsCleanup-attempt, disable_unit-Ran, plan_each,
}

-- A failed stop adds its error to those of the clean-up after it.
stop_failed :
    (m : Cleanup) (c : Call) (w : World) {w' : World} {errors : Errors} (t : Text)
    → m w ≡ (ok errors, w')
    → both (pure ((c, t) ∷ [])) m w ≡ (ok ((c, t) ∷ errors), w')
unfolding both ◌>>=◌ pure
stop_failed m c w t h = rw h refl

retire_unit-Ran : (unit : Text) (w : World) → Ran (stop unit ∷ []) w (retire_unit unit w)
unfolding retire_unit observe command ◌>>=◌ pure perform both
retire_unit-Ran unit w = elim (Reply-cases (w.node w.log (stop unit))) [
  | inl (v, e) ↦
      let a = disable_unit-Ran unit (record w { log = event (stop unit) (ok v) ∷ w.log }) in
      record {
        errors = a.errors;
        new = a.new ++ event (stop unit) (ok v) ∷ [];
        outcome = rw (e, a.outcome, append_assoc a.new (event (stop unit) (ok v) ∷ []) w.log) refl;
        quiet =
            λ q. All-append Tolerated a.new (event (stop unit) (ok v) ∷ []) (a.quiet q) (refl, tt);
        planned = λ later.
            attempted-append a.new (event (stop unit) (ok v) ∷ []) later
            ∙ ap (λ cs. stop unit ∷ cs) (a.planned later);
        runtime = All-append _ a.new (event (stop unit) (ok v) ∷ []) a.runtime (refl, tt);
      }
  | inr (t, e) ↦ elim (Bool-cases (is_missing_unit t)) [
    | inl missing ↦ record {
      errors = [];
      new = event (stop unit) (err t) ∷ [];
      outcome = rw (e, missing) refl;
      quiet = λ _. (missing, tt);
      planned = λ later. refl;
      runtime = (refl, tt);
    }
    | inr serious ↦
        let a = disable_unit-Ran unit (record w { log = event (stop unit) (err t) ∷ w.log }) in
        record {
          errors = (stop unit, t) ∷ a.errors;
          new = a.new ++ event (stop unit) (err t) ∷ [];
          outcome =
              rw (e, serious)
                (stop_failed (disable_unit unit) (stop unit)
                    (record w { log = event (stop unit) (err t) ∷ w.log }) t a.outcome
                  ∙ rw (append_assoc a.new (event (stop unit) (err t) ∷ []) w.log) refl);
          quiet = λ q. absurd (cc q);
          planned = λ later.
              attempted-append a.new (event (stop unit) (err t) ∷ []) later
              ∙ ap (λ cs. stop unit ∷ cs) (a.planned later);
          runtime = All-append _ a.new (event (stop unit) (err t) ∷ []) a.runtime (refl, tt);
        }
  ]
]

-- The resources of a service.
abbrev pub plan_service : Text → ServiceInfo → List Call
plan_service instance_id svc =
    remove_container (container_name instance_id svc.name)
    ∷ (if is_empty svc.volume then [] else remove_volume (volume_name instance_id svc.name) ∷ [])

volume-IsCleanup :
    (b : Bool) (volume : Text)
    → IsCleanup
        (if b then [] else remove_volume volume ∷ [])
        (if b then pure [] else attempt (remove_volume volume))
volume-IsCleanup true volume = IsCleanup-nothing
volume-IsCleanup false volume = IsCleanup-attempt (remove_volume volume) refl refl

-- Every resource of an instance, in the order in which `deprovision` removes them.
abbrev pub cleanup_plan : FleetTask → List Call
cleanup_plan task =
    plan_each (deprovision_unit_names task) (λ unit. stop unit ∷ [])
    ++ ((remove_pod (pod_name task.instance_id) ∷ [])
        ++ (plan_each task.services (plan_service task.instance_id)
            ++ (plan_each task.shared_volumes
                  (λ volume. remove_volume (shared_volume_name task.instance_id volume) ∷ [])
                ++ plan_each task.services λ svc.
                  plan_each svc.secrets
                    λ kv. secret_remove (secret_name task.instance_id svc.name kv.0) ∷ [])))

pub cleanup_runtime-IsCleanup :
    (task : FleetTask) → IsCleanup (cleanup_plan task) (cleanup_runtime task)
unfolding cleanup_runtime remove_service remove_podman_secrets
cleanup_runtime-IsCleanup task =
    IsCleanup-both _ _
      (IsCleanup-each (λ unit. stop unit ∷ []) (deprovision_unit_names task) retire_unit
        (λ unit. record { run = retire_unit-Ran unit }))
      (IsCleanup-both _ _ (IsCleanup-attempt (remove_pod (pod_name task.instance_id)) refl refl) (
        IsCleanup-both _ _
          (IsCleanup-each (plan_service task.instance_id) task.services _ (λ svc.
            IsCleanup-both _ _
              (IsCleanup-attempt (remove_container (container_name task.instance_id svc.name)) refl
                refl)
              (volume-IsCleanup (is_empty svc.volume) (volume_name task.instance_id svc.name))))
          (IsCleanup-both _ _
            (IsCleanup-each _ task.shared_volumes _ (λ volume.
              IsCleanup-attempt (remove_volume (shared_volume_name task.instance_id volume)) refl
                refl))
            (IsCleanup-each _ task.services _ (λ svc. IsCleanup-each _ svc.secrets _ (λ kv.
              IsCleanup-attempt (secret_remove (secret_name task.instance_id svc.name kv.0)) refl
                refl))))))
