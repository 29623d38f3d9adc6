-- ===== src/Executor/Deprovision/Frame.antt =====
-- A deprovision keeps whatever each of its calls keeps.
use admiral_fleet.Prelude.{Text, true, ◌≡◌, refl, List, [], ◌∷◌, Option, none, some}
use admiral_fleet.Fleet.Task.{FleetTask}
use admiral_fleet.Fleet.Effects.{Result, ok, err, World, Call}
use admiral_fleet.Fleet.Effects.Keeps.{
  Keeps, Closed, call_rules, keeps_rules, Keeps-bind, Keeps-pure,
}
use admiral_fleet.Security.{Refusal, validate_instance_id}
use admiral_fleet.Executor.Report.{TaskResult, conclude}
use admiral_fleet.Executor.Deprovision.{
  Errors, Cleanup, attempt, both, each, disable_unit, retire_unit, after_stop, remove_service,
  remove_podman_secrets, cleanup_runtime, remove_metadata, unless_errors, deprovision_accepted,
  deprovision_body, deprovision_app,
}
use admiral_fleet.Executor.Provision.Frame.{plain_call}
use admiral_fleet.Fleet.Effects.{Log}

module _ {P : Log → Type 0} (closed : Closed P plain_call) where
  attempt-Keeps : (c : Call) → plain_call c ≡ true → Keeps P (attempt c)
  unfolding attempt
  attempt-Keeps c h = search (call_rules, closed, h)

  both-Keeps : (m k : Cleanup) → Keeps P m → Keeps P k → Keeps P (both m k)
  unfolding both
  both-Keeps m k hm hk = search (keeps_rules, hm, hk)

  each-Keeps :
      {A : Type 0} (xs : List A) (f : A → Cleanup) → ((x : A) → Keeps P (f x)) → Keeps P (each xs f)
  unfolding each
  each-Keeps [] f h = Keeps-pure []
  each-Keeps (x ∷ xs) f h = both-Keeps (f x) (each xs f) (h x) (each-Keeps xs f h)

  disable_unit-Keeps : (unit : Text) → Keeps P (disable_unit unit)
  unfolding disable_unit
  disable_unit-Keeps unit = search (call_rules, closed)

  after_stop-Keeps : (unit : Text) (r : Result Text (Unit {0})) → Keeps P (after_stop unit r)
  after_stop-Keeps unit (ok a) = disable_unit-Keeps unit
  after_stop-Keeps unit (err e) = search (keeps_rules, both-Keeps, disable_unit-Keeps)

  retire_unit-Keeps : (unit : Text) → Keeps P (retire_unit unit)
  unfolding retire_unit
  retire_unit-Keeps unit = search (call_rules, closed, after_stop-Keeps)

  cleanup_runtime-Keeps : (task : FleetTask) → Keeps P (cleanup_runtime task)
  unfolding cleanup_runtime remove_service remove_podman_secrets
  cleanup_runtime-Keeps task =
      search (keeps_rules, both-Keeps, each-Keeps, attempt-Keeps, retire_unit-Keeps, refl) depth 12

  remove_metadata-Keeps : (instance_id : Text) → Keeps P (remove_metadata instance_id)
  unfolding remove_metadata
  remove_metadata-Keeps instance_id = search (call_rules, closed) depth 14

  unless_errors-Keeps :
      (instance_id : Text) (errors : Errors) → Keeps P (unless_errors instance_id errors)
  unless_errors-Keeps instance_id [] = remove_metadata-Keeps instance_id
  unless_errors-Keeps instance_id (e ∷ es) = search keeps_rules

  accepted-Keeps : (task : FleetTask) (o : Option Refusal) → Keeps P (deprovision_accepted task o)
  accepted-Keeps task (some r) = search keeps_rules
  accepted-Keeps task none =
      Keeps-bind (cleanup_runtime task) _ (cleanup_runtime-Keeps task)
        (unless_errors-Keeps task.instance_id)

  pub deprovision_app-Keeps :
      (task : FleetTask) (result : TaskResult) (w : World)
      → P w.log
      → P (deprovision_app task result w).1.log
  unfolding deprovision_app deprovision_body conclude
  deprovision_app-Keeps task result w p =
      (accepted-Keeps task (validate_instance_id task.instance_id)).at w p
