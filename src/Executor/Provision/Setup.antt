-- ===== src/Executor/Provision/Setup.antt =====
-- When `provision` runs the setup commands of an application.
use admiral_fleet.Prelude.{
  arith, All, Text, Bool, true, false, not, ◌≡◌, refl, List, [], ◌∷◌, ◌&&◌, ◌||◌, if◌then◌else◌,
  none, some, Option, eq_text, eq_text_refl,
}
use admiral_fleet.Fleet.Task.{FleetTask, ServiceInfo}
use admiral_fleet.Fleet.Effects.{
  Result, ok, err, Value, Log, World, Call, stat, setup_marker, ◌>>=◌, pure, observe, perform,
  fresh,
}
use admiral_fleet.Fleet.Effects.Keeps.{event, Keeps, Closed, call_rules, keeps_rules, Keeps-pure}
use admiral_fleet.Fleet.Effects.Triples.{
  Triple, Triple-bind, Triple-Keeps, Triple-weaken, Triple-pure, Post,
}
use admiral_fleet.Executor.Provision.Flow.{provision-Keeps}
use admiral_fleet.Executor.Provision.Frame
use admiral_fleet.Executor.Provision.Frame.{is_setup, plain_call}
use admiral_fleet.Executor.Report.{TaskResult}
use admiral_fleet.Executor.Files.{Ports, setup_marker_exists, is_ok, task_has_setup}
use admiral_fleet.Executor.Readiness.{run_setup, run_setup_commands, wait_for_dependency}
use admiral_fleet.Executor.Provision.{Abort, set_up, set_up_unless_marked, set_up_once, provision}

abbrev is_missing_marker : Text → Call → Result Text Value → Bool
is_missing_marker instance_id (stat (setup_marker i)) (err e) = eq_text i instance_id
is_missing_marker instance_id _ _ = false

-- The marker was found missing before.
abbrev seen_missing : Text → Log → Bool
seen_missing instance_id [] = false
seen_missing instance_id (e ∷ l) =
    is_missing_marker instance_id e.call e.reply || seen_missing instance_id l

-- Each setup command of the log comes after a look for the setup marker that found none.
abbrev pub SetUpOnce : Text → Log → Type 0
SetUpOnce instance_id [] = Unit
SetUpOnce instance_id (e ∷ l) =
    (is_setup e.call ≡ true → seen_missing instance_id l ≡ true) × SetUpOnce instance_id l

SetUpOnce-Closed : (instance_id : Text) → Closed (SetUpOnce instance_id) plain_call
SetUpOnce-Closed instance_id = record { step = λ c r l h p. (λ s. absurd (cc (rw s at h)), p) }

-- The commands of a set-up, once the marker was found missing.
abbrev Missing : Text → Log → Type 0
Missing instance_id l = (seen_missing instance_id l ≡ true) × SetUpOnce instance_id l

or_true : (a b : Bool) → b ≡ true → (a || b) ≡ true
or_true a b h = ground arith

Missing-Closed : (instance_id : Text) → Closed (Missing instance_id) (λ _. true)
Missing-Closed instance_id = record {
  step = λ c r l h p. (
    or_true (is_missing_marker instance_id c r) (seen_missing instance_id l) p.0,
    (λ _. p.0, p.1),
  );
}

Missing-plain : (instance_id : Text) → Closed (Missing instance_id) plain_call
Missing-plain instance_id = record {
  step = λ c r l h p. (Missing-Closed instance_id).step c r l refl p;
}

run_setup-Missing :
    (instance_id : Text) (task : FleetTask) (m : Ports) (svc : ServiceInfo)
    → Keeps (Missing instance_id) (run_setup task m svc)
unfolding run_setup
run_setup-Missing instance_id task m svc =
    search
      (
        call_rules,
        Missing-Closed instance_id,
        Frame.wait_for_service_ready-Keeps (Missing-plain instance_id),
        dependency,
      )
      depth 12
  where
    dependency :
        (name : Text) (o : Option ServiceInfo)
        → Keeps (Missing instance_id) (wait_for_dependency task.instance_id m name o)
    dependency name none = search keeps_rules
    dependency name (some dep) =
        search (keeps_rules, Frame.wait_for_service_ready-Keeps (Missing-plain instance_id))

set_up-Missing :
    (instance_id : Text) (task : FleetTask) (m : Ports)
    → Keeps (Missing instance_id) (set_up task m)
unfolding set_up run_setup_commands
set_up-Missing instance_id task m =
    search
      (
        call_rules,
        Missing-Closed instance_id,
        run_setup-Missing,
        Frame.write_setup_marker-Keeps (Missing-plain instance_id),
      )
      depth 12

-- After the look for the marker: no set-up may follow, or the marker was found missing.
abbrev Known : Text → Bool → Log → Type 0
Known instance_id true l = SetUpOnce instance_id l
Known instance_id false l = Missing instance_id l

setup_marker_exists-Known :
    (instance_id : Text)
    → Triple
        (SetUpOnce instance_id)
        (setup_marker_exists instance_id)
        (Known instance_id)
        (λ (_ : Abort). SetUpOnce instance_id)
unfolding setup_marker_exists ◌>>=◌ pure observe perform
setup_marker_exists-Known instance_id = record {
  at = λ w p. known (w.node w.log (stat (setup_marker instance_id))) w p;
}
  where
    known :
        (r : Result Text Value) (w : World)
        → SetUpOnce instance_id w.log
        → Known instance_id (is_ok r) (event (stat (setup_marker instance_id)) r ∷ w.log)
    known (ok v) w p = (λ h. absurd (cc h), p)
    known (err e) w p = (rw (eq_text_refl instance_id) refl, (λ h. absurd (cc h), p))

after_look-SetUpOnce :
    (task : FleetTask) (m : Ports) (done : Bool)
    → Triple
        (Known task.instance_id done)
        (if done then pure tt else set_up task m)
        (λ _. SetUpOnce task.instance_id)
        (λ _. SetUpOnce task.instance_id)
after_look-SetUpOnce task m true = Triple-pure tt (λ l p. p)
after_look-SetUpOnce task m false =
    Triple-weaken (λ l p. p) (λ a l p. p.1) (λ e l p. p.1)
      (Triple-Keeps (set_up task m) (set_up-Missing task.instance_id task m))

from_both :
    (P : Log → Type 0) (r : Result Abort (Unit {0})) (l : Log) → Post (λ _. P) (λ _. P) r l → P l
from_both P (ok a) l p = p
from_both P (err e) l p = p

set_up_unless_marked-SetUpOnce :
    (task : FleetTask) (m : Ports)
    → Keeps (SetUpOnce task.instance_id) (set_up_unless_marked task m)
unfolding set_up_unless_marked
set_up_unless_marked-SetUpOnce task m = record {
  at = λ w p. from_both (SetUpOnce task.instance_id) _ _ (
      (Triple-bind (setup_marker_exists-Known task.instance_id) (after_look-SetUpOnce task m)).at w
        p);
}

set_up_once-SetUpOnce :
    (task : FleetTask) (m : Ports) → Keeps (SetUpOnce task.instance_id) (set_up_once task m)
unfolding set_up_once
set_up_once-SetUpOnce task m = search (keeps_rules, set_up_unless_marked-SetUpOnce)

-- Whatever the node answers, a provision runs no setup command before it has looked for the setup
-- marker of the instance and has found none.
pub setup_only_without_marker :
    (allowed : List Text) (task : FleetTask) (result : TaskResult)
    (node : Log → Call → Result Text Value) (not_exist : Text → Bool)
    → SetUpOnce task.instance_id (provision allowed task result (fresh node not_exist)).1.log
setup_only_without_marker allowed task result node not_exist =
    provision-Keeps (SetUpOnce-Closed task.instance_id) task (set_up_once-SetUpOnce task) allowed
      result (fresh node not_exist) tt

-- The log has no setup command.
abbrev pub NoSetup : Log → Type 0
NoSetup = All (λ e. is_setup e.call ≡ false)

NoSetup-Closed : Closed NoSetup plain_call
NoSetup-Closed = record { step = λ c r l h p. (ground arith, p) }

set_up_once-NoSetup :
    (task : FleetTask)
    → task.setup_completed ≡ true
    → (m : Ports) → Keeps NoSetup (set_up_once task m)
unfolding set_up_once
set_up_once-NoSetup task h m = skipped (task_has_setup task.services) task.setup_completed h
  where
    skipped :
        (a b : Bool)
        → b ≡ true
        → Keeps NoSetup (if a && not b then set_up_unless_marked task m else pure tt)
    skipped true true e = Keeps-pure tt
    skipped false true e = Keeps-pure tt
    skipped a false e = absurd (cc e)

-- A provision of a task that says that its set-up is completed runs no setup command, whatever the
-- node answers.
pub provision-NoSetup :
    (allowed : List Text) (task : FleetTask) (result : TaskResult)
    (node : Log → Call → Result Text Value) (not_exist : Text → Bool)
    → task.setup_completed ≡ true
    → NoSetup (provision allowed task result (fresh node not_exist)).1.log
provision-NoSetup allowed task result node not_exist h =
    provision-Keeps NoSetup-Closed task (set_up_once-NoSetup task h) allowed result
      (fresh node not_exist) tt
