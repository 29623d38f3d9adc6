-- ===== src/Executor/Lifecycle/FailFast.antt =====
-- `start` and `stop` end at the first call that fails.
use admiral_fleet.Prelude.{
  Text, ℤ, Bool, true, false, ◌≡◌, refl, List, [], ◌∷◌, All, if◌then◌else◌, any_of, eq_text, Option,
  none, some,
}
use admiral_fleet.Fleet.Task.{FleetTask, ServiceInfo}
use admiral_fleet.Fleet.Effects.{
  Result, ok, err, Value, Log, World, Call, read_file, remove, ports_file, FilePath, Act, pure,
  fail, ◌>>=◌, or_fail, observe, command, ask, read, read_content, remove_if_there, perform,
  for_each, fresh, continue, relabel, when, pull,
}
use admiral_fleet.Fleet.Effects.Keeps.{event, Keeps, Keeps-bind, Keeps-pure}
use admiral_fleet.Fleet.Effects.Triples.{Post}
use admiral_fleet.Security.{Refusal, validate_instance_id}
use admiral_fleet.Executor.Report.{
  Failure, Report, Metadata, TaskResult, conclude, closing, failing, succeeding, failed, pull_image,
  stopped, no_metadata,
}
use admiral_fleet.Executor.Files.{
  Ports, load_host_ports, write_service_health_checks, write_checks, declared_checks, refused_id,
}
use admiral_fleet.Executor.Lifecycle.{
  create_podman_secrets, resume_pod, pull_images, stop_units, start_body, start_app, stop_app,
  unit_names,
}

-- An event after which the handlers go on: a success, or any answer to the reading or the removal of
-- a file, where a missing file is no error.
abbrev pub goes_on : Call → Result Text Value → Bool
goes_on c (ok v) = true
goes_on (read_file f) (err e) = true
goes_on (remove f) (err e) = true
goes_on _ (err e) = false

abbrev pub AllGood : Log → Type 0
AllGood = All (λ e. goes_on e.call e.reply ≡ true)

-- Only the newest event may be one that ends the handler.
abbrev pub Stopped : Log → Type 0
Stopped [] = Unit
Stopped (e ∷ l) = AllGood l

AllGood-Stopped : (l : Log) → AllGood l → Stopped l
AllGood-Stopped [] h = tt
AllGood-Stopped (e ∷ l) h = h.1

-- From a good log, a value leaves a good log and an error one whose newest event may be bad.
record IsFailFast {E A : Type 0} (m : Act E A) : Type 0 where
  at : (w : World) → AllGood w.log → Post (λ _. AllGood) (λ _. Stopped) (m w).0 (m w).1.log

FailFast-pure : {E A : Type 0} (a : A) → IsFailFast (pure {E = E} a)
unfolding pure
FailFast-pure a = record { at = λ w h. h }

FailFast-fail : {E A : Type 0} (e : E) → IsFailFast (fail {A = A} e)
unfolding fail
FailFast-fail e = record { at = λ w h. AllGood-Stopped w.log h }

FailFast-continue :
    {E A B : Type 0} (r : Result E A) (f : A → Act E B) (w : World)
    → ((a : A) → IsFailFast (f a))
    → Post (λ _. AllGood) (λ _. Stopped) r w.log
    → Post (λ _. AllGood) (λ _. Stopped) (continue r f w).0 (continue r f w).1.log
FailFast-continue (ok a) f w kf h = (kf a).at w h
FailFast-continue (err e) f w kf h = h

FailFast-bind :
    {E A B : Type 0} (m : Act E A) (f : A → Act E B)
    → IsFailFast m
    → ((a : A) → IsFailFast (f a))
    → IsFailFast (m >>= f)
unfolding ◌>>=◌
FailFast-bind m f km kf = record { at = λ w h. FailFast-continue (m w).0 f (m w).1 kf (km.at w h) }

relabelled :
    {E F A : Type 0} (f : E → F) (r : Result E A) (l : Log)
    → Post (λ _. AllGood) (λ _. Stopped) r l
    → Post (λ _. AllGood) (λ _. Stopped) (relabel f r) l
relabelled f (ok a) l h = h
relabelled f (err e) l h = h

FailFast-or_fail :
    {E F A : Type 0} (m : Act E A) (f : E → F) → IsFailFast m → IsFailFast (or_fail m f)
unfolding or_fail
FailFast-or_fail m f km = record { at = λ w h. relabelled f (m w).0 (m w).1.log (km.at w h) }

FailFast-if :
    {E A : Type 0} (b : Bool) (m n : Act E A)
    → IsFailFast m
    → IsFailFast n
    → IsFailFast (if b then m else n)
FailFast-if true m n km kn = km
FailFast-if false m n km kn = kn

FailFast-for_each :
    {E A : Type 0} (xs : List A) (f : A → Act E (Unit {0}))
    → ((a : A) → IsFailFast (f a))
    → IsFailFast (for_each xs f)
unfolding for_each
FailFast-for_each [] f h = FailFast-pure tt
FailFast-for_each (x ∷ xs) f h =
    FailFast-bind (f x) (λ _. for_each xs f) (h x) (λ _. FailFast-for_each xs f h)

one_call :
    (c : Call) (r : Result Text Value) (l : Log)
    → AllGood l
    → Post (λ _. AllGood) (λ _. Stopped) r (event c r ∷ l)
one_call c (ok v) l h = (refl, h)
one_call c (err e) l h = h

FailFast-perform : (c : Call) → IsFailFast (perform c)
unfolding perform
FailFast-perform c = record { at = λ w h. one_call c (w.node w.log c) w.log h }

FailFast-command : (c : Call) → IsFailFast (command c)
unfolding command
FailFast-command c = FailFast-bind (perform c) _ (FailFast-perform c) (λ v. FailFast-pure tt)

FailFast-ask : (c : Call) → IsFailFast (ask c)
unfolding ask
FailFast-ask c = FailFast-bind (perform c) _ (FailFast-perform c) (λ v. FailFast-pure _)

FailFast-read : (c : Call) → IsFailFast (read c)
unfolding read
FailFast-read c = FailFast-bind (perform c) _ (FailFast-perform c) (λ v. FailFast-pure _)

ruleset fail_fast_rules = (
  FailFast-pure, FailFast-fail, FailFast-bind, FailFast-or_fail, FailFast-if, FailFast-for_each,
  FailFast-command, FailFast-ask, FailFast-read,
)

read_or_not : (f : FilePath) (r : Result Text Value) → goes_on (read_file f) r ≡ true
read_or_not f (ok v) = refl
read_or_not f (err e) = refl

perform_read-Keeps : (f : FilePath) → Keeps AllGood (perform (read_file f))
unfolding perform
perform_read-Keeps f = record { at = λ w h. (read_or_not f (w.node w.log (read_file f)), h) }

read_content-Keeps : (f : FilePath) → Keeps AllGood (read_content f)
unfolding read_content
read_content-Keeps f =
    Keeps-bind (perform (read_file f)) _ (perform_read-Keeps f) (λ v. Keeps-pure _)

load_host_ports-IsFailFast :
    {E : Type 0} (instance_id : Text) → IsFailFast {E = E} (load_host_ports instance_id)
unfolding load_host_ports ◌>>=◌ observe pure
load_host_ports-IsFailFast instance_id = record {
  at = (read_content-Keeps (ports_file instance_id)).at;
}

good_removal : (f : FilePath) (r : Result Text Value) → goes_on (remove f) r ≡ true
good_removal f (ok v) = refl
good_removal f (err e) = refl

remove_if_there-IsFailFast : (f : FilePath) → IsFailFast (remove_if_there f)
unfolding remove_if_there perform
remove_if_there-IsFailFast f = record {
  at = λ w h.
      ended _ (event (remove f) (w.node w.log (remove f)) ∷ w.log)
        (good_removal f (w.node w.log (remove f)), h);
}
  where
    ended :
        (r : Result Text (Unit {0})) (l : Log) → AllGood l → Post (λ _. AllGood) (λ _. Stopped) r l
    ended (ok a) l h = h
    ended (err e) l h = AllGood-Stopped l h

write_checks-IsFailFast :
    (instance_id : Text) (checks : List (Text × ℤ)) → IsFailFast (write_checks instance_id checks)
write_checks-IsFailFast instance_id [] = remove_if_there-IsFailFast _
write_checks-IsFailFast instance_id (c ∷ cs) = FailFast-command _

write_service_health_checks-IsFailFast :
    (instance_id : Text) (services : List ServiceInfo) (m : Ports)
    → IsFailFast (write_service_health_checks instance_id services m)
unfolding write_service_health_checks
write_service_health_checks-IsFailFast instance_id services m =
    accepted (validate_instance_id instance_id)
  where
    accepted :
        (o : Option Refusal)
        → IsFailFast {E = Text} (elim o [
          | some _ ↦ fail refused_id
          | none ↦ write_checks instance_id (declared_checks services m)
        ])
    accepted (some r) = FailFast-fail refused_id
    accepted none = write_checks-IsFailFast instance_id (declared_checks services m)

create_podman_secrets-IsFailFast : (task : FleetTask) → IsFailFast (create_podman_secrets task)
unfolding create_podman_secrets
create_podman_secrets-IsFailFast task = search fail_fast_rules depth 9

resume_pod-IsFailFast : (pod : Text) → IsFailFast (resume_pod pod)
unfolding resume_pod
resume_pod-IsFailFast pod = search fail_fast_rules depth 14

pull_images-IsFailFast :
    (services : List ServiceInfo) (seen : List Text) → IsFailFast (pull_images seen services)
unfolding pull_images
pull_images-IsFailFast [] seen = FailFast-pure tt
pull_images-IsFailFast (svc ∷ services) seen =
    let again = any_of (λ image. eq_text image svc.image) seen in
    FailFast-bind
      (when (if again then false else true)
        (or_fail (command (pull svc.image)) (failed pull_image)))
      _
      (FailFast-if (if again then false else true) _ _
        (FailFast-or_fail _ (failed pull_image) (FailFast-command (pull svc.image)))
        (FailFast-pure tt))
      (λ _. pull_images-IsFailFast services (if again then seen else svc.image ∷ seen))

start_body-IsFailFast : (task : FleetTask) → IsFailFast (start_body task)
unfolding start_body
start_body-IsFailFast task =
    search
      (
        fail_fast_rules, resume_pod-IsFailFast, load_host_ports-IsFailFast,
        write_service_health_checks-IsFailFast, create_podman_secrets-IsFailFast,
        pull_images-IsFailFast,
      )
      depth 40 fits 4000

-- A handler's log is good but for its newest event, and all of it is good if the task succeeds.
abbrev pub EndsWell : TaskResult × World → Type 0
EndsWell (r, w) = Stopped w.log × (r.success ≡ true → AllGood w.log)

conclude-EndsWell :
    (result : TaskResult) (m : Act Failure (Report × Metadata)) (w : World)
    → IsFailFast m
    → AllGood w.log
    → EndsWell (conclude result m w)
unfolding conclude failing succeeding
conclude-EndsWell result m w k h = ended (m w).0 (m w).1 (k.at w h)
  where
    ended :
        (r : Result Failure (Report × Metadata)) (w : World)
        → Post (λ _. AllGood) (λ _. Stopped) r w.log
        → EndsWell (closing result r, w)
    ended (ok r) w p = (AllGood-Stopped w.log p, λ _. p)
    ended (err f) w p = (p, λ e. absurd (cc e))

-- Whatever the node answers, a start and a stop make no call after one that failed, the reading and
-- the removal of a file aside, and if they report success then every other call has succeeded.
pub start_and_stop-EndsWell :
    (task : FleetTask) (result : TaskResult) (node : Log → Call → Result Text Value)
    (not_exist : Text → Bool)
    → EndsWell (start_app task result (fresh node not_exist))
      × EndsWell (stop_app task result (fresh node not_exist))
unfolding start_app stop_app
start_and_stop-EndsWell task result node not_exist = (
  conclude-EndsWell result _ (fresh node not_exist) (start_body-IsFailFast task) tt,
  conclude-EndsWell result
      (stop_units (unit_names task) >>= λ _. pure (stopped task.instance_id, no_metadata))
      (fresh node not_exist) (search fail_fast_rules depth 12) tt,
)
