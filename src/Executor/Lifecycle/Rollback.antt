-- ===== src/Executor/Lifecycle/Rollback.antt =====
-- A resize does not leave its instance stopped.
use admiral_fleet.Prelude.{
  Text, Bool, true, false, not, ◌≡◌, refl, List, [], ◌∷◌, if◌then◌else◌, eq_text, eq_text_refl,
  ◌&&◌, ◌||◌,
}
use admiral_fleet.Fleet.Task.{FleetTask}
use admiral_fleet.Fleet.Effects.{
  Result, ok, err, Value, Log, World, Call, start, stop, daemon_reload, render, chown_instance_data,
  pod_exists, Act, fail, ◌>>◌, command, fresh, for_each, when, read_content, ports_file,
}
use admiral_fleet.Fleet.Effects.Triples.{
  Post, Triple, Triple-bind, Triple-pure, Triple-fail, Triple-or_fail, Triple-observe,
  Triple-command_reply, Triple-true, Triple-weaken,
}
use admiral_fleet.Quadlet.Names.{pod_unit_name, pod_name}
use admiral_fleet.Executor.Report
use admiral_fleet.Executor.Report.{Stage, Failure, Report, Metadata, TaskResult, conclude, failed}
use admiral_fleet.Executor.Files.{
  ports_of_reply, load_host_ports, write_service_health_checks, write_instance_tier_info,
}
use admiral_fleet.Executor.Limits.{has_valid_task_memory_limit}
use admiral_fleet.Executor.Lifecycle.{
  restore_units, rolling_back, or_roll_back, stop_for_resize, resize_stopped, resize_body,
  resize_app, unit_names,
}

abbrev up_after : Text → Call → Result Text Value → Bool → Bool
up_after u (start v) r before = eq_text v u || before
up_after u (stop v) (ok x) before = not (eq_text v u) && before
up_after u _ _ before = before

-- The unit was not stopped with success, or a start was attempted since.
abbrev pub up : Text → Log → Bool
up u [] = true
up u (e ∷ l) = up_after u e.call e.reply (up u l)

abbrev Up : Text → Log → Type 0
Up u l = up u l ≡ true

abbrev Any : Log → Type 0
Any _ = Unit

start-Up : (u : Text) → Triple Any (command (start u)) (λ _. Up u) (λ _. Up u)
start-Up u =
    Triple-command_reply (start u) (λ v l p. rw (eq_text_refl u) refl)
      (λ e l p. rw (eq_text_refl u) refl)

restore_units-Up :
    {E : Type 0} (u : Text) → Triple {E = E} Any (restore_units (u ∷ [])) (λ _. Up u) (λ _. Up u)
unfolding restore_units
restore_units-Up u =
    Triple-bind (Triple-observe {Q = λ _. Up u} (command (start u)) (start-Up u)) (λ r.
      Triple-bind {Q = λ _. Up u} (Triple-pure {A = List (Text × Text)} [] (λ l p. p))
        (λ errors. Triple-pure (elim r [ ok _ ↦ errors | err e ↦ (u, e) ∷ errors ]) (λ l p. p)))

rolling_back-Up :
    {A : Type 0} (u : Text) (stage : Stage) (r : Result Text A)
    → Triple Any (rolling_back (u ∷ []) stage r) (λ _. Any) (λ _. Up u)
rolling_back-Up u stage (ok a) = Triple-pure a (λ l p. p)
rolling_back-Up u stage (err e) =
    Triple-bind (restore_units-Up u)
      (λ errors. Triple-fail (Report.rolled_back stage e errors) (λ l p. p))

-- Whatever a step does, its failure ends with an attempt to start the unit.
or_roll_back-Up :
    {A : Type 0} (u : Text) (stage : Stage) (m : Act Text A)
    → Triple Any (or_roll_back (u ∷ []) stage m) (λ _. Any) (λ _. Up u)
unfolding or_roll_back
or_roll_back-Up u stage m =
    Triple-bind (Triple-observe {Q = λ _. Any} m (Triple-true m)) (rolling_back-Up u stage)

load_host_ports-never_fails :
    (u instance_id : Text)
    → Triple Any (load_host_ports instance_id) (λ _. Any) (λ (_ : Failure). Up u)
unfolding load_host_ports
load_host_ports-never_fails u instance_id =
    Triple-bind
      (Triple-observe {Q = λ _. Any} (read_content (ports_file instance_id)) (Triple-true _))
      (λ r. Triple-pure (ports_of_reply r) (λ l p. p))

restart-Up :
    (u : Text)
    → Triple Any
        (or_roll_back (u ∷ []) (Report.start_unit u) (command (start u)))
        (λ _. Up u)
        (λ _. Up u)
unfolding or_roll_back
restart-Up u =
    Triple-bind (Triple-observe {Q = λ _. Up u} (command (start u)) (start-Up u)) (ending u)
  where
    ending :
        (u : Text) (r : Result Text (Unit {0}))
        → Triple (Up u) (rolling_back (u ∷ []) (Report.start_unit u) r) (λ _. Up u) (λ _. Up u)
    ending u (ok a) = Triple-pure a (λ l p. p)
    ending u (err e) =
        Triple-bind {Q = λ _. Up u}
          (Triple-weaken (λ l p. tt) (λ a l p. p) (λ e l p. p) (restore_units-Up u))
          (λ errors. Triple-fail (Report.rolled_back (Report.start_unit u) e errors) (λ l p. p))

-- From the stopped unit on, every end of the resize has attempted a start.
resize_stopped-Up :
    (task : FleetTask)
    → let u = pod_unit_name task.instance_id in
      Triple Any (resize_stopped task (u ∷ [])) (λ _. Up u) (λ _. Up u)
unfolding resize_stopped unit_names for_each
resize_stopped-Up task =
    let u = pod_unit_name task.instance_id in
    Triple-bind (load_host_ports-never_fails u task.instance_id) (λ m.
      Triple-bind
        (or_roll_back-Up u Report.persist_checks
          (write_service_health_checks task.instance_id task.services m))
        (λ _. Triple-bind (or_roll_back-Up u Report.render_quadlet (command (render task m))) (λ _.
          Triple-bind {Q = λ _. Any}
            (Triple-observe (write_instance_tier_info task.instance_id task.tier) (Triple-true _))
            (λ _.
              Triple-bind
                (or_roll_back-Up u Report.chown_data
                  (command (chown_instance_data task.instance_id)))
                (λ _.
                  Triple-bind (or_roll_back-Up u Report.reload_systemd (command daemon_reload))
                    (λ _.
                      Triple-bind {Q = λ _. Up u}
                        (Triple-bind (restart-Up u) (λ _. Triple-pure tt (λ l p. p)))
                        (λ _.
                          Triple-pure
                            (Report.resized task.instance_id, Report.target_tier task.tier)
                            (λ l p. p))))))))

stopped-Up :
    (u : Text) (r : Result Text (Unit {0}))
    → Triple
        (Post (λ _. Any) (λ _. Up u) r)
        (elim r [
          | ok _ ↦ stop_for_resize (u ∷ []) []
          | err e ↦ restore_units [] >> fail (failed (Report.stop_unit u) e)
        ])
        (λ units _. units ≡ u ∷ [])
        (λ _. Up u)
unfolding stop_for_resize restore_units
stopped-Up u (ok a) = Triple-pure (u ∷ []) (λ l p. refl)
stopped-Up u (err e) =
    Triple-bind {Q = λ _. Up u} (Triple-pure {A = List (Text × Text)} [] (λ l p. p))
      (λ _. Triple-fail (failed (Report.stop_unit u) e) (λ l p. p))

-- The loop over the one unit gives that unit, or ends with the unit up.
stop_for_resize-Up :
    (u : Text) → Triple (Up u) (stop_for_resize [] (u ∷ [])) (λ units _. units ≡ u ∷ []) (λ _. Up u)
unfolding stop_for_resize
stop_for_resize-Up u =
    Triple-bind {Q = λ r. Post (λ _. Any) (λ _. Up u) r}
      (Triple-observe (command (stop u)) (Triple-command_reply (stop u) (λ v l p. tt) (λ e l p. p)))
      (stopped-Up u)

resize_units-Up :
    (task : FleetTask) (units : List Text)
    → let u = pod_unit_name task.instance_id in
      Triple (λ _. units ≡ u ∷ []) (resize_stopped task units) (λ _. Up u) (λ _. Up u)
resize_units-Up task units = record { at = λ w e. rw e ((resize_stopped-Up task).at w tt) }

resize_body-Up :
    (task : FleetTask)
    → let u = pod_unit_name task.instance_id in
      Triple (Up u) (resize_body task) (λ _. Up u) (λ _. Up u)
unfolding resize_body unit_names
resize_body-Up task =
    let u = pod_unit_name task.instance_id in
    Triple-bind {Q = λ _. Up u}
      (refuse_or_go u (has_valid_task_memory_limit task.tier.memory)
        (Report.invalid_memory_limit task.tier.memory))
      (λ _.
        Triple-bind {Q = λ _. Up u}
          (Triple-or_fail (failed Report.pod_not_found) (
            Triple-command_reply (pod_exists (pod_name task.instance_id)) (λ v l p. p)
              (λ e l p. p)))
          (λ _. Triple-bind (stop_for_resize-Up u) (resize_units-Up task)))
  where
    refuse_or_go :
        (u : Text) (b : Bool) (f : Failure)
        → Triple (Up u) (when (if b then false else true) (fail f)) (λ _. Up u) (λ _. Up u)
    refuse_or_go u true f = Triple-pure tt (λ l p. p)
    refuse_or_go u false f = Triple-fail f (λ l p. p)

-- Whatever the node answers, a resize that has stopped the unit of its instance attempts to start it
-- again after that stop, also when the resize fails.
pub resize_restarts :
    (task : FleetTask) (result : TaskResult) (node : Log → Call → Result Text Value)
    (not_exist : Text → Bool)
    → up (pod_unit_name task.instance_id) (resize_app task result (fresh node not_exist)).1.log
      ≡ true
unfolding resize_app conclude
resize_restarts task result node not_exist =
    both_ends (resize_body task (fresh node not_exist))
      ((resize_body-Up task).at (fresh node not_exist) refl)
  where
    both_ends :
        (o : Result Failure (Report × Metadata) × World)
        → let u = pod_unit_name task.instance_id in
          Post (λ _. Up u) (λ _. Up u) o.0 o.1.log → Up u o.1.log
    both_ends (ok r, w) p = p
    both_ends (err f, w) p = p
