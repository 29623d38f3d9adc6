-- ===== src/Executor/Provision/Flow.antt =====
-- `provision` keeps what its calls keep, if its set-up does.
use admiral_fleet.Prelude.{
  Text, ℕ, List, [], ◌∷◌, Option, none, some, is_positive, Bool-cases, inl, inr,
}
use admiral_fleet.Fleet.Task.{FleetTask, ServiceInfo, Registry}
use admiral_fleet.Fleet.Effects.{Result, ok, err, Log, World, Call, fail, command}
use admiral_fleet.Fleet.Effects.Keeps.{
  Keeps, Closed, call_rules, keeps_rules, Keeps-bind, Keeps-or_fail,
}
use admiral_fleet.Quadlet.Policy.{PolicyError, validate_registry_host}
use admiral_fleet.Executor.Report
use admiral_fleet.Executor.Report.{Failure, TaskResult}
use admiral_fleet.Executor.Files.{Ports}
use admiral_fleet.Executor.Ports.{persist, allocate, allocate_host_ports}
use admiral_fleet.Executor.Provision.{
  Abort, plain, login_to, step, refuse, published_ports, set_up_once, provision_by, provision_new,
  provision_body, provision, already_provisioned_body, provision_end, fail_provision_readiness,
  unready, with_report,
}
use admiral_fleet.Executor.Provision.Frame
use admiral_fleet.Executor.Provision.Frame.{plain_call}
use admiral_fleet.Executor.Deprovision.Frame.{deprovision_app-Keeps}

module _ {P : Log → Type 0} (closed : Closed P plain_call) where
  persist-Keeps : (instance_id : Text) (o : Option (Ports × ℕ)) → Keeps P (persist instance_id o)
  unfolding persist
  persist-Keeps instance_id none = search keeps_rules
  persist-Keeps instance_id (some (m, next)) = search (call_rules, closed) depth 9

  allocate-Keeps :
      (instance_id : Text) (services : List ServiceInfo) (m : Ports)
      → Keeps P (allocate instance_id services m)
  unfolding allocate
  allocate-Keeps instance_id services [] = search (call_rules, closed, persist-Keeps) depth 9
  allocate-Keeps instance_id services (e ∷ existing) = search keeps_rules

  allocate_host_ports-Keeps :
      (instance_id : Text) (services : List ServiceInfo)
      → Keeps P (allocate_host_ports instance_id services)
  unfolding allocate_host_ports
  allocate_host_ports-Keeps instance_id services =
      search (keeps_rules, Frame.load_host_ports-Keeps closed, allocate-Keeps)

  login_to-Keeps :
      (allowed : List Text) (service : Text) (o : Option Registry)
      → Keeps P (login_to allowed service o)
  login_to-Keeps allowed service none = search keeps_rules
  login_to-Keeps allowed service (some r) = permitted (validate_registry_host r.server allowed)
    where
      permitted :
          (o : Option PolicyError)
          → Keeps {E = Abort} P (elim o [
            | some e ↦ fail (plain (Report.registry_policy service))
            | none ↦ step (command (Call.login r.server r.username)) (Report.registry_login service)
          ])
      permitted (some e) = search keeps_rules
      permitted none = search (call_rules, closed)

  published_ports-Keeps :
      (container : Text) (services : List ServiceInfo) (m : Ports)
      → Keeps P (published_ports container services m)
  unfolding published_ports
  published_ports-Keeps container [] m = search keeps_rules
  published_ports-Keeps container (svc ∷ services) m = elim (Bool-cases (is_positive svc.port)) [
    | inl published ↦ rw published (
        Keeps-bind _ _ (Keeps-or_fail _ _ (Frame.poll_port-Keeps closed 10 container svc.port))
          (λ raw. published_ports-Keeps container services _))
    | inr silent ↦ rw silent (published_ports-Keeps container services m)
  ]

  already_provisioned-Keeps : (task : FleetTask) → Keeps P (already_provisioned_body task)
  unfolding already_provisioned_body
  already_provisioned-Keeps task =
      search
        (
          keeps_rules,
          Frame.load_host_ports-Keeps closed,
          Frame.write_service_health_checks-Keeps closed,
          Frame.setup_marker_exists-Keeps closed,
        )
        depth 9

  refuse-Keeps : (o : Option Failure) → Keeps P (refuse o)
  refuse-Keeps none = search keeps_rules
  refuse-Keeps (some f) = search keeps_rules

  module _ (task : FleetTask) (set_up_keeps : (m : Ports) → Keeps P (set_up_once task m)) where
    provision_new-Keeps : (allowed : List Text) → Keeps P (provision_new allowed task)
    unfolding provision_new
    provision_new-Keeps allowed =
        search
          (
            call_rules,
            closed,
            set_up_keeps,
            allocate_host_ports-Keeps,
            login_to-Keeps,
            published_ports-Keeps,
            Frame.write_service_health_checks-Keeps closed,
            Frame.write_instance_tier_info-Keeps closed,
            Frame.create_podman_secrets-Keeps closed,
            Frame.start_units-Keeps closed,
            Frame.wait_for_service_ready-Keeps closed,
          )
          depth 40 fits 4000

    provision_by-Keeps :
        (allowed : List Text) (r : Result Text (Unit {0})) → Keeps P (provision_by allowed task r)
    provision_by-Keeps allowed (ok a) = already_provisioned-Keeps task
    provision_by-Keeps allowed (err e) = provision_new-Keeps allowed

    provision_body-Keeps : (allowed : List Text) → Keeps P (provision_body allowed task)
    unfolding provision_body
    provision_body-Keeps allowed =
        search (call_rules, closed, refuse-Keeps, provision_by-Keeps) depth 12

    -- The automatic clean-up after a service that is not ready included.
    pub provision-Keeps :
        (allowed : List Text) (result : TaskResult) (w : World)
        → P w.log
        → P (provision allowed task result w).1.log
    unfolding provision fail_provision_readiness
    provision-Keeps allowed result w p =
        ending (provision_body allowed task w).0 (provision_body allowed task w).1
          ((provision_body-Keeps allowed).at w p)
      where
        ending :
            (r : Result Abort (Report.Report × Report.Metadata)) (w : World)
            → P w.log
            → P (provision_end task result r w).1.log
        ending (ok r) w p = p
        ending (err (plain f)) w p = p
        ending (err (with_report f logs fields)) w p = p
        ending (err (unready service e)) w p = deprovision_app-Keeps closed task result w p
