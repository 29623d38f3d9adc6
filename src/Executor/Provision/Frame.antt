-- ===== src/Executor/Provision/Frame.antt =====
-- The parts of `provision` that run no setup command keep what every other call keeps.
use admiral_fleet.Prelude.{
  Text, ℕ, zero, suc, ℤ, Bool, true, false, not, refl, List, [], ◌∷◌, none, some, Option,
}
use admiral_fleet.Fleet.Task.{FleetTask, ServiceInfo, HealthCheck, TierInfo}
use admiral_fleet.Fleet.Effects.{
  Result, ok, err, Log, Call, setup_shell, Act, ◌>>◌, pure, fail, observe, command, read,
}
use admiral_fleet.Fleet.Effects.Keeps.{
  Keeps, Closed, call_rules, keeps_rules, Keeps-bind, Keeps-observe, Keeps-command,
}
use admiral_fleet.Security.{Refusal, validate_instance_id}
use admiral_fleet.Quadlet.Names.{container_name}
use admiral_fleet.Executor.Provision.{poll_port}
use admiral_fleet.Executor.Files.{
  refused_id, Ports, load_host_ports, write_service_health_checks, write_instance_tier_info,
  setup_marker_exists, write_setup_marker, write_checks, declared_checks,
}
use admiral_fleet.Executor.Readiness.{
  run_check, poll, service_ready_check, wait_for_service_ready, attempts, run_declared, check_http,
  check_tcp, check_in_container,
}
use admiral_fleet.Executor.Lifecycle.{create_podman_secrets, start_units}

abbrev pub is_setup : Call → Bool
is_setup (setup_shell service shell) = true
is_setup _ = false

-- Anything that `provision` does without a setup command keeps `P`.
abbrev pub plain_call : Call → Bool
plain_call c = not (is_setup c)

module _ {P : Log → Type 0} (closed : Closed P plain_call) where
  pub write_checks-Keeps :
      (instance_id : Text) (checks : List (Text × ℤ)) → Keeps P (write_checks instance_id checks)
  write_checks-Keeps instance_id [] = search (call_rules, closed)
  write_checks-Keeps instance_id (c ∷ cs) = search (call_rules, closed)

  pub write_service_health_checks-Keeps :
      (instance_id : Text) (services : List ServiceInfo) (m : Ports)
      → Keeps P (write_service_health_checks instance_id services m)
  unfolding write_service_health_checks
  write_service_health_checks-Keeps instance_id services m = go (validate_instance_id instance_id)
    where
      go :
          (o : Option Refusal)
          → Keeps P (elim o [
            | some _ ↦ fail refused_id
            | none ↦ write_checks instance_id (declared_checks services m)
          ])
      go (some r) = search keeps_rules
      go none = write_checks-Keeps instance_id (declared_checks services m)

  pub write_instance_tier_info-Keeps :
      (instance_id : Text) (t : TierInfo) → Keeps P (write_instance_tier_info instance_id t)
  unfolding write_instance_tier_info
  write_instance_tier_info-Keeps instance_id t = search (call_rules, closed)

  pub load_host_ports-Keeps :
      {E : Type 0} (instance_id : Text) → Keeps {E = E} P (load_host_ports instance_id)
  unfolding load_host_ports
  load_host_ports-Keeps instance_id = search (call_rules, closed)

  pub setup_marker_exists-Keeps :
      {E : Type 0} (instance_id : Text) → Keeps {E = E} P (setup_marker_exists instance_id)
  unfolding setup_marker_exists
  setup_marker_exists-Keeps instance_id = search (call_rules, closed)

  pub write_setup_marker-Keeps :
      {E : Type 0} (instance_id : Text) → Keeps {E = E} P (write_setup_marker instance_id)
  unfolding write_setup_marker
  write_setup_marker-Keeps instance_id = search (call_rules, closed) depth 9

  pub create_podman_secrets-Keeps : (task : FleetTask) → Keeps P (create_podman_secrets task)
  unfolding create_podman_secrets
  create_podman_secrets-Keeps task = search (call_rules, closed) depth 9

  pub start_units-Keeps : (units : List Text) → Keeps P (start_units units)
  start_units-Keeps units = search (call_rules, closed) depth 9

  pub check_tcp-Keeps : (o : Option ℤ) → Keeps P (check_tcp o)
  check_tcp-Keeps none = search keeps_rules
  check_tcp-Keeps (some port) = search (call_rules, closed)

  pub check_http-Keeps : (check : HealthCheck) (o : Option ℤ) → Keeps P (check_http check o)
  check_http-Keeps check none = search keeps_rules
  check_http-Keeps check (some port) = search (call_rules, closed) depth 9

  pub check_in_container-Keeps :
      (container : Text) (command : List Text) → Keeps P (check_in_container container command)
  check_in_container-Keeps container [] = search keeps_rules
  check_in_container-Keeps container (c ∷ cs) = search (call_rules, closed)

  pub run_declared-Keeps :
      (container : Text) (svc : ServiceInfo) (m : Ports) (o : Option HealthCheck)
      → Keeps P (run_declared container svc m o)
  unfolding run_check
  run_declared-Keeps container svc m none = search keeps_rules
  run_declared-Keeps container svc m (some check) =
      search (keeps_rules, check_tcp-Keeps, check_http-Keeps, check_in_container-Keeps) depth 9

  pub service_ready_check-Keeps :
      (container : Text) (svc : ServiceInfo) (m : Ports)
      → Keeps P (service_ready_check container svc m)
  unfolding service_ready_check
  service_ready_check-Keeps container svc m =
      search (call_rules, closed, run_declared-Keeps) depth 9

  pub poll-Keeps : (n : ℕ) (check : Act Text (Unit {0})) → Keeps P check → Keeps P (poll n check)
  unfolding poll
  poll-Keeps zero check k = search keeps_rules
  poll-Keeps (suc n) check k =
      Keeps-bind (observe check) _ (Keeps-observe check k) (λ r. again r (poll-Keeps n check k))
    where
      again :
          (r : Result Text (Unit {0}))
          → Keeps P (poll n check)
          → Keeps {E = Text} P
              (elim r [ ok _ ↦ pure tt | err e ↦ command Call.wait >> poll n check ])
      again (ok a) k' = search keeps_rules
      again (err e) k' =
          Keeps-bind (command Call.wait) _ (Keeps-command closed Call.wait refl) (λ _. k')

  pub wait_for_service_ready-Keeps :
      (instance_id : Text) (svc : ServiceInfo) (m : Ports)
      → Keeps P (wait_for_service_ready instance_id svc m)
  unfolding wait_for_service_ready
  wait_for_service_ready-Keeps instance_id svc m =
      poll-Keeps (attempts svc) _
        (service_ready_check-Keeps (container_name instance_id svc.name) svc m)

  pub poll_port-Keeps : (n : ℕ) (container : Text) (port : ℤ) → Keeps P (poll_port n container port)
  unfolding poll_port
  poll_port-Keeps zero container port = search keeps_rules
  poll_port-Keeps (suc n) container port =
      Keeps-bind (observe (read (Call.pod_port container port))) _ (search (call_rules, closed))
        (λ r. again r (poll_port-Keeps n container port))
    where
      again :
          (r : Result Text Text)
          → Keeps P (poll_port n container port)
          → Keeps {E = Text} P (elim r [
            | ok (c ∷ s) ↦ pure (c ∷ s)
            | ok [] ↦ command Call.wait >> poll_port n container port
            | err e ↦ command Call.wait >> poll_port n container port
          ])
      again (ok (c ∷ s)) k' = search keeps_rules
      again (ok []) k' =
          Keeps-bind (command Call.wait) _ (Keeps-command closed Call.wait refl) (λ _. k')
      again (err e) k' =
          Keeps-bind (command Call.wait) _ (Keeps-command closed Call.wait refl) (λ _. k')
