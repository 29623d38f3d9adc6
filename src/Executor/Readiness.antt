-- ===== src/Executor/Readiness.antt =====
-- Waiting for services: `waitForServiceReady`, `serviceReadyCheck`, `setupDependencyNames` and
-- `runSetupCommands` (executor_provision.go).
use admiral_fleet.Prelude.{
  Text, codes, ℕ, zero, suc, ◌/◌, ℤ, pos, is_positive, is_zero, pos_part, eq_ℤ, List, [], ◌∷◌, ◌++◌,
  ◌||◌, Option, none, some, if◌then◌else◌, eq_text, is_empty, is_blank, trim_space, to_lower,
  any_of,
}
use admiral_fleet.Fleet.Task.{ServiceInfo, HealthCheck, FleetTask}
use admiral_fleet.Fleet.Effects.{
  ok, err, Act, container_exists, container_inspect, setup_shell, check_command, dial, http_get,
  wait, pure, fail, ◌>>=◌, ◌>>◌, observe, command, read, count, or_fail, for_each,
}
use admiral_fleet.Quadlet.Names.{container_name}
use admiral_fleet.Executor.Report.{Failure, failed, readiness, setup_command}
use admiral_fleet.Executor.Files.{Ports, port_of}

-- `hostPort, ok := hostPorts[svc.Name]; !ok || hostPort <= 0`
unfoldable pub published : Text → Ports → Option ℤ
unfolding port_of
published name m = let p = port_of name m in if is_positive p then some p else none

abbrev path_or_root : Text → Text
path_or_root [] = b'/' ∷ []
path_or_root (c ∷ s) = c ∷ s

abbrev status_or_ok : ℤ → ℤ
status_or_ok s = if is_zero s then pos 200 else s

-- The check that a service declares: `ok` means that it is ready.
abbrev pub not_published : Act Text (Unit {0})
not_published = fail (codes "healthcheck requires a published port")

abbrev pub check_tcp : Option ℤ → Act Text (Unit {0})
check_tcp none = not_published
check_tcp (some p) = command (dial p)

abbrev pub check_http : HealthCheck → Option ℤ → Act Text (Unit {0})
check_http check none = not_published
check_http check (some p) = do
  status ← count (http_get p (path_or_root check.path))
  if eq_ℤ status (status_or_ok check.expected_status)
      then pure tt
      else fail (codes "unexpected status")

abbrev pub check_in_container : Text → List Text → Act Text (Unit {0})
check_in_container container [] = fail (codes "command healthcheck requires command")
check_in_container container (c ∷ cs) = command (check_command container (c ∷ cs))

-- The `switch` on the type of the check.
unfoldable pub run_check : Text → ServiceInfo → Ports → HealthCheck → Act Text (Unit {0})
unfolding ◌>>=◌ pure fail command count published
run_check container svc m check =
    let type = to_lower (trim_space check.type) in
    if is_empty type || eq_text type (codes "none")
    then pure tt
    else if eq_text type (codes "command")
    then check_in_container container check.command
    else if eq_text type (codes "tcp")
    then check_tcp (published svc.name m)
    else if eq_text type (codes "http")
    then check_http check (published svc.name m)
    else fail (codes "healthcheck type is unsupported")

abbrev pub run_declared : Text → ServiceInfo → Ports → Option HealthCheck → Act Text (Unit {0})
run_declared container svc m none = pure tt
run_declared container svc m (some check) = run_check container svc m check

-- `serviceReadyCheck`. The node answers the inspection with the status that
-- `extractContainerStatus` reads from it.
unfoldable pub service_ready_check : Text → ServiceInfo → Ports → Act Text (Unit {0})
unfolding ◌>>=◌ pure fail command read run_check
service_ready_check container svc m = do
  command (container_exists container)
  status ← read (container_inspect container)
  if eq_text status (codes "running")
      then run_declared container svc m svc.health_check
      else fail (codes "container is not running")

abbrev interval_of : Option HealthCheck → ℕ
interval_of none = 2
interval_of (some check) =
    if is_positive check.interval_seconds then pos_part check.interval_seconds else 2

abbrev attempts_of : Option HealthCheck → ℕ
attempts_of none = 60
attempts_of (some check) =
    if is_positive check.failure_threshold then pos_part check.failure_threshold else 60

abbrev at_least_one : ℕ → ℕ
at_least_one zero = 1
at_least_one (suc n) = suc n

-- The number of attempts: a waiting time in seconds goes before the threshold.
unfoldable pub attempts : ServiceInfo → ℕ
attempts svc =
    if is_positive svc.health_check_wait_secs
    then at_least_one (pos_part svc.health_check_wait_secs / interval_of svc.health_check)
    else attempts_of svc.health_check

-- The loop of `waitForServiceReady`. An error of `wait` is that of a cancelled context.
unfoldable pub poll : ℕ → Act Text (Unit {0}) → Act Text (Unit {0})
unfolding ◌>>=◌ pure fail observe command
poll zero check = fail (codes "service did not reach ready state in time")
poll (suc n) check = do
  r ← observe check
  elim r [ ok _ ↦ pure tt | err e ↦ command wait >> poll n check ]

-- `waitForServiceReady`
unfoldable pub wait_for_service_ready : Text → ServiceInfo → Ports → Act Text (Unit {0})
unfolding poll attempts service_ready_check
wait_for_service_ready instance_id svc m =
    poll (attempts svc) (service_ready_check (container_name instance_id svc.name) svc m)

abbrev remember_name : List Text → Text → List Text
remember_name names name = if any_of (λ n. eq_text n name) names then names else names ++ name ∷ []

unfoldable pub add_names : List Text → List Text → List Text
add_names names [] = names
add_names names (n ∷ more) = add_names (remember_name names n) more

-- `setupDependencyNames`: what is required, then what is depended on, each name once.
unfoldable pub setup_dependency_names : ServiceInfo → List Text
unfolding add_names
setup_dependency_names svc = add_names (add_names [] svc.requires) svc.depends_on

-- `servicesByName[name]`, in which the last service of a name stays.
unfoldable pub service_by_name : Text → List ServiceInfo → Option ServiceInfo
service_by_name name [] = none
service_by_name name (svc ∷ services) =
    let later = service_by_name name services in
    elim later [ some s ↦ some s | none ↦ if eq_text svc.name name then some svc else none ]

abbrev pub wait_for_dependency : Text → Ports → Text → Option ServiceInfo → Act Failure (Unit {0})
wait_for_dependency instance_id m name none = pure tt
wait_for_dependency instance_id m name (some dep) =
    or_fail (wait_for_service_ready instance_id dep m) (failed (readiness name))

-- The setup of one service, after its dependencies and itself are ready.
unfoldable pub run_setup : FleetTask → Ports → ServiceInfo → Act Failure (Unit {0})
unfolding ◌>>=◌ pure or_fail command for_each wait_for_service_ready setup_dependency_names
    service_by_name
run_setup task m svc = if is_blank svc.setup_command then pure tt else do
  for_each (setup_dependency_names svc)
      λ name. wait_for_dependency task.instance_id m name (service_by_name name task.services)
  or_fail (wait_for_service_ready task.instance_id svc m) (failed (readiness svc.name))
  or_fail (command (setup_shell svc.name svc.setup_command)) (failed (setup_command svc.name))

-- `runSetupCommands`
unfoldable pub run_setup_commands : FleetTask → Ports → Act Failure (Unit {0})
unfolding for_each run_setup
run_setup_commands task m = for_each task.services (run_setup task m)
