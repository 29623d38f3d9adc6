-- ===== src/Executor/Provision.antt =====
-- `provision`, `validateProvisionTask` and `failProvisionReadiness` (executor_provision.go).
pub mod Frame
pub mod Flow
pub mod Setup
use admiral_fleet.Prelude.{
  Text, codes, ℕ, zero, suc, ℤ, is_positive, Bool, true, false, not, List, [], ◌∷◌, ◌&&◌, ◌||◌,
  Option, none, some, if◌then◌else◌, is_empty, is_blank,
}
use admiral_fleet.Fleet.Task.{ServiceInfo, FleetTask, Registry}
use admiral_fleet.Fleet.Effects.{
  Result, ok, err, Act, World, Call, restart, pod_exists, pod_port, login, render,
  chown_instance_data, validate_data_roots, daemon_reload, wait, pure, fail, ◌>>=◌, ◌>>◌, observe,
  command, read, or_fail, for_each, when,
}
use admiral_fleet.Security.{validate_instance_id}
use admiral_fleet.Quadlet.Names.{pod_name, container_name}
use admiral_fleet.Quadlet.Policy.{PolicyError, validate_registry_host}
use admiral_fleet.Executor.Report
use admiral_fleet.Executor.Report.{
  Failure, Report, Metadata, TaskResult, failed, failing, succeeding, blank_result,
}
use admiral_fleet.Executor.Files.{
  Ports, load_host_ports, write_service_health_checks, write_instance_tier_info,
  setup_marker_exists, write_setup_marker, task_has_setup,
}
use admiral_fleet.Executor.Limits.{has_valid_task_memory_limit}
use admiral_fleet.Executor.Ports.{set_port, allocate_host_ports, parse_published_port}
use admiral_fleet.Executor.Readiness.{wait_for_service_ready, run_setup_commands}
use admiral_fleet.Executor.Lifecycle.{unit_names, create_podman_secrets, start_units}
use admiral_fleet.Executor.Deprovision.{deprovision_app}

-- How `provision` ends early: an error; an error beside log lines and metadata; a service that is
-- not ready, with the error.
pub data Abort : Type 0 where
  plain : Failure → Abort
  with_report : Failure → Report → Metadata → Abort
  unready : Text → Text → Abort

abbrev check_services : List ServiceInfo → Option Failure
check_services [] = none
check_services (svc ∷ services) =
    if is_blank svc.name
    then some Report.service_name_required
    else if is_blank svc.image
    then some (Report.image_required svc.name)
    else check_services services

abbrev is_nil : List ServiceInfo → Bool
is_nil [] = true
is_nil (s ∷ ss) = false

-- `validateProvisionTask`; `none` means that the task is accepted.
unfoldable pub validate_provision_task : FleetTask → Option Failure
unfolding has_valid_task_memory_limit
validate_provision_task task =
    if is_empty task.instance_id
    then some Report.instance_id_required
    else elim (validate_instance_id task.instance_id) [
      | some r ↦ some (Report.invalid_instance_id r)
      | none ↦
          if not (has_valid_task_memory_limit task.tier.memory)
          then some (Report.invalid_memory_limit task.tier.memory)
          else if is_nil task.services
          then some Report.no_services
          else check_services task.services
    ]

abbrev pub refuse : Option Failure → Act Abort (Unit {0})
refuse none = pure tt
refuse (some f) = fail (plain f)

-- `if err := m; err != nil { result.Error = …; return result }`
abbrev pub step : {A : Type 0} → Act Text A → Report.Stage → Act Abort A
step m stage = or_fail m (λ e. plain (failed stage e))

-- The branch of a pod that exists: nothing is created, and what was allocated is reported.
unfoldable pub already_provisioned_body : FleetTask → Act Abort (Report × Metadata)
unfolding ◌>>=◌ pure or_fail load_host_ports write_service_health_checks setup_marker_exists
    task_has_setup
already_provisioned_body task = do
  m ← load_host_ports task.instance_id
  or_fail (write_service_health_checks task.instance_id task.services m) (λ e.
      with_report (failed Report.persist_checks e) (Report.already_provisioned task.instance_id)
        Report.no_metadata)
  if task_has_setup task.services && task.setup_completed
      then pure (Report.already_provisioned task.instance_id, Report.host_ports_setup m true)
      else if task_has_setup task.services
      then (do
        done ← setup_marker_exists task.instance_id
        pure (
          Report.already_provisioned task.instance_id,
          if done then Report.host_ports_setup m true else Report.host_ports m,
        ))
      else pure (Report.already_provisioned task.instance_id, Report.host_ports m)

-- The login for one service, after the registry policy.
abbrev pub login_to : List Text → Text → Option Registry → Act Abort (Unit {0})
login_to allowed service none = pure tt
login_to allowed service (some r) = elim (validate_registry_host r.server allowed) [
  | some e ↦ fail (plain (Report.registry_policy service))
  | none ↦ step (command (login r.server r.username)) (Report.registry_login service)
]

-- The retries for a published port: an empty answer and an error are both followed by a wait.
unfoldable pub poll_port : ℕ → Text → ℤ → Act Text Text
unfolding ◌>>=◌ pure observe command read
poll_port zero container port = pure []
poll_port (suc n) container port = do
  r ← observe (read (pod_port container port))
  elim r [
    | ok (c ∷ s) ↦ pure (c ∷ s)
    | ok [] ↦ command wait >> poll_port n container port
    | err e ↦ command wait >> poll_port n container port
  ]

abbrev add_port : Text → Option ℤ → Ports → Ports
add_port name none m = m
add_port name (some p) m = set_port name p m

-- The host ports that Podman reports for the services that publish one.
unfoldable pub published_ports : Text → List ServiceInfo → Ports → Act Abort Ports
unfolding ◌>>=◌ pure or_fail poll_port parse_published_port
published_ports container [] m = pure m
published_ports container (svc ∷ services) m =
    if is_positive svc.port
    then (do
      raw ← step (poll_port 10 container svc.port) Report.collect_metadata
      published_ports container services (add_port svc.name (parse_published_port raw) m))
    else published_ports container services m

-- `result.Error`, `result.Logs` and `result.Metadata` of a failed setup.
abbrev pub setup_abort : Text → Ports → Failure → Abort
setup_abort instance_id m f =
    with_report f (Report.setup_command_failed instance_id) (Report.setup_failed m f)

-- The setup proper: the commands, a restart of the units, and the marker.
unfoldable pub set_up : FleetTask → Ports → Act Abort (Unit {0})
unfolding ◌>>=◌ or_fail for_each command run_setup_commands unit_names write_setup_marker
set_up task m = do
  or_fail (run_setup_commands task m) (setup_abort task.instance_id m)
  for_each (unit_names task) λ unit.
      or_fail (command (restart unit))
        (λ e. setup_abort task.instance_id m (failed (Report.restart_after_setup unit) e))
  write_setup_marker task.instance_id

-- The setup, unless its marker exists.
unfoldable pub set_up_unless_marked : FleetTask → Ports → Act Abort (Unit {0})
unfolding ◌>>=◌ pure set_up setup_marker_exists
set_up_unless_marked task m = do
  done ← setup_marker_exists task.instance_id
  if done then pure tt else set_up task m

-- The guard of the setup: not if the task says that it is completed.
unfoldable pub set_up_once : FleetTask → Ports → Act Abort (Unit {0})
unfolding pure set_up_unless_marked task_has_setup
set_up_once task m =
    if task_has_setup task.services && not task.setup_completed
    then set_up_unless_marked task m
    else pure tt

unfoldable pub provision_new : List Text → FleetTask → Act Abort (Report × Metadata)
unfolding ◌>>=◌ pure or_fail for_each command allocate_host_ports write_service_health_checks
    write_instance_tier_info create_podman_secrets published_ports set_up_once
    wait_for_service_ready unit_names task_has_setup
provision_new allowed task = do
  m ← step (allocate_host_ports task.instance_id task.services) Report.allocate_ports
  step (write_service_health_checks task.instance_id task.services m) Report.persist_checks
  step (write_instance_tier_info task.instance_id task.tier) Report.write_tier
  step (command (render task m)) Report.render_quadlet
  step (command (chown_instance_data task.instance_id)) Report.chown_data
  step (create_podman_secrets task) Report.create_secrets
  step (command daemon_reload) Report.reload_systemd
  for_each task.services λ svc. login_to allowed svc.name svc.registry
  or_fail (start_units (unit_names task)) plain
  host ← published_ports (container_name task.instance_id (codes "infra")) task.services []
  set_up_once task host
  for_each task.services
      λ svc. or_fail (wait_for_service_ready task.instance_id svc host) (unready svc.name)
  pure (
    Report.provisioned task.instance_id,
    Report.host_ports_setup host (task_has_setup task.services || task.setup_completed),
  )

abbrev pub provision_by :
    List Text → FleetTask → Result Text (Unit {0}) → Act Abort (Report × Metadata)
provision_by allowed task (ok _) = already_provisioned_body task
provision_by allowed task (err e) = provision_new allowed task

-- The body of `provision`, with the registries that the node allows.
unfoldable pub provision_body : List Text → FleetTask → Act Abort (Report × Metadata)
unfolding ◌>>=◌ pure fail or_fail observe command validate_provision_task already_provisioned_body
    provision_new
provision_body allowed task = do
  refuse (validate_provision_task task)
  step (command validate_data_roots) Report.data_roots
  r ← observe (command (pod_exists (pod_name task.instance_id)))
  provision_by allowed task r

abbrev readiness_result : TaskResult → Text → Text → Bool → Option Failure → TaskResult
readiness_result result service e true _ = record (failing result (Report.not_ready service e)) {
  logs = Report.not_ready_clean service;
}
readiness_result result service e false (some f) =
    record (failing result (Report.not_ready_not_cleaned service e f)) {
      logs = Report.not_ready_dirty service;
    }
readiness_result result service e false none =
    record (failing result (Report.not_ready service e)) { logs = Report.not_ready_dirty service }

-- `failProvisionReadiness`: the workload is deprovisioned, and the failure stays.
unfoldable pub fail_provision_readiness :
    FleetTask → TaskResult → Text → Text → World → TaskResult × World
unfolding failing deprovision_app
fail_provision_readiness task result service e w =
    let (cleanup, w') = deprovision_app task result w in
    (readiness_result result service e cleanup.success cleanup.error, w')

abbrev pub provision_end :
    FleetTask → TaskResult → Result Abort (Report × Metadata) → World → TaskResult × World
provision_end task result (ok r) w = (succeeding result r, w)
provision_end task result (err (plain f)) w = (failing result f, w)
provision_end task result (err (with_report f logs metadata)) w =
    (record (failing result f) { logs = logs; metadata = metadata }, w)
provision_end task result (err (unready service e)) w =
    fail_provision_readiness task result service e w

-- `provision`
unfoldable pub provision : List Text → FleetTask → TaskResult → World → TaskResult × World
unfolding provision_body succeeding failing fail_provision_readiness
provision allowed task result w =
    let (r, w') = provision_body allowed task w in provision_end task result r w'
