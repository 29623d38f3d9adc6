-- ===== src/Executor/Dispatch.antt =====
-- `Execute` of both executors and `isAllowedAction` (executor.go, systemd_podman.go). The handlers
-- of inspection, backups, storage tests and restores are a parameter, `Handlers`.
pub mod Guards
use admiral_fleet.Prelude.{
  Text, Bool, true, false, not, List, some, if◌then◌else◌, eq_text, is_blank,
}
use admiral_fleet.Fleet.Task
use admiral_fleet.Fleet.Task.{FleetTask, TaskAction}
use admiral_fleet.Fleet.Effects.{World}
use admiral_fleet.Executor.Report.{
  TaskResult, wrong_node, unsupported_action, rootless_user_required, not_implemented, blank_result,
  failing, succeeding, simulated, simulated_metadata, executor_metadata,
}
use admiral_fleet.Executor.Lifecycle.{start_app, stop_app, resize_app}
use admiral_fleet.Executor.Deprovision.{deprovision_app}
use admiral_fleet.Executor.Provision.{provision}

abbrev pub Handler : Type 0
Handler = FleetTask → TaskResult → World → TaskResult × World

pub record Handlers : Type 0 where
  pub inspect : Handler
  pub backup_database : Handler
  pub backup_volumes : Handler
  pub delete_backup : Handler
  pub test_storage : Handler
  pub restore_backup : Handler

-- The fields of `SystemdPodmanExecutor` that `Execute` and `provision` read.
pub record Settings : Type 0 where
  pub rootless_user : Text
  pub allowed_registries : List Text

-- `isAllowedAction`
unfoldable pub is_allowed_action : TaskAction → Bool
is_allowed_action (TaskAction.unknown a) = false
is_allowed_action _ = true

-- `SimulatedExecutor.Execute`
unfoldable pub execute_simulated : FleetTask → Text → TaskResult
unfolding is_allowed_action blank_result failing succeeding
execute_simulated task node_id =
    let result = blank_result task node_id in
    if not (eq_text task.node_id node_id)
    then failing result (wrong_node task.node_id node_id)
    else if not (is_allowed_action task.action)
    then failing result (unsupported_action task.action)
    else succeeding result (simulated task.action, simulated_metadata)

-- The `switch` of `SystemdPodmanExecutor.Execute`
unfoldable pub dispatch : Handlers → Settings → TaskAction → Handler
unfolding failing
dispatch h s TaskAction.provision_app = provision s.allowed_registries
dispatch h s TaskAction.start_app = start_app
dispatch h s TaskAction.reactivate_app = start_app
dispatch h s TaskAction.resume_app = start_app
dispatch h s TaskAction.stop_app = stop_app
dispatch h s TaskAction.pause_app_storage = stop_app
dispatch h s TaskAction.pause_app = stop_app
dispatch h s TaskAction.deprovision_app = deprovision_app
dispatch h s TaskAction.inspect_app = h.inspect
dispatch h s TaskAction.backup_database = h.backup_database
dispatch h s TaskAction.backup_volumes = h.backup_volumes
dispatch h s TaskAction.resize_app = resize_app
dispatch h s TaskAction.delete_backup = h.delete_backup
dispatch h s TaskAction.test_storage = h.test_storage
dispatch h s TaskAction.restore_backup = h.restore_backup
dispatch h s (TaskAction.unknown a) = λ task result w.
    (record (failing result (not_implemented task.action)) { metadata = executor_metadata }, w)

-- `SystemdPodmanExecutor.Execute`
unfoldable pub execute : Handlers → Settings → FleetTask → Text → World → TaskResult × World
unfolding is_allowed_action blank_result failing dispatch
execute h s task node_id w =
    let result = blank_result task node_id in
    if not (eq_text task.node_id node_id)
    then (failing result (wrong_node task.node_id node_id), w)
    else if not (is_allowed_action task.action)
    then (failing result (unsupported_action task.action), w)
    else if is_blank s.rootless_user
    then (failing result rootless_user_required, w)
    else dispatch h s task.action task result w
