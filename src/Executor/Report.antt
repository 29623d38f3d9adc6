-- ===== src/Executor/Report.antt =====
-- What a task handler reports (`admiral.TaskResult`): errors, log lines and metadata as data, with
-- one constructor for each message that the handlers build.
use admiral_fleet.Prelude.{Text, ℤ, Bool, true, false, List, Option, none, some}
use admiral_fleet.Fleet.Task.{FleetTask, TaskAction, TierInfo}
use admiral_fleet.Fleet.Effects.{Result, ok, err, World, Act, Call}
use admiral_fleet.Security.{Refusal}

-- The step of a handler that an error message names.
pub data Stage : Type 0 where
  inspect_pause_state unpause_pod verify_pause_state persist_checks render_quadlet : Stage
  chown_data create_secrets pull_image reload_systemd collect_metadata pod_not_found : Stage
  data_roots allocate_ports write_tier remove_quadlet_files remove_data_dir : Stage
  stop_unit start_unit restart_unit : Text → Stage
  registry_login setup_command readiness : Text → Stage
  restart_after_setup : Text → Stage
  container_state : Stage
  check_artifact inspect_artifact open_dump : Stage
  stop_for_restore start_after_restore inspect_volume restore_volume : Text → Stage
  database_ready copy_artifact run_restore : Text → Stage
  init_s3 s3_connectivity s3_removal local_removal : Stage

pub data Failure : Type 0 where
  wrong_node : Text → Text → Failure
  unsupported_action : TaskAction → Failure
  rootless_user_required : Failure
  not_implemented : TaskAction → Failure
  invalid_instance_id invalid_operation_id : Refusal → Failure
  instance_id_required no_services service_name_required : Failure
  image_required : Text → Failure
  invalid_memory_limit : Text → Failure
  still_paused : Failure
  -- an error of a step, with its text
  failed : Stage → Text → Failure
  -- the same in a resize, with the units that the rollback could not start and their errors
  rolled_back : Stage → Text → List (Text × Text) → Failure
  -- the errors that the clean-up of a deprovision collected
  cleanup_failed : List (Call × Text) → Failure
  registry_policy : Text → Failure
  -- a failed readiness gate, and the outcome of the automatic clean-up
  not_ready : Text → Text → Failure
  not_ready_not_cleaned : Text → Text → Failure → Failure
  restore_metadata_required backup_id_required storage_key_required : Failure
  -- what a restore lacks or cannot do
  artifact_not_resolved artifact_not_accessible : Text → Text → Failure
  storage_not_supported checksum_mismatch backup_type_not_supported : Text → Failure
  download_failed : Text → Failure
  service_required : Failure
  service_not_found env_missing volume_without_mountpoint : Text → Failure
  no_volume_services : Failure
  -- the context of a restore ended during a wait
  interrupted : Text → Failure
  -- a nil pointer is dereferenced: the process ends
  crashed : Failure
  -- an error of a restore, and the error of leaving the instance paused
  not_paused_after_failure : Failure → Text → Failure
  not_paused : Text → Failure

pub data Report : Type 0 where
  no_report : Report
  simulated : TaskAction → Report
  started stopped resized deprovisioned already_provisioned provisioned : Text → Report
  restored deleted : Text → Report
  setup_command_failed not_ready_dirty not_ready_clean : Text → Report
  local_storage_active storage_reachable : Report

-- The `host_ports` and `has_setup` fields of the metadata, or the target tier of a resize.
pub data Metadata : Type 0 where
  no_metadata simulated_metadata executor_metadata : Metadata
  evidence : Text → Metadata
  host_ports : List (Text × ℤ) → Metadata
  host_ports_setup : List (Text × ℤ) → Bool → Metadata
  setup_failed : List (Text × ℤ) → Failure → Metadata
  target_tier : TierInfo → Metadata

pub record TaskResult : Type 0 where
  pub task_id : Text
  pub operation_id : Text
  pub node_id : Text
  pub success : Bool
  -- `result.Error`, `none` for the empty string
  pub error : Option Failure
  pub logs : Report
  pub metadata : Metadata

-- The result that `Execute` starts from: `Success` is false and the texts are empty.
unfoldable pub blank_result : FleetTask → Text → TaskResult
blank_result task node_id = record {
  task_id = task.task_id;
  operation_id = task.operation_id;
  node_id = node_id;
  success = false;
  error = none;
  logs = no_report;
  metadata = no_metadata;
}

-- `result.Success = false; result.Error = …; return result`
unfoldable pub failing : TaskResult → Failure → TaskResult
failing result f = record result { success = false; error = some f }

-- `result.Success = true; result.Logs = …; result.Metadata = …; return result`
unfoldable pub succeeding : TaskResult → Report × Metadata → TaskResult
succeeding result (logs, metadata) = record result {
  success = true;
  logs = logs;
  metadata = metadata;
}

abbrev pub closing : TaskResult → Result Failure (Report × Metadata) → TaskResult
closing result (ok r) = succeeding result r
closing result (err f) = failing result f

-- A handler as an action that fails or reports, and the result that it returns.
unfoldable pub conclude : TaskResult → Act Failure (Report × Metadata) → World → TaskResult × World
unfolding failing succeeding
conclude result m w = let (r, w') = m w in (closing result r, w')
