-- ===== src/Fleet/Task.antt =====
-- The task that the control plane sends (`admiral.FleetTask` and the types it is made of), with the
-- fields that the fleet reads. A Go map is the list of its entries in the order of iteration.
use admiral_fleet.Prelude.{Text, ℤ, Bool, Option, List}

-- `admiral.TaskAction`; `unknown` is any other string.
pub data TaskAction : Type 0 where
  provision_app start_app stop_app pause_app resume_app resize_app deprovision_app : TaskAction
  backup_database backup_volumes inspect_app delete_backup test_storage : TaskAction
  restore_backup pause_app_storage reactivate_app : TaskAction
  unknown : Text → TaskAction

pub record HealthCheck : Type 0 where
  pub type : Text
  pub command : List Text
  pub path : Text
  pub expected_status : ℤ
  pub interval_seconds : ℤ
  pub timeout_seconds : ℤ
  pub failure_threshold : ℤ

pub record Registry : Type 0 where
  pub server : Text
  pub username : Text
  pub password : Text

pub record SharedMount : Type 0 where
  pub name : Text
  pub mount : Text

pub record ServiceInfo : Type 0 where
  pub name : Text
  pub image : Text
  pub user : Text
  pub command : Text
  pub volume : Text
  pub port : ℤ
  pub env : List (Text × Text)
  pub secrets : List (Text × Text)
  pub shared_volumes : List SharedMount
  pub depends_on : List Text
  pub requires : List Text
  pub setup_command : Text
  pub setup_timeout : ℤ
  pub registry : Option Registry
  pub health_check : Option HealthCheck
  pub health_check_wait_secs : ℤ

pub record TierInfo : Type 0 where
  pub memory : Text
  pub storage : Text

pub record StorageConfig : Type 0 where
  pub backend : Text
  pub endpoint : Text
  pub bucket : Text
  pub key : Text
  pub backup_id : Text

pub record BackupInfo : Type 0 where
  pub service : Text
  pub database_type : Text
  pub database_env : Text
  pub username_env : Text
  pub password_env : Text

pub record RestoreInfo : Type 0 where
  pub backup_id : Text
  pub backup_type : Text
  pub storage_backend : Text
  pub storage_key : Text
  pub service : Text
  pub database_type : Text
  pub verify_checksum : Bool
  pub checksum_sha256 : Text

pub record FleetTask : Type 0 where
  pub task_id : Text
  pub operation_id : Text
  pub node_id : Text
  pub instance_id : Text
  pub action : TaskAction
  pub services : List ServiceInfo
  -- the names of the shared volumes
  pub shared_volumes : List Text
  pub tier : TierInfo
  pub verify_images : Bool
  pub setup_completed : Bool
  pub storage : Option StorageConfig
  pub backup : Option BackupInfo
  pub restore : Option RestoreInfo
  pub task_signature : Text
  pub signed_at : ℤ
