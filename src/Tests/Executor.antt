-- ===== src/Tests/Executor.antt =====
-- The executor at concrete tasks and nodes.
use admiral_fleet.Prelude.{
  Text, ℕ, ◌+◌, codes, ℤ, pos, true, false, ◌≡◌, refl, List, [], ◌∷◌, All, contains, contains_any,
  has_prefix, eq_text, trim_space, trim_left, scan_digits,
}
use admiral_fleet.Fleet.Task
use admiral_fleet.Fleet.Effects.{fresh}
use admiral_fleet.Security.{validate_instance_id, validate_id}
use admiral_fleet.Quadlet.Names.{pod_unit_name}
use admiral_fleet.Executor.Deprovision.{deprovision_app}
use admiral_fleet.Executor.Deprovision.Cleanup.{attempted, Tolerated}
use admiral_fleet.Executor.Deprovision.Plan.{cleanup_plan}
use admiral_fleet.Executor.Deprovision.Safety.{
  Guarded, metadata_goes_last, every_removal_is_attempted,
}
use admiral_fleet.Executor.Lifecycle.FailFast.{EndsWell, start_and_stop-EndsWell}
use admiral_fleet.Executor.Lifecycle.{start_app, stop_app, resize_app}
use admiral_fleet.Executor.Lifecycle.Rollback.{up, resize_restarts}
use admiral_fleet.Executor.Ports.{assign_ports, next_port, min_host_port, max_host_port, set_port}
use admiral_fleet.Executor.Ports.Range.{InBlock, Distinct, Covered}
use admiral_fleet.Executor.Ports.Allocation.{allocated_ports}
use admiral_fleet.Executor.Provision.{provision}
use admiral_fleet.Executor.Provision.Setup.{
  SetUpOnce, setup_only_without_marker, NoSetup, provision-NoSetup,
}
use admiral_fleet.Executor.Dispatch.{Handlers, Settings, execute, execute_simulated}
use admiral_fleet.Executor.Dispatch.Guards.{is_for, refusals_agree}
use admiral_fleet.Tests.Data.{task_of, blank, willing, stubborn, empty_node, no_file, web, worker}

abbrev removal : Task.FleetTask
removal = task_of Task.deprovision_app

metadata_goes_last_example :
    let (r, w) = deprovision_app removal (blank removal) (fresh stubborn no_file) in
    Guarded w.log × (r.success ≡ true → All Tolerated w.log)
metadata_goes_last_example = metadata_goes_last removal (blank removal) stubborn no_file

every_removal_is_attempted_example :
    attempted (deprovision_app removal (blank removal) (fresh stubborn no_file)).1.log []
    ≡ cleanup_plan removal
unfolding validate_instance_id validate_id contains contains_any has_prefix
every_removal_is_attempted_example =
    every_removal_is_attempted removal (blank removal) stubborn no_file refl

abbrev resizing : Task.FleetTask
resizing = task_of Task.resize_app

resize_restarts_example :
    up
      (pod_unit_name (codes "inst1"))
      (resize_app resizing (blank resizing) (fresh willing no_file)).1.log
    ≡ true
resize_restarts_example = resize_restarts resizing (blank resizing) willing no_file

abbrev counter_text : Text
counter_text = codes "40010"

abbrev new_ports : List (Text × ℤ) × ℕ
new_ports = ((codes "web", pos 40010) ∷ (codes "worker", pos 40011) ∷ [], 40012)

allocated_ports_example :
    All (λ e. InBlock min_host_port (max_host_port + 1) e.1) new_ports.0
    × Distinct new_ports.0
    × Covered (next_port counter_text) 40012 new_ports.0 (web ∷ worker ∷ [])
unfolding assign_ports set_port next_port trim_space trim_left scan_digits eq_text
allocated_ports_example = allocated_ports counter_text (web ∷ worker ∷ []) {r = new_ports} refl

abbrev creation : Task.FleetTask
creation = task_of Task.provision_app

setup_only_without_marker_example :
    SetUpOnce
      (codes "inst1")
      (provision [] creation (blank creation) (fresh empty_node no_file)).1.log
setup_only_without_marker_example =
    setup_only_without_marker [] creation (blank creation) empty_node no_file

abbrev set_up_before : Task.FleetTask
set_up_before = record creation { setup_completed = true }

provision-NoSetup_example :
    NoSetup (provision [] set_up_before (blank set_up_before) (fresh empty_node no_file)).1.log
provision-NoSetup_example =
    provision-NoSetup [] set_up_before (blank set_up_before) empty_node no_file refl

abbrev no_handlers : Handlers
no_handlers = record {
  inspect = λ t r w. (r, w);
  backup_database = λ t r w. (r, w);
  backup_volumes = λ t r w. (r, w);
  delete_backup = λ t r w. (r, w);
  test_storage = λ t r w. (r, w);
  restore_backup = λ t r w. (r, w);
}

abbrev node_settings : Settings
node_settings = record { rootless_user = codes "admiral"; allowed_registries = [] }

refusals_agree_example :
    let w = fresh willing no_file in
    ((execute_simulated removal (codes "node2")).success ≡ is_for removal (codes "node2"))
    × ((execute_simulated removal (codes "node2")).success ≡ false
        → execute no_handlers node_settings removal (codes "node2") w
          ≡ (execute_simulated removal (codes "node2"), w))
refusals_agree_example =
    refusals_agree no_handlers node_settings removal (codes "node2") (fresh willing no_file)

abbrev starting : Task.FleetTask
starting = task_of Task.start_app

start_and_stop-EndsWell_example :
    EndsWell (start_app starting (blank starting) (fresh stubborn no_file))
    × EndsWell (stop_app starting (blank starting) (fresh stubborn no_file))
start_and_stop-EndsWell_example = start_and_stop-EndsWell starting (blank starting) stubborn no_file
