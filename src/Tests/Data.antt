-- ===== src/Tests/Data.antt =====
-- The tasks and nodes of the tests.
use admiral_fleet.Prelude.{Text, codes, pos, Bool, false, [], ◌∷◌, none, eq_text}
use admiral_fleet.Fleet.Task.{ServiceInfo, FleetTask, TaskAction}
use admiral_fleet.Fleet.Effects.{
  Result, ok, err, Call, Value, Log, nothing, stop, pod_exists, stat, remove_pod, pod_port, output,
  container_inspect,
}
use admiral_fleet.Executor.Report.{TaskResult, blank_result}

abbrev pub web : ServiceInfo
web = record {
  name = codes "web";
  image = codes "docker.io/library/nginx:1.27";
  user = [];
  command = [];
  volume = codes "/data";
  port = pos 80;
  env = [];
  secrets = (codes "TOKEN", codes "s3cret") ∷ [];
  shared_volumes = [];
  depends_on = [];
  requires = [];
  setup_command = codes "migrate";
  setup_timeout = pos 0;
  registry = none;
  health_check = none;
  health_check_wait_secs = pos 0;
}

abbrev pub worker : ServiceInfo
worker = record web {
  name = codes "worker";
  volume = [];
  port = pos 81;
  secrets = [];
  setup_command = [];
}

abbrev pub task_of : TaskAction → FleetTask
task_of action = record {
  task_id = codes "t1";
  operation_id = codes "op1";
  node_id = codes "node1";
  instance_id = codes "inst1";
  action = action;
  services = web ∷ worker ∷ [];
  shared_volumes = codes "media" ∷ [];
  tier = record { memory = codes "512M"; storage = codes "1G" };
  verify_images = false;
  setup_completed = false;
  storage = none;
  backup = none;
  restore = none;
  task_signature = codes "00ff";
  signed_at = pos 1000;
}

abbrev pub blank : FleetTask → TaskResult
blank task = record {
  task_id = task.task_id;
  operation_id = task.operation_id;
  node_id = codes "node1";
  success = false;
  error = none;
  logs = admiral_fleet.Executor.Report.no_report;
  metadata = admiral_fleet.Executor.Report.no_metadata;
}

-- A node on which everything succeeds.
abbrev pub willing : Log → Call → Result Text Value
willing log c = ok nothing

-- A node that stops nothing and removes no pod.
abbrev pub stubborn : Log → Call → Result Text Value
stubborn log (stop unit) = err (codes "Unit not loaded")
stubborn log (remove_pod pod) = err (codes "busy")
stubborn log c = ok nothing

-- A node without the instance, on which containers run.
abbrev pub empty_node : Log → Call → Result Text Value
empty_node log (pod_exists pod) = err (codes "no such pod")
empty_node log (stat f) = err (codes "no such file")
empty_node log (pod_port container port) = ok (output (codes "127.0.0.1:40000"))
empty_node log (container_inspect container) = ok (output (codes "running"))
empty_node log c = ok nothing

abbrev pub no_file : Text → Bool
no_file e = eq_text e (codes "no such file")
