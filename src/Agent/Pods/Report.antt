-- ===== src/Agent/Pods/Report.antt =====
-- What is reported of the pods (`checkAllPods` in internal/agent/health.go).
use admiral_fleet.Prelude.{
  Text, codes, not, List, [], ◌∷◌, ◌++◌, eq_text, is_empty, any_of, if◌then◌else◌, Option, none,
  some, ℤ, to_lower, trim_space,
}
use admiral_fleet.Fleet.Paths.{join_path}
use admiral_fleet.Security.{validate_instance_id}
use admiral_fleet.Agent.Pods

-- The first declared check that fails, by the name of its service.
unfoldable pub first_failure :
    Pods.AgentSettings → Pods.Answers → Text → List Pods.Check → Option Text
unfolding Pods.run_declared_service_health_check
first_failure a n instance [] = none
first_failure a n instance (c ∷ cs) = elim (Pods.run_declared_service_health_check a n instance c) [
  | none ↦ first_failure a n instance cs
  | some e ↦ some c.service_name
]

abbrev pub check_path : Pods.AgentSettings → Text → Text
check_path a instance =
    let dir =
      Pods.or_else (trim_space a.data_dir)
        (Pods.or_else (trim_space a.fleet_data_dir_env) (codes "/var/lib/admiral")) in
    join_path dir (join_path (codes "instances") (join_path instance (codes "healthchecks.json")))

abbrev pub blamed : Option Text → Option Pods.Message
blamed none = none
blamed (some service) = some (Pods.check_failed service)

unfoldable pub check_declared :
    Pods.AgentSettings → Pods.Answers → Text → Pods.CheckFile → Option Pods.Message
unfolding first_failure
check_declared a n instance Pods.no_file = none
check_declared a n instance Pods.unreadable = some Pods.checks_unreadable
check_declared a n instance Pods.unparsed = some Pods.checks_unparsed
check_declared a n instance (Pods.declared cs) = blamed (first_failure a n instance cs)

-- `checkDeclaredServiceHealth`: what is wrong, if anything is.
unfoldable pub check_declared_service_health :
    Pods.AgentSettings → Pods.Answers → Text → Option Pods.Message
unfolding check_declared validate_instance_id join_path trim_space
check_declared_service_health a n instance = elim (validate_instance_id instance) [
  | some refusal ↦ some Pods.bad_identity
  | none ↦ check_declared a n instance (n.check_file (check_path a instance))
]

abbrev pub unit_name : Text → Text
unit_name file = Pods.trim_suffix (Pods.base file) (codes ".container")

abbrev pub check_state : Text → Option Text → Option Pods.Message
check_state name none = some (Pods.service_unavailable name)
check_state name (some state) =
    if eq_text (to_lower (trim_space state)) (codes "running")
    then none
    else some (Pods.service_not_running name)

-- The loop over the unit files.
unfoldable pub check_containers : List (Text × Text) → List Text → Option Pods.Message
unfolding Pods.state_of eq_text to_lower trim_space
check_containers states [] = none
check_containers states (file ∷ files) =
    elim (check_state (unit_name file) (Pods.state_of (unit_name file) states)) [
      | none ↦ check_containers states files
      | some m ↦ some m
    ]

abbrev pub check_units : List (Text × Text) → Option (List Text) → Option Pods.Message
check_units states none = some Pods.glob_failed
check_units states (some []) = some Pods.no_units
check_units states (some (file ∷ files)) = check_containers states (file ∷ files)

abbrev pub unit_dir : Pods.AgentSettings → Text
unit_dir a = Pods.or_else a.quadlet_dir (codes "/etc/containers/systemd/admiral")

abbrev pub unit_pattern : Pods.AgentSettings → Text → Text
unit_pattern a instance =
    join_path (unit_dir a)
      (codes "admiral-" ++ Pods.sanitize_instance_id instance ++ codes "-*.container")

-- `checkInstanceServiceContainers`: what is wrong, if anything is.
unfoldable pub check_instance_service_containers :
    Pods.AgentSettings → Pods.Answers → Text → Option (List (Text × Text)) → Option Pods.Message
unfolding check_containers Pods.sanitize_instance_id join_path
check_instance_service_containers a n instance none = some Pods.inspect_failed
check_instance_service_containers a n instance (some states) =
    check_units states (n.glob (unit_pattern a instance))

unfoldable pub detect_host_ports : Pods.AgentSettings → Pods.Answers → Text → List (Text × ℤ)
unfolding Pods.sanitize_instance_id join_path
detect_host_ports a n instance =
    let dir = Pods.or_else a.data_dir_env (codes "/var/lib/admiral") in
    let id = Pods.sanitize_instance_id instance in
    n.ports_file (join_path dir (join_path (codes "instances") (join_path id (codes "ports.json"))))

abbrev pub without_ports : Text → Pods.Health → Pods.Message → Pods.HealthReport
without_ports instance h m = record {
  instance_id = instance;
  status = h;
  message = m;
  host_ports = [];
}

-- The report of one pod.
unfoldable pub report_pod :
    Pods.AgentSettings
    → Pods.Answers
    → Option (List (Text × Text))
    → Text
    → Text
    → Pods.HealthReport
unfolding check_instance_service_containers check_declared_service_health detect_host_ports eq_text
report_pod a n states instance status =
    if not (eq_text status (codes "Running"))
    then without_ports instance Pods.stopped (Pods.pod_status status)
    else elim (check_instance_service_containers a n instance states) [
      | some m ↦ without_ports instance Pods.unhealthy m
      | none ↦ elim (check_declared_service_health a n instance) [
        | some m ↦ without_ports instance Pods.unhealthy m
        | none ↦ record {
          instance_id = instance;
          status = Pods.healthy;
          message = Pods.no_message;
          host_ports = detect_host_ports a n instance;
        }
      ]
    ]

-- The reports of the pods that are listed.
unfoldable pub report_pods :
    Pods.AgentSettings
    → Pods.Answers
    → Option (List (Text × Text))
    → List (Text × Text)
    → List Pods.HealthReport
unfolding report_pod Pods.extract_instance_id
report_pods a n states [] = []
report_pods a n states ((name, status) ∷ pods) =
    let rest = report_pods a n states pods in
    if is_empty (Pods.extract_instance_id name)
    then rest
    else report_pod a n states (Pods.extract_instance_id name) status ∷ rest

-- The keys of `runningPods`.
abbrev pub listed_instances : List (Text × Text) → List Text
listed_instances [] = []
listed_instances ((name, status) ∷ pods) =
    let rest = listed_instances pods in
    if is_empty (Pods.extract_instance_id name) then rest else Pods.extract_instance_id name ∷ rest

abbrev pub pod_ids : List Text → List Text
pod_ids [] = []
pod_ids (file ∷ files) =
    let id = Pods.extract_instance_id (Pods.trim_suffix (Pods.base file) (codes ".pod")) in
    let rest = pod_ids files in if is_empty id then rest else id ∷ rest

unfoldable pub list_quadlet_pod_files : Pods.AgentSettings → Pods.Answers → List Text
unfolding Pods.extract_instance_id join_path
list_quadlet_pod_files a n = elim (n.glob (join_path (unit_dir a) (codes "*.pod"))) [
  | none ↦ []
  | some files ↦ pod_ids files
]

-- A pod file whose instance is in no pod that was listed.
unfoldable pub report_missing : List Text → List Text → List Pods.HealthReport
unfolding eq_text
report_missing listed [] = []
report_missing listed (id ∷ ids) =
    let rest = report_missing listed ids in
    if any_of (λ x. eq_text x id) listed
    then rest
    else without_ports id Pods.stopped Pods.no_pod ∷ rest

-- The reports in the order in which they are sent; one that cannot be sent does not stop the rest.
unfoldable pub check_all_pods : Pods.AgentSettings → Pods.Answers → List Pods.HealthReport
unfolding report_pods report_missing Pods.list_admiral_pods Pods.list_admiral_container_states
    list_quadlet_pod_files
check_all_pods a n = elim (Pods.list_admiral_pods n) [
  | none ↦ []
  | some pods ↦
      report_pods a n (Pods.list_admiral_container_states n) pods
      ++ report_missing (listed_instances pods) (list_quadlet_pod_files a n)
]
