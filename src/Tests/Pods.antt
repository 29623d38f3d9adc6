-- ===== src/Tests/Pods.antt =====
-- A round of health reports at concrete answers of a node.
use admiral_fleet.Prelude.{
  Text, codes, true, false, ◌≡◌, refl, List, [], ◌∷◌, some, none, pos, eq_text, All, has_suffix,
  contains, contains_any, if◌then◌else◌, ℤ,
}
use admiral_fleet.Agent.Pods
use admiral_fleet.Agent.Pods.Report.{check_all_pods, list_quadlet_pod_files}
use admiral_fleet.Agent.Pods.Reported.{reports, check_all_pods-Reported}
use admiral_fleet.Agent.Pods.Earned.{Earned, check_all_pods-Earned}

abbrev settings : Pods.AgentSettings
settings = record {
  data_dir = [];
  quadlet_dir = codes "/q";
  publish_address = [];
  fleet_data_dir_env = [];
  data_dir_env = [];
}

abbrev web_check : Pods.Check
web_check = record {
  service_name = codes "web";
  health_check = record {
    type = codes " HTTP ";
    command = [];
    path = [];
    expected_status = pos 0;
    interval_seconds = pos 0;
    timeout_seconds = pos 0;
    failure_threshold = pos 0;
  };
  host_address = codes "0.0.0.0";
  host_port = pos 8080;
}

-- Two pods are listed, one of them runs; a third one has only a pod file.
abbrev node : Pods.Answers
node = record {
  pod_list = some (codes "admiral-a\tRunning\nother\tRunning\nadmiral-b\tExited");
  container_list = some (codes "admiral-a-web\trunning\nadmiral-b-web\texited");
  glob = λ p.
      if eq_text p (codes "/q/*.pod")
      then some (codes "/q/admiral-a.pod" ∷ codes "/q/admiral-c.pod" ∷ [])
      else if eq_text p (codes "/q/admiral-a-*.container")
      then some (codes "/q/admiral-a-web.container" ∷ [])
      else some [];
  check_file = λ p.
      if eq_text p (codes "/var/lib/admiral/instances/a/healthchecks.json")
      then Pods.declared (web_check ∷ [])
      else Pods.no_file;
  ports_file = λ p. (codes "web", pos 8080) ∷ [];
  exec_in = λ c args. false;
  dial = λ h p. false;
  get = λ h p path. if eq_text h (codes "127.0.0.1") then some (pos 200) else none;
  parse_ip = λ t. some (record { is_unspecified = eq_text t (codes "0.0.0.0"); is_v4 = true });
}

abbrev report_of : Text → Pods.Health → Pods.Message → List (Text × ℤ) → Pods.HealthReport
report_of i h m ports = record { instance_id = i; status = h; message = m; host_ports = ports }

round :
    check_all_pods settings node
    ≡ report_of (codes "a") Pods.healthy Pods.no_message ((codes "web", pos 8080) ∷ [])
      ∷ report_of (codes "b") Pods.stopped (Pods.pod_status (codes "Exited")) []
      ∷ report_of (codes "c") Pods.stopped Pods.no_pod []
      ∷ []
unfolding check_all_pods has_suffix contains contains_any
round = refl

check_all_pods-Earned_example : All (Earned settings node) (check_all_pods settings node)
check_all_pods-Earned_example = check_all_pods-Earned settings node

-- The third instance, which has a pod file and no pod.
check_all_pods-Reported_example : reports (codes "c") (check_all_pods settings node) ≡ true
unfolding Pods.list_admiral_pods list_quadlet_pod_files has_suffix
check_all_pods-Reported_example =
    check_all_pods-Reported settings node
      ((codes "admiral-a", codes "Running") ∷ (codes "admiral-b", codes "Exited") ∷ []) (codes "c")
      refl refl
