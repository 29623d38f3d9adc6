-- ===== src/Agent/Pods.antt =====
-- The health of pods: `checkAllPods`, the declared checks of services, and the parsers of what Podman
-- lists (internal/agent/health.go). The answers of the node are parameters; a report's node, boot
-- and time are left out.
pub mod Report
pub mod Earned
pub mod Reported
use admiral_fleet.Prelude.{
  Text, codes, ℕ, Bool, true, false, not, ◌&&◌, ◌||◌, List, [], ◌∷◌, ◌++◌, eq_text, is_empty,
  is_blank, if◌then◌else◌, Option, none, some, ℤ, pos, is_positive, is_zero, eq_ℤ, ◌==◌, to_lower,
  trim_space, lines, has_prefix, has_suffix, trim_prefix, length, take, any_of, ◌-◌,
}
use admiral_fleet.Fleet.Task.{HealthCheck}
use admiral_fleet.Fleet.Paths.{dots_out, slashes_out, split, clean, join_path, slash}
use admiral_fleet.Security.{validate_instance_id}

-- `healthcheck.Check`
pub record Check : Type 0 where
  pub service_name : Text
  pub health_check : HealthCheck
  pub host_address : Text
  pub host_port : ℤ

-- The file of the declared checks: it does not exist, cannot be read, is no JSON, or is a list.
pub data CheckFile : Type 0 where
  no_file unreadable unparsed : CheckFile
  declared : List Check → CheckFile

-- `net.ParseIP` of an address: whether it is unspecified, and whether it is an IPv4 address.
pub record ParsedIp : Type 0 where
  pub is_unspecified : Bool
  pub is_v4 : Bool

-- The answers of the node: `podman pod ps` and `podman ps`, `filepath.Glob`, the files of an
-- instance by their path, a command in a container, a TCP connection, and the status of a GET.
pub record Answers : Type 0 where
  pub pod_list : Option Text
  pub container_list : Option Text
  pub glob : Text → Option (List Text)
  pub check_file : Text → CheckFile
  pub ports_file : Text → List (Text × ℤ)
  pub exec_in : Text → List Text → Bool
  pub dial : Text → ℤ → Bool
  pub get : Text → ℤ → Text → Option ℤ
  pub parse_ip : Text → Option ParsedIp

-- The fields of `Agent` and the two variables of the environment that the checks read.
pub record AgentSettings : Type 0 where
  pub data_dir : Text
  pub quadlet_dir : Text
  pub publish_address : Text
  pub fleet_data_dir_env : Text
  pub data_dir_env : Text

pub data Message : Type 0 where
  no_message inspect_failed glob_failed no_units no_pod bad_identity checks_unreadable
        checks_unparsed :
      Message
  pod_status service_unavailable service_not_running check_failed : Text → Message

pub data Health : Type 0 where
  healthy stopped unhealthy : Health

-- `healthReport`
pub record HealthReport : Type 0 where
  pub instance_id : Text
  pub status : Health
  pub message : Message
  pub host_ports : List (Text × ℤ)

pub data CheckError : Type 0 where
  empty_service empty_command command_failed no_port bad_address no_connection no_response
        wrong_status unsupported :
      CheckError

abbrev pub or_else : Text → Text → Text
or_else s fallback = if is_empty s then fallback else s

abbrev after_char : ℕ → Option (Text × Text) → Option (Text × Text)
after_char c none = none
after_char c (some (s, t)) = some (c ∷ s, t)

-- `strings.SplitN(s, "\t", 2)`, where two parts are asked for
unfoldable pub cut_tab : Text → Option (Text × Text)
cut_tab [] = none
cut_tab (c ∷ s) = let rest = cut_tab s in if c == 9 then some ([], s) else after_char c rest

-- `strings.TrimSuffix`
abbrev pub trim_suffix : Text → Text → Text
trim_suffix s t = if has_suffix s t then take (length s - length t) s else s

-- `filepath.Base` of a path that does not end in a slash
abbrev last_of : List Text → Text
last_of [] = []
last_of (x ∷ []) = x
last_of (x ∷ y ∷ xs) = last_of (y ∷ xs)

abbrev pub base : Text → Text
base path = last_of (split path)

unfoldable pub sanitize_instance_id : Text → Text
unfolding clean
sanitize_instance_id id = slashes_out (dots_out false (clean id))

unfoldable pub extract_instance_id : Text → Text
unfolding has_prefix trim_prefix
extract_instance_id name =
    if not (has_prefix name (codes "admiral-")) then [] else trim_prefix name (codes "admiral-")

abbrev pub onto_pod : Option (Text × Text) → List (Text × Text) → List (Text × Text)
onto_pod none pods = pods
onto_pod (some (name, status)) pods =
    if not (has_prefix (trim_space name) (codes "admiral-"))
    then pods
    else (trim_space name, trim_space status) ∷ pods

unfoldable pub pods_of : List Text → List (Text × Text)
unfolding cut_tab has_prefix trim_space
pods_of [] = []
pods_of (line ∷ rest) = onto_pod (cut_tab line) (pods_of rest)

unfoldable pub list_admiral_pods : Answers → Option (List (Text × Text))
unfolding pods_of lines trim_space
list_admiral_pods n = elim n.pod_list [
  | none ↦ none
  | some out ↦ some (pods_of (lines (trim_space out)))
]

-- The value of a field is trimmed, its name is not.
abbrev pub onto_states : Option (Text × Text) → List (Text × Text) → List (Text × Text)
onto_states none states = states
onto_states (some (name, state)) states =
    if not (has_prefix name (codes "admiral-")) then states else (name, trim_space state) ∷ states

unfoldable pub states_of : List Text → List (Text × Text)
unfolding cut_tab has_prefix trim_space
states_of [] = []
states_of (line ∷ rest) = onto_states (cut_tab (trim_space line)) (states_of rest)

unfoldable pub list_admiral_container_states : Answers → Option (List (Text × Text))
unfolding states_of lines trim_space
list_admiral_container_states n = elim n.container_list [
  | none ↦ none
  | some out ↦ some (states_of (lines (trim_space out)))
]

abbrev pub later_or : Option Text → Option Text → Option Text
later_or (some s) t = some s
later_or none t = t

-- `states[name]`: a later line of the list has replaced an earlier one.
unfoldable pub state_of : Text → List (Text × Text) → Option Text
unfolding eq_text
state_of name [] = none
state_of name ((n, s) ∷ states) =
    later_or (state_of name states) (if eq_text n name then some s else none)

-- `healthCheckHost`
unfoldable pub health_check_host : AgentSettings → Answers → Text → Option Text
unfolding trim_space
health_check_host a n persisted =
    let address =
      or_else (or_else (trim_space persisted) (trim_space a.publish_address)) (codes "127.0.0.1") in
    elim (n.parse_ip address) [
      | none ↦ none
      | some ip ↦
          if ip.is_unspecified
          then (if ip.is_v4 then some (codes "127.0.0.1") else some (codes "::1"))
          else some address
    ]

abbrev pub dialled_to : Answers → ℤ → Option Text → Option CheckError
dialled_to n port none = some bad_address
dialled_to n port (some host) = if n.dial host port then none else some no_connection

abbrev pub expected_status_of : ℤ → ℤ
expected_status_of s = if is_zero s then pos 200 else s

abbrev pub check_response : ℤ → Option ℤ → Option CheckError
check_response wanted none = some no_response
check_response wanted (some s) =
    if eq_ℤ s (expected_status_of wanted) then none else some wrong_status

abbrev pub requested : Answers → Check → Option Text → Option CheckError
requested n c none = some bad_address
requested n c (some host) =
    check_response c.health_check.expected_status
      (n.get host c.host_port (or_else c.health_check.path (codes "/")))

abbrev pub is_none_left : List Text → Bool
is_none_left [] = true
is_none_left (x ∷ xs) = false

-- `runDeclaredServiceHealthCheck`; a timeout is one of the failures of the node.
unfoldable pub run_declared_service_health_check :
    AgentSettings → Answers → Text → Check → Option CheckError
unfolding health_check_host to_lower trim_space eq_text
run_declared_service_health_check a n instance c =
    let kind = to_lower (trim_space c.health_check.type) in
    if is_blank c.service_name
    then some empty_service
    else if is_empty kind || eq_text kind (codes "none")
    then none
    else if eq_text kind (codes "command")
    then (if is_none_left c.health_check.command
        then some empty_command
        else if n.exec_in (codes "admiral-" ++ instance ++ codes "-" ++ c.service_name)
            c.health_check.command
        then none
        else some command_failed)
    else if eq_text kind (codes "tcp")
    then (if not (is_positive c.host_port)
        then some no_port
        else dialled_to n c.host_port (health_check_host a n c.host_address))
    else if eq_text kind (codes "http")
    then (if not (is_positive c.host_port)
        then some no_port
        else requested n c (health_check_host a n c.host_address))
    else some unsupported
