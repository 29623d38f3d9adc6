-- ===== src/Executor/Files.antt =====
-- The files of an instance: allocated ports, declared health checks, the setup marker, the tier
-- (executor_provision.go, executor_helpers.go).
use admiral_fleet.Prelude.{
  Text, codes, ℤ, Bool, true, false, List, [], ◌∷◌, none, some, is_blank, if◌then◌else◌, eq_text,
}
use admiral_fleet.Fleet.Task.{ServiceInfo, TierInfo}
use admiral_fleet.Fleet.Effects.{
  Result, ok, err, Act, ports_file, setup_marker, health_checks_file, instance_dir, tier_file,
  Content, ports, health_checks, text, tier, Call, pure, fail, perform, ◌>>=◌, ◌>>◌, observe,
  command, read_content, remove_if_there,
}
use admiral_fleet.Security.{validate_instance_id}

abbrev pub Ports : Type 0
Ports = List (Text × ℤ)

-- `ports[name]`, which is 0 for a missing key.
unfoldable pub port_of : Text → Ports → ℤ
port_of name [] = ℤ.pos 0
port_of name ((k, p) ∷ m) = if eq_text k name then p else port_of name m

-- `json.Unmarshal` into a map of ports, and the test for an empty one.
abbrev decode_ports : Content → Ports
decode_ports (ports m) = m
decode_ports _ = []

-- `loadHostPorts`: an unreadable file, other JSON and an empty object all give `nil`.
abbrev pub ports_of_reply : Result Text Content → Ports
ports_of_reply (ok c) = decode_ports c
ports_of_reply (err e) = []

unfoldable pub load_host_ports : {E : Type 0} → Text → Act E Ports
unfolding ◌>>=◌ pure observe read_content
load_host_ports instance_id = do
  r ← observe (read_content (ports_file instance_id))
  pure (ports_of_reply r)

-- The checks that are persisted: one for each service that declares one.
unfoldable pub declared_checks : List ServiceInfo → Ports → List (Text × ℤ)
unfolding port_of
declared_checks [] m = []
declared_checks (svc ∷ services) m =
    let rest = declared_checks services m in
    elim svc.health_check [ none ↦ rest | some _ ↦ (svc.name, port_of svc.name m) ∷ rest ]

abbrev pub write_checks : Text → List (Text × ℤ) → Act Text (Unit {0})
write_checks instance_id [] = remove_if_there (health_checks_file instance_id)
write_checks instance_id (c ∷ cs) =
    command (Call.write_file (health_checks_file instance_id) (health_checks (c ∷ cs)))

-- The text of the error for an identifier that `ValidateInstanceID` refuses stands for all four.
abbrev pub refused_id : Text
refused_id = codes "invalid instance_id"

-- `writeServiceHealthChecks`
unfoldable pub write_service_health_checks : Text → List ServiceInfo → Ports → Act Text (Unit {0})
unfolding declared_checks fail command remove_if_there
write_service_health_checks instance_id services m = elim (validate_instance_id instance_id) [
  | some _ ↦ fail refused_id
  | none ↦ write_checks instance_id (declared_checks services m)
]

-- `writeInstanceTierInfo`
unfoldable pub write_instance_tier_info : Text → TierInfo → Act Text (Unit {0})
unfolding ◌>>=◌ command
write_instance_tier_info instance_id t = do
  command (Call.mkdir_all (instance_dir instance_id))
  command (Call.write_file (tier_file instance_id) (tier t))

abbrev pub is_ok : {E A : Type 0} → Result E A → Bool
is_ok (ok _) = true
is_ok (err _) = false

-- `setupMarkerExists`
unfoldable pub setup_marker_exists : {E : Type 0} → Text → Act E Bool
unfolding ◌>>=◌ pure observe perform
setup_marker_exists instance_id = do
  r ← observe (perform (Call.stat (setup_marker instance_id)))
  pure (is_ok r)

-- `writeSetupMarker`: a directory that cannot be made ends it, and a failed write is ignored.
unfoldable pub write_setup_marker : {E : Type 0} → Text → Act E (Unit {0})
unfolding ◌>>=◌ pure observe command
write_setup_marker instance_id = do
  observe (do
    command (Call.mkdir_all (instance_dir instance_id))
    command (Call.write_file (setup_marker instance_id) (text (codes "done"))))
  pure tt

-- `taskHasSetup`
unfoldable pub task_has_setup : List ServiceInfo → Bool
task_has_setup [] = false
task_has_setup (svc ∷ services) =
    let rest = task_has_setup services in if is_blank svc.setup_command then rest else true
