-- ===== src/Executor/Ports.antt =====
-- `allocateHostPorts` and `parsePublishedPort`.
pub mod Range
pub mod Counter
pub mod Allocation
pub mod Persisted
pub mod Successive
use admiral_fleet.Prelude.{
  Text, codes, ℕ, ◌+◌, ◌-◌, ◌^◌, ℤ, pos, is_zero, Bool, List, [], ◌∷◌, Option, none, some,
  if◌then◌else◌, ltb, ◌==◌, eq_text, trim_space, scan_digits, decimal, atoi, is_empty,
}
use admiral_fleet.Fleet.Task.{ServiceInfo}
use admiral_fleet.Fleet.Effects.{
  Result, ok, err, Act, Call, Content, text, ports, next_port_file, ports_file, instance_dir, pure,
  fail, ◌>>=◌, ◌>>◌, observe, command, read_content,
}
use admiral_fleet.Quadlet.Policy.{after_last_colon}
use admiral_fleet.Executor.Files.{Ports, load_host_ports}

abbrev pub min_host_port : ℕ
min_host_port = 40000

abbrev pub max_host_port : ℕ
max_host_port = 49999

-- `ports[name] = p`
unfoldable pub set_port : Text → ℤ → Ports → Ports
set_port name p [] = (name, p) ∷ []
set_port name p ((k, q) ∷ m) = if eq_text k name then (name, p) ∷ m else (k, q) ∷ set_port name p m

-- The loop over the services, from the next free port: `none` when the range is used up.
unfoldable pub assign_ports : ℕ → List ServiceInfo → Ports → Option (Ports × ℕ)
unfolding set_port
assign_ports next [] m = some (m, next)
assign_ports next (svc ∷ services) m =
    let skipped = assign_ports next services m in
    let assigned = assign_ports (next + 1) services (set_port svc.name (pos next) m) in
    if is_zero svc.port then skipped else if ltb max_host_port next then none else assigned

-- `fmt.Sscanf(…, "%d", &next)`: no number, or one that is no int64, gives the first port, and so
-- does a negative one by the test that follows.
abbrev pub in_range : Option ℕ → ℕ
in_range none = min_host_port
in_range (some n) =
    if ltb n min_host_port then min_host_port else if ltb n (2 ^ 63) then n else min_host_port

abbrev pub skip_plus : Text → Text
skip_plus [] = []
skip_plus (c ∷ s) = if c == b'+' then s else c ∷ s

-- The next port that the counter file holds.
unfoldable pub next_port : Text → ℕ
next_port t = in_range (scan_digits (skip_plus (trim_space t)))

abbrev pub counter_of_reply : Result Text Content → ℕ
counter_of_reply (ok (text t)) = next_port t
counter_of_reply (ok _) = min_host_port
counter_of_reply (err e) = min_host_port

unfoldable pub persist : Text → Option (Ports × ℕ) → Act Text Ports
unfolding ◌>>=◌ pure fail command
persist instance_id none = fail (codes "no available host ports")
persist instance_id (some (m, next)) = do
  command (Call.write_file next_port_file (text (decimal next)))
  command (Call.write_file (ports_file instance_id) (ports m))
  pure m

unfoldable pub allocate : Text → List ServiceInfo → Ports → Act Text Ports
unfolding ◌>>=◌ pure observe command read_content persist assign_ports next_port
allocate instance_id services [] = do
  command (Call.mkdir_all (instance_dir instance_id))
  r ← observe (read_content next_port_file)
  persist instance_id (assign_ports (counter_of_reply r) services [])
allocate instance_id services (e ∷ existing) = pure (e ∷ existing)

-- `allocateHostPorts`, which holds a mutex: ports that were allocated before are used again.
unfoldable pub allocate_host_ports : Text → List ServiceInfo → Act Text Ports
unfolding ◌>>=◌ load_host_ports allocate
allocate_host_ports instance_id services = do
  existing ← load_host_ports instance_id
  allocate instance_id services existing

-- `parsePublishedPort`: a number, or what follows the last colon.
abbrev port_after_colon : Option Text → Option ℤ
port_after_colon none = none
port_after_colon (some t) = if is_empty t then none else atoi (trim_space t)

unfoldable pub parse_published_port : Text → Option ℤ
unfolding after_last_colon
parse_published_port raw =
    let value = trim_space raw in
    if is_empty value then none else elim (atoi value) [
      | some port ↦ some port
      | none ↦ port_after_colon (after_last_colon value)
    ]
