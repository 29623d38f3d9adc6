-- ===== src/Tests/Ports.antt =====
-- Allocations of host ports on a node that keeps the counter file.
use admiral_fleet.Prelude.{
  Text, codes, ℤ, pos, Option, none, some, ◌≢◌, ◌⊎◌, refl, List, [], ◌∷◌, All, eq_text, decimal,
  trim_space, trim_left, scan_digits,
}
use admiral_fleet.Fleet.Effects.{
  ok, err, Result, Value, Log, World, nothing, Call, fresh, file, text, read_file, next_port_file,
  ports_file, pure, ◌>>=◌, observe, command, perform, read_content,
}
use admiral_fleet.Executor.Files.{load_host_ports}
use admiral_fleet.Executor.Ports.{
  assign_ports, next_port, allocate_host_ports, allocate, persist, set_port,
}
use admiral_fleet.Executor.Ports.Persisted.{Reused, Allocated, allocate_host_ports-Accounted}
use admiral_fleet.Executor.Ports.Successive.{last_counter, successive_ports_differ}
use admiral_fleet.Tests.Data.{no_file, web, worker}

abbrev counter_reply : Option Text → Result Text Value
counter_reply none = err (codes "no such file")
counter_reply (some t) = ok (file (text t))

-- Only the counter file can be read back.
abbrev keeping : Log → Call → Result Text Value
keeping log (read_file next_port_file) = counter_reply (last_counter log)
keeping log (read_file (ports_file i)) = err (codes "no such file")
keeping log c = ok nothing

abbrev start_world : World
start_world = fresh keeping no_file

abbrev first_ports : List (Text × ℤ)
first_ports = (codes "web", pos 40000) ∷ (codes "worker", pos 40001) ∷ []

abbrev second_ports : List (Text × ℤ)
second_ports = (codes "web", pos 40002) ∷ []

successive_ports_differ_example : All (λ e. All (λ f. e.1 ≢ f.1) second_ports) first_ports
unfolding allocate_host_ports allocate persist load_host_ports assign_ports set_port next_port
    trim_space trim_left scan_digits eq_text decimal pure ◌>>=◌ observe command perform read_content
successive_ports_differ_example =
    successive_ports_differ (codes "a") (codes "b") (web ∷ worker ∷ []) (web ∷ []) first_ports
      second_ports start_world (λ l t h. rw h refl) refl refl refl refl

allocate_host_ports-Accounted_example :
    let after = (allocate_host_ports (codes "a") (web ∷ worker ∷ []) start_world).1 in
    Reused (codes "a") first_ports start_world after
    ⊎ Allocated (codes "a") (web ∷ worker ∷ []) first_ports start_world after
unfolding allocate_host_ports allocate persist load_host_ports assign_ports set_port next_port
    trim_space trim_left scan_digits eq_text decimal pure ◌>>=◌ observe command perform read_content
allocate_host_ports-Accounted_example =
    allocate_host_ports-Accounted (codes "a") (web ∷ worker ∷ []) first_ports start_world refl
