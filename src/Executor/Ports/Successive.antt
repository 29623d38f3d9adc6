-- ===== src/Executor/Ports/Successive.antt =====
-- Two allocations one after the other, on a node that keeps the counter file.
use admiral_fleet.Prelude.{
  Text, ◌≤◌, List, [], ◌∷◌, ◌≡◌, ◌≢◌, refl, sym, subst, ◌∙◌, ap, inl, inr, Option, none, some, All,
  decimal, arith,
}
use admiral_fleet.Fleet.Task.{ServiceInfo}
use admiral_fleet.Fleet.Effects.{
  Result, ok, err, World, Log, Call, Value, Content, text, ports, file, ports_file, next_port_file,
  write_file,
}
use admiral_fleet.Executor.Files.{Ports, ports_of_reply}
use admiral_fleet.Executor.Ports.{
  assign_ports, next_port, allocate_host_ports, counter_of_reply, min_host_port,
}
use admiral_fleet.Executor.Ports.Allocation.{next_port_bound, later_ports_differ}
use admiral_fleet.Executor.Ports.Persisted.{
  told, counter_now, content_of, prepared, counted, write_counter, write_ports, Allocated,
  allocate_host_ports-Accounted,
}

abbrev pub newer_counter : Call → Result Text Value → Option Text → Option Text
newer_counter (write_file next_port_file (text t)) (ok v) older = some t
newer_counter _ _ older = older

-- The text of the newest write to the counter file that succeeded.
abbrev pub last_counter : Log → Option Text
last_counter [] = none
last_counter (e ∷ l) = newer_counter e.call e.reply (last_counter l)

-- A look at the counter file gives what was written to it last.
abbrev pub KeepsCounter : (Log → Call → Result Text Value) → Type 0
KeepsCounter node =
    (l : Log) (t : Text)
    → last_counter l ≡ some t
    → node l (Call.read_file next_port_file) ≡ ok (file (text t))

-- The look at the ports of the instance gives none.
abbrev pub HasNoPorts : Text → World → Type 0
HasNoPorts i w = ports_of_reply (content_of (w.node w.log (Call.read_file (ports_file i)))) ≡ []

-- Whatever the counter file holds, an allocation counts from 40000 at least.
counter_now-bound : (w : World) → min_host_port ≤ counter_now w
counter_now-bound w = of_reply (content_of (w.node w.log (Call.read_file next_port_file)))
  where
    of_content : (c : Content) → min_host_port ≤ counter_of_reply (ok c)
    of_content (text t) = next_port_bound t
    of_content (ports m) = omega arith
    of_content (Content.health_checks m) = omega arith
    of_content (Content.tier t) = omega arith

    of_reply : (r : Result Text Content) → min_host_port ≤ counter_of_reply r
    of_reply (ok c) = of_content c
    of_reply (err e) = omega arith

counter_now-kept :
    (w : World) (t : Text)
    → KeepsCounter w.node
    → last_counter w.log ≡ some t
    → counter_now w ≡ next_port t
counter_now-kept w t keeps h = ap (λ r. counter_of_reply (content_of r)) (keeps w.log t h)

fresh_one :
    (i : Text) (services : List ServiceInfo) (m : Ports) (w : World)
    → HasNoPorts i w
    → (allocate_host_ports i services w).0 ≡ ok m
    → Allocated i services m w (allocate_host_ports i services w).1
fresh_one i services m w no_ports h = elim (allocate_host_ports-Accounted i services m w h) [
  | inl (some_ports, found, after) ↦ absurd (some_ports (sym found ∙ no_ports))
  | inr allocated ↦ allocated
]

-- After an allocation the counter file has its next free port.
Allocated-last_counter :
    (i : Text) (services : List ServiceInfo) (m : Ports) (w after : World)
    (a : Allocated i services m w after)
    → last_counter after.log ≡ some (decimal a.next)
Allocated-last_counter i services m w after a =
    let (v, written) = a.counter_written in
    let last : last_counter (told (told (counted i w) (write_counter a.next)) (write_ports i m)).log
        ≡ some (decimal a.next) =
      rw written refl in
    subst (λ (x : World). last_counter x.log ≡ some (decimal a.next)) (sym a.ends) last

-- Two allocations, of two instances that have no ports yet, one after the other on a node that keeps
-- the counter file: if both succeed, they give no port twice.
pub successive_ports_differ :
    (i j : Text) (services later : List ServiceInfo) (m n : Ports) (w : World)
    → KeepsCounter w.node
    → HasNoPorts i w
    → (allocate_host_ports i services w).0 ≡ ok m
    → HasNoPorts j (allocate_host_ports i services w).1
    → (allocate_host_ports j later (allocate_host_ports i services w).1).0 ≡ ok n
    → All (λ e. All (λ f. e.1 ≢ f.1) n) m
successive_ports_differ i j services later m n w keeps none_yet h none_then k =
    let after = (allocate_host_ports i services w).1 in
    let a = fresh_one i services m w none_yet h in
    let b = fresh_one j later n after none_then k in
    let same_node : w.node ≡ after.node = sym (ap (λ (x : World). x.node) a.ends) in
    let counter =
      counter_now-kept (prepared j after) (decimal a.next) (subst KeepsCounter same_node keeps)
        (Allocated-last_counter i services m w after a) in
    later_ports_differ (counter_now (prepared i w)) services later {r = (m, a.next)}
      {s = (n, b.next)} (counter_now-bound (prepared i w)) a.assigned
      (subst (λ c. assign_ports c later [] ≡ some (n, b.next)) counter b.assigned)
