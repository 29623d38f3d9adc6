-- ===== src/Executor/Ports/Allocation.antt =====
-- What the loop over the services hands out, from one counter and from the next.
use admiral_fleet.Prelude.{
  trim_space, Text, ℕ, ◌+◌, ◌≤◌, ℤ, pos, negsuc, is_zero, ◌≡◌, ◌≢◌, inl, inr, List, [], ◌∷◌, true,
  Option, some, some-injective, subst, All, arith, ltb, Bool-cases, decimal, scan_digits,
}
use admiral_fleet.Fleet.Task.{ServiceInfo}
use admiral_fleet.Executor.Files.{Ports}
use admiral_fleet.Executor.Ports.{
  assign_ports, next_port, in_range, skip_plus, min_host_port, max_host_port,
}
use admiral_fleet.Executor.Ports.Range.{
  InBlock, Distinct, IsBlock, Covered, assign_ports-IsBlock, assign_ports-Covered,
}
use admiral_fleet.Executor.Ports.Counter.{next_port-decimal}

in_range_bound : (o : Option ℕ) → min_host_port ≤ in_range o
in_range_bound o = ground arith

pub next_port_bound : (t : Text) → min_host_port ≤ next_port t
unfolding next_port
next_port_bound t = in_range_bound (scan_digits (skip_plus (trim_space t)))

-- Past the end of the range nothing is handed out.
used_up_unchanged :
    (next : ℕ) (services : List ServiceInfo) (m : Ports) {r : Ports × ℕ}
    → ltb max_host_port next ≡ true
    → assign_ports next services m ≡ some r
    → (m, next) ≡ r
unfolding assign_ports
used_up_unchanged next [] m {r} h e = some-injective (m, next) r e
used_up_unchanged next (svc ∷ services) m h e = elim (Bool-cases (is_zero svc.port)) [
  | inl skipped ↦ used_up_unchanged next services m h (rw skipped at e)
  | inr wanted ↦ absurd (cc (rw (wanted, h) at e))
]

empty-IsBlock : (lo hi : ℕ) → IsBlock lo hi []
empty-IsBlock lo hi = record { bounds = tt; distinct = tt }

-- The ports are a block that begins at the counter, and the block ends in the range.
pub allocated-IsBlock :
    (next : ℕ) (services : List ServiceInfo) {r : Ports × ℕ}
    → assign_ports next services [] ≡ some r
    → IsBlock next r.1 r.0 × All (λ e. InBlock next (max_host_port + 1) e.1) r.0
allocated-IsBlock next services {r} e = elim (Bool-cases (ltb max_host_port next)) [
  | inl used_up ↦
      let same = used_up_unchanged next services [] used_up e in
      subst
        (λ (t : Ports × ℕ).
          IsBlock next t.1 t.0 × All (λ e. InBlock next (max_host_port + 1) e.1) t.0)
        same (empty-IsBlock next next, tt)
  | inr room ↦
      let (b, lower, upper) =
        assign_ports-IsBlock next next services [] (omega arith) (ground arith)
          (empty-IsBlock next next) e in
      (b, widen r.1 r.0 upper b.bounds)
]
  where
    widen_one :
        (hi : ℕ) (p : ℤ)
        → hi ≤ max_host_port + 1
        → InBlock next hi p
        → InBlock next (max_host_port + 1) p
    widen_one hi (pos n) h b = omega arith
    widen_one hi (negsuc n) h b = b

    widen :
        (hi : ℕ) (m : Ports)
        → hi ≤ max_host_port + 1
        → All (λ e. InBlock next hi e.1) m
        → All (λ e. InBlock next (max_host_port + 1) e.1) m
    widen hi [] h a = tt
    widen hi (e ∷ m) h a = (widen_one hi e.1 h a.0, widen hi m h a.1)

lower_bound :
    (lo : ℕ) (p : ℤ)
    → min_host_port ≤ lo
    → InBlock lo (max_host_port + 1) p
    → InBlock min_host_port (max_host_port + 1) p
lower_bound lo (pos n) h b = omega arith
lower_bound lo (negsuc n) h b = b

lower_bounds :
    (lo : ℕ) (m : Ports)
    → min_host_port ≤ lo
    → All (λ e. InBlock lo (max_host_port + 1) e.1) m
    → All (λ e. InBlock min_host_port (max_host_port + 1) e.1) m
lower_bounds lo [] h a = tt
lower_bounds lo (e ∷ m) h a = (lower_bound lo e.1 h a.0, lower_bounds lo m h a.1)

-- Whatever the counter file holds, the ports that the loop hands out lie between 40000 and 49999,
-- no two are the same, and each service that declares a port has one of them.
pub allocated_ports :
    (counter : Text) (services : List ServiceInfo) {r : Ports × ℕ}
    → assign_ports (next_port counter) services [] ≡ some r
    → All (λ e. InBlock min_host_port (max_host_port + 1) e.1) r.0
      × Distinct r.0
      × Covered (next_port counter) r.1 r.0 services
allocated_ports counter services {r} e =
    let (b, upper) = allocated-IsBlock (next_port counter) services e in
    (
      lower_bounds (next_port counter) r.0 (next_port_bound counter) upper,
      b.distinct,
      assign_ports-Covered (next_port counter) (next_port counter) services [] (omega arith) e,
    )

apart : (lo mid hi : ℕ) (p q : ℤ) → InBlock lo mid p → InBlock mid hi q → p ≢ q
apart lo mid hi (pos a) (pos b) h k e = ground arith
apart lo mid hi (pos a) (negsuc b) h k e = k
apart lo mid hi (negsuc a) q h k e = h

apart_from :
    (lo mid hi : ℕ) (p : ℤ) (m : Ports)
    → InBlock lo mid p
    → All (λ e. InBlock mid hi e.1) m
    → All (λ e. p ≢ e.1) m
apart_from lo mid hi p [] h a = tt
apart_from lo mid hi p (e ∷ m) h a = (apart lo mid hi p e.1 h a.0, apart_from lo mid hi p m h a.1)

all_apart :
    (lo mid hi : ℕ) (m n : Ports)
    → All (λ e. InBlock lo mid e.1) m
    → All (λ e. InBlock mid hi e.1) n
    → All (λ e. All (λ f. e.1 ≢ f.1) n) m
all_apart lo mid hi [] n a b = tt
all_apart lo mid hi (e ∷ m) n a b =
    (apart_from lo mid hi e.1 n a.0 b, all_apart lo mid hi m n a.1 b)

-- The same from a counter on, also if the range is used up.
pub later_ports_differ :
    (next : ℕ) (services later : List ServiceInfo) {r s : Ports × ℕ}
    → min_host_port ≤ next
    → assign_ports next services [] ≡ some r
    → assign_ports (next_port (decimal r.1)) later [] ≡ some s
    → All (λ e. All (λ f. e.1 ≢ f.1) s.0) r.0
later_ports_differ next services later {r} {s} low e f =
    elim (Bool-cases (ltb max_host_port next)) [
      | inl used_up ↦
          subst (λ (t : Ports × ℕ). All (λ e. All (λ f. e.1 ≢ f.1) s.0) t.0)
            (used_up_unchanged next services [] used_up e) tt
      | inr room ↦
          let (b, lower, upper) =
            assign_ports-IsBlock next next services [] (omega arith) (ground arith)
              (empty-IsBlock next next) e in
          let same = next_port-decimal r.1 (omega arith) (omega arith) in
          let (c, _) = allocated-IsBlock r.1 later (rw same at f) in
          all_apart next r.1 s.1 r.0 s.0 b.bounds c.bounds
    ]
