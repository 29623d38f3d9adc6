-- ===== src/Executor/Ports/Range.antt =====
-- The loop of the port allocation: the ports lie in a fresh block, are distinct, and cover the
-- services.
use admiral_fleet.Prelude.{
  subst, sym, ap, some-injective, Text, ℕ, ◌+◌, ◌≤◌, ◌<◌, ℤ, pos, negsuc, is_zero, ◌≡◌, ◌≢◌, refl,
  inl, inr, List, [], ◌∷◌, Bool, true, false, some, All, arith, ltb, if◌then◌else◌, eq_text,
  eq_text_iff, eq_text_refl, ◌⊎◌, Bool-cases,
}
use admiral_fleet.Fleet.Task.{ServiceInfo}
use admiral_fleet.Executor.Files.{Ports, port_of}
use admiral_fleet.Executor.Ports.{set_port, assign_ports, max_host_port}

-- A port with `lo ≤ p < hi`.
abbrev pub InBlock : ℕ → ℕ → ℤ → Type 0
InBlock lo hi (pos n) = (lo ≤ n) × (n < hi)
InBlock lo hi (negsuc n) = ⊥

-- No two entries have the same port.
abbrev pub Distinct : Ports → Type 0
Distinct [] = Unit
Distinct ((k, p) ∷ m) = All (λ e. e.1 ≢ p) m × Distinct m

-- All ports lie in the block, and no two are the same.
pub record IsBlock (lo hi : ℕ) (m : Ports) : Type 0 where
  pub bounds : All (λ e. InBlock lo hi e.1) m
  pub distinct : Distinct m

InBlock-grow : (lo hi : ℕ) (p : ℤ) → InBlock lo hi p → InBlock lo (hi + 1) p
InBlock-grow lo hi (pos n) h = omega arith
InBlock-grow lo hi (negsuc n) h = h

InBlock-ne : (lo hi : ℕ) (p : ℤ) → InBlock lo hi p → p ≢ pos hi
InBlock-ne lo hi (pos n) h e = ground arith
InBlock-ne lo hi (negsuc n) h e = h

bounds-grow :
    (lo hi : ℕ) (m : Ports) → All (λ e. InBlock lo hi e.1) m → All (λ e. InBlock lo (hi + 1) e.1) m
bounds-grow lo hi [] a = tt
bounds-grow lo hi (e ∷ m) a = (InBlock-grow lo hi e.1 a.0, bounds-grow lo hi m a.1)

-- The next free port is none of those in the block.
fresh : (lo hi : ℕ) (m : Ports) → All (λ e. InBlock lo hi e.1) m → All (λ e. e.1 ≢ pos hi) m
fresh lo hi [] a = tt
fresh lo hi (e ∷ m) a = (InBlock-ne lo hi e.1 a.0, fresh lo hi m a.1)

bounds-set_port :
    (lo hi : ℕ) (name : Text) (m : Ports)
    → lo ≤ hi
    → All (λ e. InBlock lo hi e.1) m
    → All (λ e. InBlock lo (hi + 1) e.1) (set_port name (pos hi) m)
unfolding set_port
bounds-set_port lo hi name [] h a = ((omega arith, omega arith), tt)
bounds-set_port lo hi name ((k, p) ∷ m) h a = elim (Bool-cases (eq_text k name)) [
  | inl same ↦ rw same ((omega arith, omega arith), bounds-grow lo hi m a.1)
  | inr other ↦ rw other (InBlock-grow lo hi p a.0, bounds-set_port lo hi name m h a.1)
]

-- Entries that differ from `q` still do when a port other than `q` is set.
differ-set_port :
    (q p : ℤ) (name : Text) (m : Ports)
    → p ≢ q
    → All (λ e. e.1 ≢ q) m
    → All (λ e. e.1 ≢ q) (set_port name p m)
unfolding set_port
differ-set_port q p name [] h a = (h, tt)
differ-set_port q p name ((k, r) ∷ m) h a = elim (Bool-cases (eq_text k name)) [
  | inl same ↦ rw same (h, a.1)
  | inr other ↦ rw other (a.0, differ-set_port q p name m h a.1)
]

Distinct-set_port :
    (p : ℤ) (name : Text) (m : Ports)
    → All (λ e. e.1 ≢ p) m
    → Distinct m
    → Distinct (set_port name p m)
unfolding set_port
Distinct-set_port p name [] f d = (tt, tt)
Distinct-set_port p name ((k, q) ∷ m) f d = elim (Bool-cases (eq_text k name)) [
  | inl same ↦ rw same (f.1, d.1)
  | inr other ↦
      rw other
        (differ-set_port q p name m (λ e. f.0 (sym e)) d.0, Distinct-set_port p name m f.1 d.1)
]

set_port-IsBlock :
    (lo hi : ℕ) (name : Text) (m : Ports)
    → lo ≤ hi
    → IsBlock lo hi m
    → IsBlock lo (hi + 1) (set_port name (pos hi) m)
set_port-IsBlock lo hi name m h b = record {
  bounds = bounds-set_port lo hi name m h b.bounds;
  distinct = Distinct-set_port (pos hi) name m (fresh lo hi m b.bounds) b.distinct;
}

-- A loop that ends with a next port has kept the block up to it, below the end of the range.
pub assign_ports-IsBlock :
    (lo next : ℕ) (services : List ServiceInfo) (m : Ports) {r : Ports × ℕ}
    → lo ≤ next
    → next ≤ max_host_port + 1
    → IsBlock lo next m
    → assign_ports next services m ≡ some r
    → IsBlock lo r.1 r.0 × (next ≤ r.1) × (r.1 ≤ max_host_port + 1)
unfolding assign_ports
assign_ports-IsBlock lo next [] m {r} h k b e =
    let q = some-injective (m, next) r e in
    (
      subst (λ t. IsBlock lo t.1 t.0) q b,
      omega (arith, ap (λ t. t.1) q),
      omega (arith, ap (λ t. t.1) q),
    )
assign_ports-IsBlock lo next (svc ∷ services) m {r} h k b e = elim (Bool-cases (is_zero svc.port)) [
  | inl skipped ↦ assign_ports-IsBlock lo next services m h k b (rw skipped at e)
  | inr wanted ↦ elim (Bool-cases (ltb max_host_port next)) [
    | inl used_up ↦ absurd (cc (rw (wanted, used_up) at e))
    | inr room ↦
        let (b', lower, upper) =
          assign_ports-IsBlock lo (next + 1) services (set_port svc.name (pos next) m) (omega arith)
            (ground arith) (set_port-IsBlock lo next svc.name m h b) (rw (wanted, room) at e) in
        (b', omega arith, upper)
  ]
]

-- A port that a lookup finds is one of the block, unless the name is missing.
port_of-InBlock :
    (lo hi : ℕ) (name : Text) (m : Ports)
    → All (λ e. InBlock lo hi e.1) m
    → InBlock lo hi (port_of name m) ⊎ (port_of name m ≡ pos 0)
unfolding port_of
port_of-InBlock lo hi name [] a = inr refl
port_of-InBlock lo hi name ((k, p) ∷ m) a = elim (Bool-cases (eq_text k name)) [
  | inl same ↦ rw same (inl a.0)
  | inr other ↦ rw other (port_of-InBlock lo hi name m a.1)
]

pub port_of-set_port :
    (name other : Text) (p : ℤ) (m : Ports)
    → port_of other (set_port name p m) ≡ (if eq_text name other then p else port_of other m)
unfolding port_of set_port
port_of-set_port name other p [] = refl
port_of-set_port name other p ((k, q) ∷ m) = ground (
  arith,
  eq_text_iff k name,
  eq_text_iff k other,
  eq_text_iff name other,
  port_of-set_port name other p m,
)

-- A service keeps a port of the block while the loop goes on.
kept :
    (lo next : ℕ) (name : Text) (services : List ServiceInfo) (m : Ports) {r : Ports × ℕ}
    → lo ≤ next
    → InBlock lo next (port_of name m)
    → assign_ports next services m ≡ some r
    → InBlock lo r.1 (port_of name r.0)
unfolding assign_ports
kept lo next name [] m {r} h b e =
    subst (λ (t : Ports × ℕ). InBlock lo t.1 (port_of name t.0)) (some-injective (m, next) r e) b
kept lo next name (svc ∷ services) m {r} h b e = elim (Bool-cases (is_zero svc.port)) [
  | inl skipped ↦ kept lo next name services m h b (rw skipped at e)
  | inr wanted ↦ elim (Bool-cases (ltb max_host_port next)) [
    | inl used_up ↦ absurd (cc (rw (wanted, used_up) at e))
    | inr room ↦
        kept lo (next + 1) name services (set_port svc.name (pos next) m) (omega arith)
          (rw port_of-set_port (kept_by_set (eq_text svc.name name))) (rw (wanted, room) at e)
  ]
]
  where
    kept_by_set : (same : Bool) → InBlock lo (next + 1) (if same then pos next else port_of name m)
    kept_by_set true = (h, omega arith)
    kept_by_set false = InBlock-grow lo next (port_of name m) b

-- Every service that declares a port.
abbrev pub Covered : ℕ → ℕ → Ports → List ServiceInfo → Type 0
Covered lo hi m = All (λ svc. is_zero svc.port ≡ false → InBlock lo hi (port_of svc.name m))

pub assign_ports-Covered :
    (lo next : ℕ) (services : List ServiceInfo) (m : Ports) {r : Ports × ℕ}
    → lo ≤ next
    → assign_ports next services m ≡ some r
    → Covered lo r.1 r.0 services
unfolding assign_ports
assign_ports-Covered lo next [] m h e = tt
assign_ports-Covered lo next (svc ∷ services) m {r} h e = elim (Bool-cases (is_zero svc.port)) [
  | inl skipped ↦
      (λ wanted. absurd (cc), assign_ports-Covered lo next services m h (rw skipped at e))
  | inr wanted ↦ elim (Bool-cases (ltb max_host_port next)) [
    | inl used_up ↦ absurd (cc (rw (wanted, used_up) at e))
    | inr room ↦ (
      λ _.
          kept lo (next + 1) svc.name services (set_port svc.name (pos next) m) (omega arith)
            (rw (port_of-set_port, eq_text_refl) (h, omega arith)) (rw (wanted, room) at e),
      assign_ports-Covered lo (next + 1) services (set_port svc.name (pos next) m) (omega arith)
          (rw (wanted, room) at e),
    )
  ]
]
