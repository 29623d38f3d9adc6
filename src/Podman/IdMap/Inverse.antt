-- ===== src/Podman/IdMap/Inverse.antt =====
-- The id maps and their inverses.
use admiral_fleet.Prelude.{
  arith, ℕ, ◌+◌, ◌≤◌, List, [], ◌∷◌, map, none, some, ◌≡◌, refl, ◌⊎◌, inl, inr, All, ◌↔◌,
  Option-cases, sym, ◌∙◌, ap, subst,
}
use admiral_fleet.Podman.IdMap.{IdMapEntry, word, host_to_container, map_id}

-- The entry read the other way, from the container to the host.
abbrev pub flip : IdMapEntry → IdMapEntry
flip entry = record {
  container_start = entry.host_start;
  host_start = entry.container_start;
  count = entry.count;
}

-- Neither range goes beyond the 64-bit numbers.
abbrev pub Fits : IdMapEntry → Type 0
Fits e = (e.container_start + e.count ≤ word) × (e.host_start + e.count ≤ word)

abbrev pub Disjoint : ℕ → ℕ → ℕ → ℕ → Type 0
Disjoint a n b m = (a + n ≤ b) ⊎ (b + m ≤ a)

-- Two entries map no common id, on either side.
abbrev pub Apart : IdMapEntry → IdMapEntry → Type 0
Apart e f =
    Disjoint e.container_start e.count f.container_start f.count
    × Disjoint e.host_start e.count f.host_start f.count

-- A table as the kernel accepts it.
abbrev pub Table : List IdMapEntry → Type 0
Table [] = Unit
Table (e ∷ es) = Fits e × All (Apart e) es × Table es

flip-inverse :
    (e : IdMapEntry) (h c : ℕ)
    → Fits e
    → host_to_container e h ≡ some c
    → host_to_container (flip e) c ≡ some h
unfolding host_to_container
flip-inverse e h c fits eq = ground arith

mapped_elsewhere :
    (e f : IdMapEntry) (h c : ℕ)
    → Apart e f
    → host_to_container f h ≡ some c
    → Fits f
    → host_to_container (flip e) c ≡ none
unfolding host_to_container
mapped_elsewhere e f h c (inl apart, hosts) eq fits = ground arith
mapped_elsewhere e f h c (inr apart, hosts) eq fits = ground arith

map_id-here :
    (e : IdMapEntry) (es : List IdMapEntry) (h c : ℕ)
    → host_to_container e h ≡ some c
    → map_id (e ∷ es) h ≡ some c
unfolding map_id
map_id-here e es h c eq = rw (map_id, eq) refl

map_id-later :
    (e : IdMapEntry) (es : List IdMapEntry) (h : ℕ)
    → host_to_container e h ≡ none
    → map_id (e ∷ es) h ≡ map_id es h
unfolding map_id
map_id-later e es h eq = rw (map_id, eq) refl

-- What a later entry maps to, an entry apart from all of these does not map from.
mapped_later :
    (e : IdMapEntry) (es : List IdMapEntry) (h c : ℕ)
    → All (Apart e) es
    → Table es
    → map_id es h ≡ some c
    → host_to_container (flip e) c ≡ none
unfolding map_id
mapped_later e [] h c apart table eq = absurd (cc eq)
mapped_later e (f ∷ fs) h c apart table eq = elim (Option-cases (host_to_container f h)) [
  | inl no_id ↦ mapped_later e fs h c apart.1 table.2 (sym (map_id-later f fs h no_id) ∙ eq)
  | inr (d, found) ↦
      mapped_elsewhere e f h c apart.0 (found ∙ sym (map_id-here f fs h d found) ∙ eq) table.0
]

inverse_of :
    (es : List IdMapEntry) (h c : ℕ)
    → Table es
    → map_id es h ≡ some c
    → map_id (map flip es) c ≡ some h
unfolding map_id
inverse_of [] h c table eq = absurd (cc eq)
inverse_of (e ∷ es) h c table eq = elim (Option-cases (host_to_container e h)) [
  | inl no_id ↦
      let later = sym (map_id-later e es h no_id) ∙ eq in
      map_id-later (flip e) (map flip es) c (mapped_later e es h c table.1 table.2 later)
      ∙ inverse_of es h c table.2 later
  | inr (d, found) ↦
      map_id-here (flip e) (map flip es) c h
        (flip-inverse e h c table.0 (found ∙ sym (map_id-here e es h d found) ∙ eq))
]

flip-Apart : (e f : IdMapEntry) → Apart e f → Apart (flip e) (flip f)
flip-Apart e f (containers, hosts) = (hosts, containers)

flip-All :
    (e : IdMapEntry) (es : List IdMapEntry) → All (Apart e) es → All (Apart (flip e)) (map flip es)
flip-All e [] h = tt
flip-All e (f ∷ fs) h = (flip-Apart e f h.0, flip-All e fs h.1)

flip-Table : (es : List IdMapEntry) → Table es → Table (map flip es)
flip-Table [] h = tt
flip-Table (e ∷ es) h = ((h.0.1, h.0.0), flip-All e es h.1, flip-Table es h.2)

flip-flip : (es : List IdMapEntry) → map flip (map flip es) ≡ es
flip-flip [] = refl
flip-flip (e ∷ es) = ap (λ l. e ∷ l) (flip-flip es)

-- In a table whose entries map no common id on either side and stay within 64 bits, the container
-- id of a host id is found exactly when the same table, read from the container to the host, gives
-- that host id for it: a restore maps an owner back to the id that it had in the container, and no
-- two owners to one.
pub map_id-inverse :
    (es : List IdMapEntry) (h c : ℕ)
    → Table es
    → (map_id es h ≡ some c) ↔ (map_id (map flip es) c ≡ some h)
map_id-inverse es h c table = (
  inverse_of es h c table,
  λ eq.
      subst (λ fs. map_id fs h ≡ some c) (flip-flip es)
        (inverse_of (map flip es) c h (flip-Table es table) eq),
)
