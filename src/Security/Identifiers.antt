-- ===== src/Security/Identifiers.antt =====
-- What an identifier that the validators accept cannot contain.
use admiral_fleet.Prelude.{
  arith, Text, ℕ, codes, [], ◌∷◌, ◌++◌, Bool, true, false, ◌||◌, ◌==◌, ◌≡◌, ◌≢◌, refl, none, some,
  contains, contains_any, any_of, has_prefix, has_prefix-append, All, if◌then◌else◌,
}
use admiral_fleet.Security.{
  Refusal, validate_id, validate_instance_id, validate_operation_id, validate_backup_id, separators,
}

contains-append : (pre t post : Text) → contains (pre ++ (t ++ post)) t ≡ true
unfolding contains has_prefix
contains-append [] [] [] = refl
contains-append [] [] (c ∷ post) = refl
contains-append [] (c ∷ t) post = rw (has_prefix-append (c ∷ t) post) refl
contains-append (c ∷ pre) t post = ground (arith, contains-append pre t post)

-- A text that stays inside one directory: it is not empty, it has no separator and no NUL, and the
-- two dots stand nowhere in it.
pub record StaysInside (id : Text) : Type 0 where
  pub not_empty : id ≢ []
  pub one_component : All (λ c. (c ≢ b'/') × (c ≢ 92) × (c ≢ 0)) id
  pub no_parent : (pre post : Text) → id ≢ pre ++ (codes ".." ++ post)

split_or : (a b : Bool) → (a || b) ≡ false → (a ≡ false) × (b ≡ false)
split_or a b h = ground arith

differs : (c d : ℕ) → (c == d) ≡ false → c ≢ d
differs c d h e = ground arith

free_of :
    (id : Text)
    → contains_any id separators ≡ false
    → contains_any id (0 ∷ []) ≡ false
    → All (λ c. (c ≢ b'/') × (c ≢ 92) × (c ≢ 0)) id
unfolding contains_any
free_of [] h k = tt
free_of (c ∷ id) h k =
    let (a, b) = split_or (any_of (λ x. c == x) separators) (contains_any id separators) h in
    let (d, e) = split_or (any_of (λ x. c == x) (0 ∷ [])) (contains_any id (0 ∷ [])) k in
    let (slash, more) = split_or (c == b'/') (any_of (λ x. c == x) (92 ∷ [])) a in
    (
      (
        differs c b'/' slash,
        differs c 92 (split_or (c == 92) false more).0,
        differs c 0 (split_or (c == 0) false d).0,
      ),
      free_of id b e,
    )

-- The four tests of `validate_id`, all passed.
passed :
    (a b c d : Bool)
    → (if a
        then some Refusal.empty
        else if b
        then some Refusal.traversal
        else if c
        then some Refusal.separator
        else if d
        then some Refusal.null_byte
        else none)
      ≡ none
    → (a ≡ false) × (b ≡ false) × (c ≡ false) × (d ≡ false)
passed true b c d h = absurd (cc h)
passed false true c d h = absurd (cc h)
passed false false true d h = absurd (cc h)
passed false false false true h = absurd (cc h)
passed false false false false h = (refl, refl, refl, refl)

validate_id-StaysInside : (id : Text) → validate_id id ≡ none → StaysInside id
unfolding validate_id
validate_id-StaysInside id h =
    let (a, b, c, d) = passed _ _ _ _ h in
    record {
      not_empty = λ e. absurd (cc (rw e at a));
      one_component = free_of id c d;
      no_parent = λ pre post e. absurd (cc (contains-append pre (codes "..") post, rw e at b));
    }

-- An identifier that any of the three validators accepts names one component of a path: it is not
-- empty, has no slash, backslash or NUL, and two dots stand nowhere in it.
pub accepted_identifiers :
    (id : Text)
    → (validate_instance_id id ≡ none → StaysInside id)
      × (validate_operation_id id ≡ none → StaysInside id)
      × (validate_backup_id id ≡ none → StaysInside id)
unfolding validate_instance_id validate_operation_id validate_backup_id
accepted_identifiers id =
    (validate_id-StaysInside id, validate_id-StaysInside id, validate_id-StaysInside id)
