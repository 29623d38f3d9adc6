-- ===== src/Quadlet/Names/Safe.antt =====
-- `SafeName` gives names of safe characters, and changes a safe name no more.
use admiral_fleet.Prelude.{
  arith, Text, ℕ, ◌∷◌, [], map, true, false, ◌≡◌, refl, ap, ◌∙◌, All, is_space, trim_space,
  trim_space-id, ◌↔◌,
}
use admiral_fleet.Quadlet.Names.{is_safe, safe_char, safe_name}

safe_char-is_safe : (c : ℕ) → is_safe (safe_char c) ≡ true
unfolding safe_char is_safe
safe_char-is_safe c = ground arith

safe_char-id : (c : ℕ) → is_safe c ≡ true → safe_char c ≡ c
unfolding safe_char
safe_char-id c h = rw h refl

safe_is_no_space : (c : ℕ) → is_safe c ≡ true → is_space c ≡ false
unfolding is_safe is_space
safe_is_no_space c h = ground arith

abbrev pub Safe : Text → Type 0
Safe = All (λ c. is_safe c ≡ true)

map-Safe : (s : Text) → Safe (map safe_char s)
map-Safe [] = tt
map-Safe (c ∷ s) = (safe_char-is_safe c, map-Safe s)

map-safe_char_id : (s : Text) → Safe s → map safe_char s ≡ s
map-safe_char_id [] h = refl
map-safe_char_id (c ∷ s) h = cc (safe_char-id c h.0, map-safe_char_id s h.1)

no_spaces : (s : Text) → Safe s → All (λ c. is_space c ≡ false) s
no_spaces [] h = tt
no_spaces (c ∷ s) h = (safe_is_no_space c h.0, no_spaces s h.1)

-- The name that `SafeName` gives has only letters, digits, hyphens and underscores, and the texts
-- that `SafeName` leaves as they are are exactly those of such characters.
pub safe_name-Safe :
    (value : Text) → Safe (safe_name value) × ((safe_name value ≡ value) ↔ Safe value)
unfolding safe_name
safe_name-Safe value = (
  map-Safe (trim_space value),
  (
    (λ e. rw e at (map-Safe (trim_space value))),
    (λ h. ap (map safe_char) (trim_space-id value (no_spaces value h)) ∙ map-safe_char_id value h),
  ),
)
