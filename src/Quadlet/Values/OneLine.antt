-- ===== src/Quadlet/Values/OneLine.antt =====
-- Sanitized values keep to their line.
use admiral_fleet.Prelude.{
  arith, Text, ℕ, Bool, true, false, [], ◌∷◌, map, ◌==◌, ◌≡◌, refl, All, All-append, ◌↔◌,
  Bool-cases, inl, inr, subst, if◌then◌else◌, ◌||◌,
}
use admiral_fleet.Quadlet.Values.{
  unbroken, is_plain, plain_char, sanitize_quadlet_value, escape_char, sanitize_env_value,
}

abbrev pub Plain : Text → Type 0
Plain = All (λ c. is_plain c ≡ true)

-- No line feed, carriage return or null.
abbrev pub OneLine : Text → Type 0
OneLine = All (λ c. ((c == 10) ≡ false) × ((c == 13) ≡ false) × ((c == 0) ≡ false))

plain_char-is_plain : (c : ℕ) → is_plain (plain_char c) ≡ true
unfolding plain_char is_plain
plain_char-is_plain c = ground arith

map-Plain : (s : Text) → Plain (map plain_char s)
map-Plain [] = tt
map-Plain (c ∷ s) = (plain_char-is_plain c, map-Plain s)

plain_char-id : (c : ℕ) → is_plain c ≡ true → plain_char c ≡ c
unfolding plain_char
plain_char-id c h = rw h refl

plain_is_one_line :
    (c : ℕ) → is_plain c ≡ true → ((c == 10) ≡ false) × ((c == 13) ≡ false) × ((c == 0) ≡ false)
unfolding is_plain
plain_is_one_line c h = ground arith

pub Plain-OneLine : (s : Text) → Plain s → OneLine s
Plain-OneLine [] h = tt
Plain-OneLine (c ∷ s) h = (plain_is_one_line c h.0, Plain-OneLine s h.1)

sanitize-id : (s : Text) → Plain s → sanitize_quadlet_value s ≡ s
unfolding sanitize_quadlet_value unbroken
sanitize-id [] h = refl
sanitize-id (c ∷ s) h =
    let (lf, cr, nul) = plain_is_one_line c h.0 in
    rw (lf, cr, nul) (cc (plain_char-id c h.0, sanitize-id s h.1))

escaped-OneLine :
    (c : ℕ) (b : Bool)
    → ((c == 10) ≡ false) × ((c == 13) ≡ false) × ((c == 0) ≡ false)
    → OneLine (if b then 92 ∷ c ∷ [] else c ∷ [])
escaped-OneLine c true h = ((refl, refl, refl), (h, tt))
escaped-OneLine c false h = (h, tt)

escape_char-OneLine : (c : ℕ) → OneLine (escape_char c)
unfolding escape_char
escape_char-OneLine c = elim (Bool-cases (c == 10)) [
  | inl h ↦ rw h ((refl, refl, refl), ((refl, refl, refl), tt))
  | inr lf ↦ elim (Bool-cases (c == 13)) [
    | inl h ↦ rw (lf, h) ((refl, refl, refl), ((refl, refl, refl), tt))
    | inr cr ↦ elim (Bool-cases (c == 0)) [
      | inl h ↦ rw (lf, cr, h) tt
      | inr nul ↦ rw (lf, cr, nul) (escaped-OneLine c (c == 92 || c == 34 || c == 36) (lf, cr, nul))
    ]
  ]
]

sanitize_env_value-OneLine : (s : Text) → OneLine (sanitize_env_value s)
unfolding sanitize_env_value
sanitize_env_value-OneLine [] = tt
sanitize_env_value-OneLine (c ∷ s) =
    All-append _ (escape_char c) (sanitize_env_value s) (escape_char-OneLine c)
      (sanitize_env_value-OneLine s)

-- A sanitized unit value is printable ASCII without backslash, backtick and dollar, and the values
-- that are left as they are are exactly those; a sanitized environment value has no line break and
-- no null byte.
pub sanitized_values :
    (value : Text)
    → Plain (sanitize_quadlet_value value)
      × ((sanitize_quadlet_value value ≡ value) ↔ Plain value)
      × OneLine (sanitize_env_value value)
unfolding sanitize_quadlet_value
sanitized_values value = (
  map-Plain (unbroken value),
  ((λ e. subst Plain e (map-Plain (unbroken value))), sanitize-id value),
  sanitize_env_value-OneLine value,
)
