-- ===== src/Fleet/Paths/Rooted.antt =====
-- Absolute paths: what `Clean` gives, and what `Rel` says of one below another.
use admiral_fleet.Prelude.{
  Text, Bool, true, not, List, [], ◌∷◌, ◌++◌, Option, none, some, ◌≡◌, refl, ap, sym, ◌∙◌, ◌⊎◌, inl,
  inr, All, append_nil, Bool-cases, eq_text, eq_text_iff, is_empty, has_prefix, ◌||◌, ◌&&◌,
  if◌then◌else◌, subst,
}
use mathlib.Core.List.{reverse, reverse-reverse}
use admiral_fleet.Fleet.Paths.{
  slash, dot, dotdot, split, join, is_abs, climb, visit, resolve, components, clean, or_dot, rel,
  rel_components, climbing, show_relative, target_components,
}
use admiral_fleet.Fleet.Paths.Clean.{
  NoSlash, Proper, split-All, split-join, All-NoSlash, resolve-Proper, clean-abs, or_dot-id,
  is_empty-join-dotdot, reverse-Proper,
}

climb-Proper : (out : List Text) → All Proper out → All Proper (climb true out)
climb-Proper [] h = tt
climb-Proper (x ∷ xs) h = rw (h.0.3) (h.1)

visit-AllProper :
    (out : List Text) (x : Text) → All Proper out → NoSlash x → All Proper (visit true out x)
visit-AllProper out x h e = elim (Bool-cases (is_empty x)) [
  | inl empty ↦ rw empty h
  | inr full ↦ elim (Bool-cases (eq_text x dot)) [
    | inl d ↦ rw (full, d) h
    | inr nd ↦ elim (Bool-cases (eq_text x dotdot)) [
      | inl dd ↦ rw (full, nd, dd) (climb-Proper out h)
      | inr ndd ↦ rw (full, nd, ndd) ((e, full, nd, ndd), h)
    ]
  ]
]

resolve-AllProper :
    (xs out : List Text) → All Proper out → All NoSlash xs → All Proper (resolve true out xs)
unfolding resolve
resolve-AllProper [] out h e = h
resolve-AllProper (x ∷ xs) out h e =
    resolve-AllProper xs (visit true out x) (visit-AllProper out x h e.0) e.1

-- An absolute path has proper components.
pub components-Proper : (path : Text) → is_abs path ≡ true → All Proper (components path)
unfolding components
components-Proper path h = rw h (
    reverse-Proper (resolve true [] (split path))
      (resolve-AllProper (split path) [] tt (split-All path)))

components-split : (xs : List Text) → All Proper xs → components (slash ∷ join xs) ≡ xs
unfolding components split join resolve
components-split [] h = refl
components-split (x ∷ xs) h =
    rw
      (
        split-join x xs (All-NoSlash (x ∷ xs) h),
        resolve-Proper true (x ∷ xs) [] h,
        append_nil (reverse (x ∷ xs)),
      )
      (reverse-reverse (x ∷ xs))

pub components-clean :
    (path : Text) → is_abs path ≡ true → components (clean path) ≡ components path
components-clean path h =
    ap components (clean-abs path h) ∙ components-split (components path) (components-Proper path h)

-- What the components of a relative path say: the target lies below the base, or the path climbs.
abbrev Relation : List Text → List Text → Option (List Text) → Type 0
Relation base target r =
    ((rest : List Text) × (target ≡ base ++ rest) × (r ≡ some rest))
    ⊎ (((rest : List Text) × (r ≡ some (dotdot ∷ rest))) ⊎ (r ≡ none))

related-further :
    (x : Text) (base target : List Text) (r : Option (List Text))
    → Relation base target r
    → Relation (x ∷ base) (x ∷ target) r
related-further x base target r (inl (rest, e, q)) = inl (rest, ap (λ l. x ∷ l) e, q)
related-further x base target r (inr h) = inr h

related : (base target : List Text) → Relation base target (rel_components base target)
unfolding rel_components
related [] target = inl (target, refl, refl)
related (x ∷ xs) [] = inr (inl (climbing xs [], refl))
related (x ∷ xs) (y ∷ ys) = elim (Bool-cases (eq_text x y)) [
  | inl e ↦
      rw (e, sym ((eq_text_iff x y).0 e))
        (related-further x xs ys (rel_components xs ys) (related xs ys))
  | inr n ↦ elim (Bool-cases (eq_text x dotdot)) [
    | inl d ↦ rw (n, d) (inr (inr refl))
    | inr nd ↦ rw (n, nd) (inr (inl (climbing xs (y ∷ ys), refl)))
  ]
]

target-abs :
    (target : Text) (base xs : List Text)
    → is_abs target ≡ true
    → target_components target base xs ≡ xs
target-abs target base [] h = rw h refl
target-abs target base (x ∷ xs) h = refl

both_abs :
    (a b : Bool) (r : Option Text)
    → a ≡ true
    → b ≡ true
    → (if (a && not b) || (not a && b) then none else r) ≡ r
both_abs a b r ha hb = rw (ha, hb) refl

rel-abs :
    (base target : Text)
    → is_abs base ≡ true
    → is_abs target ≡ true
    → rel base target ≡ show_relative (rel_components (components base) (components target))
unfolding rel
rel-abs base target hb ht =
    both_abs (is_abs base) (is_abs target) _ hb ht
    ∙ ap (λ l. show_relative (rel_components (components base) l))
        (target-abs target (components base) (components target) ht)

-- A relative path that begins with `..` leaves the directory.
abbrev pub Leaves : Text → Type 0
Leaves r = (eq_text r dotdot || has_prefix r (dotdot ++ slash ∷ [])) ≡ true

Leaves-join : (rest : List Text) → Leaves (join (dotdot ∷ rest))
unfolding join eq_text has_prefix
Leaves-join [] = refl
Leaves-join (y ∷ ys) = refl

pub same_text : (a b : Text) → some a ≡ some b → a ≡ b
same_text a b e = cc e

below_base :
    (base target : List Text) (r : Option (List Text)) (s : Text)
    → Relation base target r
    → show_relative r ≡ some s
    → (Leaves s → ⊥)
    → (rest : List Text) × (target ≡ base ++ rest)
below_base base target r s (inl (rest, e, q)) h stays = (rest, e)
below_base base target r s (inr (inl (rest, q))) h stays = absurd (
    stays (
      subst Leaves
        (sym (or_dot-id (join (dotdot ∷ rest)) (is_empty-join-dotdot rest))
          ∙ same_text (or_dot (join (dotdot ∷ rest))) s (sym (ap show_relative q) ∙ h))
        (Leaves-join rest)))
below_base base target r s (inr (inr q)) h stays = absurd (cc (q, h))

-- A path whose relative path from an absolute base does not leave it is the base, or below it.
pub rel-stays :
    (base target r : Text)
    → is_abs base ≡ true
    → is_abs target ≡ true
    → rel base target ≡ some r
    → (Leaves r → ⊥)
    → (rest : List Text) × (components target ≡ components base ++ rest)
rel-stays base target r hb ht e stays =
    below_base (components base) (components target) _ r
      (related (components base) (components target)) (sym (rel-abs base target hb ht) ∙ e) stays
