-- ===== src/Fleet/Paths/Clean.antt =====
-- What `Clean` gives, and what it leaves as it is.
use admiral_fleet.Prelude.{
  Text, ℕ, Bool, true, false, List, [], ◌∷◌, ◌++◌, ◌≡◌, refl, ap, sym, ◌∙◌, subst, ◌==◌, All,
  All-append, append_assoc, append_nil, Bool-cases, inl, inr, eq_text, eq_text_iff, is_empty,
  has_prefix, trim_prefix, trim_prefix-append, ◌⊎◌, ◌≢◌,
}
use mathlib.Core.List.{reverse, reverse-append, reverse-reverse}
use admiral_fleet.Fleet.Paths.{
  slash, dot, dotdot, split, join, is_abs, climb, visit, resolve, components, clean, or_dot,
  onto_first, is_outside_mount,
}

abbrev pub NoSlash : Text → Type 0
NoSlash = All (λ c. (c == slash) ≡ false)

-- A component that names an entry of its directory.
abbrev pub Proper : Text → Type 0
Proper x = NoSlash x × (is_empty x ≡ false) × (eq_text x dot ≡ false) × (eq_text x dotdot ≡ false)

split-NoSlash : (x : Text) → NoSlash x → split x ≡ x ∷ []
unfolding split
split-NoSlash [] h = refl
split-NoSlash (c ∷ x) h = rw (h.0) (rw (split-NoSlash x h.1) refl)

split-append : (x s : Text) → NoSlash x → split (x ++ slash ∷ s) ≡ x ∷ split s
unfolding split
split-append [] s h = refl
split-append (c ∷ x) s h = rw (h.0) (rw (split-append x s h.1) refl)

-- Components without slashes are what a split finds again.
pub split-join : (x : Text) (xs : List Text) → All NoSlash (x ∷ xs) → split (join (x ∷ xs)) ≡ x ∷ xs
unfolding join
split-join x [] h = split-NoSlash x h.0
split-join x (y ∷ ys) h = split-append x (join (y ∷ ys)) h.0 ∙ ap (λ l. x ∷ l) (split-join y ys h.1)

onto_first-NoSlash :
    (c : ℕ) (xs : List Text) → (c == slash) ≡ false → All NoSlash xs → All NoSlash (onto_first c xs)
onto_first-NoSlash c [] e h = ((e, tt), tt)
onto_first-NoSlash c (x ∷ xs) e h = ((e, h.0), h.1)

pub split-All : (s : Text) → All NoSlash (split s)
unfolding split
split-All [] = (tt, tt)
split-All (c ∷ s) = elim (Bool-cases (c == slash)) [
  | inl e ↦ rw e (tt, split-All s)
  | inr e ↦ rw e (onto_first-NoSlash c (split s) e (split-All s))
]

-- Proper components above components `..`, the last component first.
Climbed : List Text → Type 0
Climbed [] = Unit
Climbed (x ∷ xs) = (Proper x × Climbed xs) ⊎ ((x ≡ dotdot) × All (λ y. y ≡ dotdot) xs)

abbrev Dots : List Text → Type 0
Dots = All (λ y. y ≡ dotdot)

climb-Climbed : (out : List Text) → Climbed out → Climbed (climb false out)
unfolding Climbed eq_text
climb-Climbed [] h = inr (refl, tt)
climb-Climbed (x ∷ xs) (inl h) = rw (h.0.3) (h.1)
climb-Climbed (x ∷ xs) (inr h) = rw (h.0) (inr (refl, (refl, h.1)))

visit-Climbed : (out : List Text) (x : Text) → Climbed out → NoSlash x → Climbed (visit false out x)
unfolding Climbed
visit-Climbed out x h e = elim (Bool-cases (is_empty x)) [
  | inl empty ↦ rw empty h
  | inr full ↦ elim (Bool-cases (eq_text x dot)) [
    | inl d ↦ rw (full, d) h
    | inr nd ↦ elim (Bool-cases (eq_text x dotdot)) [
      | inl dd ↦ rw (full, nd, dd) (climb-Climbed out h)
      | inr ndd ↦ rw (full, nd, ndd) (inl ((e, full, nd, ndd), h))
    ]
  ]
]

resolve-Climbed :
    (xs out : List Text) → Climbed out → All NoSlash xs → Climbed (resolve false out xs)
unfolding resolve
resolve-Climbed [] out h e = h
resolve-Climbed (x ∷ xs) out h e =
    resolve-Climbed xs (visit false out x) (visit-Climbed out x h e.0) e.1

-- A list begins with `x`.
abbrev Begins : Text → List Text → Type 0
Begins x xs = (rest : List Text) × (xs ≡ x ∷ rest)

pub Begins-append : (x : Text) (xs ys : List Text) → Begins x xs → Begins x (xs ++ ys)
Begins-append x xs ys (rest, e) = (rest ++ ys, rw e refl)

reverse-Dots : (x : Text) (xs : List Text) → x ≡ dotdot → Dots xs → Begins dotdot (reverse (x ∷ xs))
reverse-Dots x [] e h = ([], rw e refl)
reverse-Dots x (y ∷ ys) e h =
    rw (reverse-append (x ∷ []) (y ∷ ys))
      (Begins-append dotdot (reverse (y ∷ ys)) (x ∷ []) (reverse-Dots y ys h.0 h.1))

Climbed-cases : (out : List Text) → Climbed out → All Proper out ⊎ Begins dotdot (reverse out)
unfolding Climbed
Climbed-cases [] h = inl tt
Climbed-cases (x ∷ xs) (inl h) = elim (Climbed-cases xs h.1) [
  | inl ps ↦ inl (h.0, ps)
  | inr b ↦ inr (rw (reverse-append (x ∷ []) xs) (Begins-append dotdot (reverse xs) (x ∷ []) b))
]
Climbed-cases (x ∷ xs) (inr h) = inr (reverse-Dots x xs h.0 h.1)

-- What a relative path becomes: `.`, proper components, or a path out of the directory.
abbrev pub Below : Text → Type 0
Below path = (xs : List Text) × (path ≡ join xs) × All Proper xs × (xs ≢ [])

-- A path that begins with `..` is outside, and not empty.
pub join-dotdot : (rest : List Text) → is_outside_mount (join (dotdot ∷ rest)) ≡ true
unfolding join eq_text has_prefix
join-dotdot [] = refl
join-dotdot (y ∷ ys) = refl

pub is_empty-join-dotdot : (rest : List Text) → is_empty (join (dotdot ∷ rest)) ≡ false
unfolding join
is_empty-join-dotdot [] = refl
is_empty-join-dotdot (y ∷ ys) = refl

is_empty-append : (x y : Text) → is_empty x ≡ false → is_empty (x ++ y) ≡ false
is_empty-append [] y h = absurd (cc h)
is_empty-append (c ∷ x) y h = refl

pub is_empty-join :
    (x : Text) (xs : List Text) → is_empty x ≡ false → is_empty (join (x ∷ xs)) ≡ false
unfolding join
is_empty-join x [] h = h
is_empty-join x (y ∷ ys) h = is_empty-append x (slash ∷ join (y ∷ ys)) h

pub reverse-Proper : (xs : List Text) → All Proper xs → All Proper (reverse xs)
reverse-Proper [] h = tt
reverse-Proper (x ∷ xs) h =
    rw (reverse-append (x ∷ []) xs)
      (All-append Proper (reverse xs) (x ∷ []) (reverse-Proper xs h.1) (h.0, tt))

pub or_dot-id : (s : Text) → is_empty s ≡ false → or_dot s ≡ s
or_dot-id s h = rw h refl

stay_inside :
    (xs : List Text)
    → All Proper xs
    → is_outside_mount (or_dot (join xs)) ≡ false
    → Below (or_dot (join xs))
unfolding join eq_text
stay_inside [] h e = absurd (cc e)
stay_inside (x ∷ xs) h e =
    (x ∷ xs, or_dot-id (join (x ∷ xs)) (is_empty-join x xs h.0.1), h, λ n. cc n)

dotdot_components : (xs : List Text) → Begins dotdot xs → is_outside_mount (or_dot (join xs)) ≡ true
dotdot_components xs (rest, e) =
    rw (e, or_dot-id (join (dotdot ∷ rest)) (is_empty-join-dotdot rest)) (join-dotdot rest)

pub clean-abs : (path : Text) → is_abs path ≡ true → clean path ≡ slash ∷ join (components path)
unfolding clean
clean-abs path h = rw h

clean-relative :
    (path : Text)
    → is_abs path ≡ false
    → clean path ≡ or_dot (join (reverse (resolve false [] (split path))))
unfolding clean components
clean-relative path h = rw h

is_outside_mount-abs : (s : Text) → is_outside_mount (slash ∷ s) ≡ true
unfolding eq_text has_prefix
is_outside_mount-abs s = refl

relative_stays :
    (xs : List Text)
    → Climbed xs
    → is_outside_mount (or_dot (join (reverse xs))) ≡ false
    → Below (or_dot (join (reverse xs)))
relative_stays xs h e = elim (Climbed-cases xs h) [
  | inl proper ↦ stay_inside (reverse xs) (reverse-Proper xs proper) e
  | inr begins ↦ absurd (cc (e, dotdot_components (reverse xs) begins))
]

-- A cleaned path that the test for paths outside lets pass is one of proper components.
pub clean-Below : (path : Text) → is_outside_mount (clean path) ≡ false → Below (clean path)
unfolding Climbed
clean-Below path e = elim (Bool-cases (is_abs path)) [
  | inl abs ↦ absurd (cc (e, clean-abs path abs, is_outside_mount-abs (join (components path))))
  | inr relative ↦
      let c = clean-relative path relative in
      subst Below (sym c) (
        relative_stays (resolve false [] (split path))
          (resolve-Climbed (split path) [] tt (split-All path)) (rw c at e))
]

visit-Proper :
    (rooted : Bool) (out : List Text) (x : Text) → Proper x → visit rooted out x ≡ x ∷ out
visit-Proper rooted out x h = rw (h.1, h.2, h.3)

pub resolve-Proper :
    (rooted : Bool) (xs out : List Text) → All Proper xs → resolve rooted out xs ≡ reverse xs ++ out
unfolding resolve
resolve-Proper rooted [] out h = refl
resolve-Proper rooted (x ∷ xs) out h =
    ap (λ l. resolve rooted l xs) (visit-Proper rooted out x h.0)
    ∙ resolve-Proper rooted xs (x ∷ out) h.1
    ∙ sym (append_assoc (reverse xs) (x ∷ []) out)
    ∙ ap (λ l. l ++ out) (sym (reverse-append (x ∷ []) xs))

is_abs-append : (x y : Text) → NoSlash x → is_empty x ≡ false → is_abs (x ++ y) ≡ false
is_abs-append [] y h e = absurd (cc e)
is_abs-append (c ∷ x) y h e = h.0

is_abs-join : (x : Text) (xs : List Text) → Proper x → is_abs (join (x ∷ xs)) ≡ false
unfolding join
is_abs-join x [] h = subst (λ s. is_abs s ≡ false) (append_nil x) (is_abs-append x [] h.0 h.1)
is_abs-join x (y ∷ ys) h = is_abs-append x (slash ∷ join (y ∷ ys)) h.0 h.1

pub All-NoSlash : (xs : List Text) → All Proper xs → All NoSlash xs
All-NoSlash [] h = tt
All-NoSlash (x ∷ xs) h = (h.0.0, All-NoSlash xs h.1)

-- Proper components stay as they are.
pub clean-join :
    (x : Text) (xs : List Text) → All Proper (x ∷ xs) → clean (join (x ∷ xs)) ≡ join (x ∷ xs)
clean-join x xs h =
    clean-relative (join (x ∷ xs)) (is_abs-join x xs h.0)
    ∙ rw
        (
          split-join x xs (All-NoSlash (x ∷ xs) h),
          resolve-Proper false (x ∷ xs) [] h,
          append_nil (reverse (x ∷ xs)),
          reverse-reverse (x ∷ xs),
        )
        (or_dot-id (join (x ∷ xs)) (is_empty-join x xs h.0.1))

head-equal : (x y : Text) (xs ys : List Text) → x ∷ xs ≡ y ∷ ys → x ≡ y
head-equal x y xs ys e = cc e

-- A path of proper components is not another path, unless that one begins with the same component.
same_head :
    (x : Text) (xs : List Text) (s y : Text) (ys : List Text)
    → All Proper (x ∷ xs)
    → split s ≡ y ∷ ys
    → eq_text x y ≡ false
    → join (x ∷ xs) ≡ s
    → ⊥
same_head x xs s y ys h e n j = absurd (
    cc (
      n,
      (eq_text_iff x y).1
          (head-equal x y xs ys (sym (split-join x xs (All-NoSlash (x ∷ xs) h)) ∙ ap split j ∙ e)),
    ))

split-dot : split dot ≡ dot ∷ []
unfolding split
split-dot = refl

split-dotdot : split dotdot ≡ dotdot ∷ []
unfolding split
split-dotdot = refl

below_dotdot :
    (s : Text)
    → has_prefix s (dotdot ++ slash ∷ []) ≡ true
    → split s ≡ dotdot ∷ split (trim_prefix s (dotdot ++ slash ∷ []))
below_dotdot s h =
    ap split (sym (trim_prefix-append s (dotdot ++ slash ∷ []) h))
    ∙ split-append dotdot (trim_prefix s (dotdot ++ slash ∷ [])) (refl, (refl, tt))

-- Paths of proper components pass the test for paths outside.
pub is_outside_mount-join :
    (x : Text) (xs : List Text) → All Proper (x ∷ xs) → is_outside_mount (join (x ∷ xs)) ≡ false
is_outside_mount-join x xs h = elim (Bool-cases (eq_text (join (x ∷ xs)) dot)) [
  | inl e ↦
      absurd (same_head x xs dot dot [] h split-dot h.0.2 ((eq_text_iff (join (x ∷ xs)) dot).0 e))
  | inr not_dot ↦ elim (Bool-cases (eq_text (join (x ∷ xs)) dotdot)) [
    | inl e ↦ absurd (
        same_head x xs dotdot dotdot [] h split-dotdot h.0.3
          ((eq_text_iff (join (x ∷ xs)) dotdot).0 e))
    | inr not_dotdot ↦ elim (Bool-cases (has_prefix (join (x ∷ xs)) (dotdot ++ slash ∷ []))) [
      | inl e ↦ absurd (
          same_head x xs (join (x ∷ xs)) dotdot
            (split (trim_prefix (join (x ∷ xs)) (dotdot ++ slash ∷ []))) h
            (below_dotdot (join (x ∷ xs)) e) h.0.3 refl)
      | inr inside ↦ rw (not_dot, not_dotdot, inside) (is_abs-join x xs h.0)
    ]
  ]
]
