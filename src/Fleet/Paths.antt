-- ===== src/Fleet/Paths.antt =====
-- Package `path/filepath` on Linux: paths are texts, split at the slashes.
pub mod Clean
pub mod Rooted
use admiral_fleet.Prelude.{
  Text, ℕ, Bool, true, false, List, [], ◌∷◌, ◌++◌, Option, none, some, ◌==◌, ◌&&◌, ◌||◌,
  if◌then◌else◌, eq_text, is_empty, has_prefix, not,
}
use mathlib.Core.List.{reverse}

abbrev pub slash : ℕ
slash = b'/'

abbrev pub dot : Text
dot = b'.' ∷ []

abbrev pub dotdot : Text
dotdot = b'.' ∷ b'.' ∷ []

abbrev pub onto_first : ℕ → List Text → List Text
onto_first c [] = (c ∷ []) ∷ []
onto_first c (x ∷ xs) = (c ∷ x) ∷ xs

-- The texts between the slashes.
unfoldable pub split : Text → List Text
split [] = [] ∷ []
split (c ∷ s) = let rest = split s in if c == slash then [] ∷ rest else onto_first c rest

-- The components with slashes between them.
unfoldable pub join : List Text → Text
join [] = []
join (x ∷ []) = x
join (x ∷ y ∷ xs) = x ++ slash ∷ join (y ∷ xs)

-- `filepath.IsAbs`
abbrev pub is_abs : Text → Bool
is_abs [] = false
is_abs (c ∷ s) = c == slash

-- A component `..` on the components so far, the last one first.
abbrev pub climb : Bool → List Text → List Text
climb true [] = []
climb false [] = dotdot ∷ []
climb rooted (top ∷ out) = if eq_text top dotdot then dotdot ∷ top ∷ out else out

-- The next component of the path.
abbrev pub visit : Bool → List Text → Text → List Text
visit rooted out x =
    if is_empty x || eq_text x dot
    then out
    else if eq_text x dotdot
    then climb rooted out
    else x ∷ out

-- `Clean` on components: the components of the result, the last one first.
unfoldable pub resolve : Bool → List Text → List Text → List Text
unfolding eq_text
resolve rooted out [] = out
resolve rooted out (x ∷ xs) = resolve rooted (visit rooted out x) xs

-- The components of the cleaned path.
unfoldable pub components : Text → List Text
unfolding resolve split
components path = reverse (resolve (is_abs path) [] (split path))

abbrev pub or_dot : Text → Text
or_dot s = if is_empty s then dot else s

-- `filepath.Clean`
unfoldable pub clean : Text → Text
unfolding components join
clean path = if is_abs path then slash ∷ join (components path) else or_dot (join (components path))

-- `filepath.Join` of two elements, of which the empty ones are left out
unfoldable pub join_path : Text → Text → Text
unfolding clean
join_path a b =
    if is_empty a
    then if is_empty b then [] else clean b
    else if is_empty b
    then clean a
    else clean (a ++ slash ∷ b)

abbrev pub climbing : List Text → List Text → List Text
climbing [] rest = rest
climbing (x ∷ xs) rest = dotdot ∷ climbing xs rest

-- From the directory `base` to `target`: out of what is left of the base, then into the target.
unfoldable pub rel_components : List Text → List Text → Option (List Text)
unfolding eq_text
rel_components [] target = some target
rel_components (x ∷ xs) [] = some (climbing (x ∷ xs) [])
rel_components (x ∷ xs) (y ∷ ys) =
    let below = rel_components xs ys in
    if eq_text x y
    then below
    else if eq_text x dotdot
    then none
    else some (climbing (x ∷ xs) (y ∷ ys))

abbrev pub is_nil : List Text → Bool
is_nil [] = true
is_nil (x ∷ xs) = false

abbrev pub show_relative : Option (List Text) → Option Text
show_relative none = none
show_relative (some xs) = some (or_dot (join xs))

-- The components of a target. A relative target that is `.` keeps the dot, unless the base is `.`.
abbrev pub target_components : Text → List Text → List Text → List Text
target_components target base [] = if is_abs target || is_nil base then [] else dot ∷ []
target_components target base (x ∷ xs) = x ∷ xs

-- `filepath.Rel`, `none` for its error
unfoldable pub rel : Text → Text → Option Text
unfolding components rel_components join
rel base target =
    if (is_abs base && not (is_abs target)) || (not (is_abs base) && is_abs target)
    then none
    else let bs = components base in
      show_relative (rel_components bs (target_components target bs (components target)))

-- `rel == "." || rel == ".." || strings.HasPrefix(rel, "../") || filepath.IsAbs(rel)`
abbrev pub is_outside_mount : Text → Bool
is_outside_mount r =
    eq_text r dot || eq_text r dotdot || has_prefix r (dotdot ++ slash ∷ []) || is_abs r

-- `strings.ReplaceAll(s, "..", "")`; the Boolean is a dot that was just read.
abbrev pub dots_out : Bool → Text → Text
dots_out pending [] = if pending then dot else []
dots_out pending (c ∷ s) =
    let rest = dots_out (c == b'.' && not pending) s in
    if c == b'.' then rest else if pending then b'.' ∷ c ∷ rest else c ∷ rest

-- `strings.ReplaceAll(s, "/", "")`
abbrev pub slashes_out : Text → Text
slashes_out [] = []
slashes_out (c ∷ s) = let rest = slashes_out s in if c == slash then rest else c ∷ rest
