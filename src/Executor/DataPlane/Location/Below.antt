-- ===== src/Executor/DataPlane/Location/Below.antt =====
-- A local backup lies below the backup root.
use admiral_fleet.Prelude.{
  Text, true, false, List, [], ◌∷◌, ◌++◌, Option, none, some, ◌≡◌, refl, sym, ◌∙◌, ap, subst, All,
  Bool-cases, inl, inr, is_blank, codes, trim_space,
}
use admiral_fleet.Fleet.Effects.{
  Result, ok, err, World, fail, ◌>>=◌, or_fail, command, Log, validate_dir,
}
use admiral_fleet.Fleet.Effects.Triples.{Post, Triple, Triple-bind, Triple-true, Triple-pure}
use admiral_fleet.Fleet.Paths.{slash, join, is_abs, components, clean, join_path, rel}
use admiral_fleet.Fleet.Paths.Clean.{Proper, clean-abs}
use admiral_fleet.Fleet.Paths.Rooted.{components-Proper, components-clean, rel-stays}
use admiral_fleet.Executor.DataPlane.Location.{
  LocationError, escapes_root, root_not_managed, locate, candidate, leaves_root, check_relative,
  check_root, local_backup_root, resolve_local_backup_path,
}

is_abs-clean : (path : Text) → is_abs path ≡ true → is_abs (clean path) ≡ true
is_abs-clean path h = rw (clean-abs path h) refl

is_abs-join_path : (a b : Text) → is_abs a ≡ true → is_abs (join_path a b) ≡ true
unfolding join_path
is_abs-join_path [] b h = absurd (cc h)
is_abs-join_path (c ∷ a) [] h = is_abs-clean (c ∷ a) h
is_abs-join_path (c ∷ a) (d ∷ b) h = is_abs-clean (c ∷ a ++ slash ∷ d ∷ b) h

-- A candidate is a cleaned absolute path.
abbrev IsCleaned : Text → Type 0
IsCleaned p = (q : Text) × (p ≡ clean q) × (is_abs q ≡ true)

candidate-IsCleaned : (root key : Text) → is_abs root ≡ true → IsCleaned (candidate root key)
unfolding candidate
candidate-IsCleaned root key h = elim (Bool-cases (is_abs key)) [
  | inl abs ↦ (key, rw abs refl, abs)
  | inr relative ↦ (join_path root key, rw relative refl, is_abs-join_path root key h)
]

-- The path is the root, or it goes on below the root with proper components.
abbrev pub Under : Text → Text → Type 0
Under root path =
    (below : List Text) × (path ≡ slash ∷ join (components root ++ below))
    × All Proper (components root ++ below)

cleaned-Under :
    (root path : Text) (below : List Text)
    → IsCleaned path
    → components path ≡ components root ++ below
    → Under root path
cleaned-Under root path below (q, e, abs) h =
    let same = sym (components-clean q abs) ∙ ap components (sym e) ∙ h in
    (
      below,
      e ∙ clean-abs q abs ∙ ap (λ l. slash ∷ join l) same,
      subst (All Proper) same (components-Proper q abs),
    )

accepted :
    (root found path r : Text)
    → leaves_root r ≡ false
    → check_relative root found (some r) ≡ ok path
    → found ≡ path
accepted root found path r stays h =
    let e : check_relative root found (some r) ≡ ok found = rw stays refl in cc (e, h)

refused :
    (root found path r : Text)
    → leaves_root r ≡ true
    → check_relative root found (some r) ≡ ok path
    → ⊥
refused root found path r leaves h =
    let e : check_relative root found (some r) ≡ err (escapes_root found root) = rw leaves refl in
    cc (e, h)

check_relative-Under :
    (root found path : Text) (r : Option Text)
    → is_abs root ≡ true
    → IsCleaned found
    → is_abs found ≡ true
    → rel root found ≡ r
    → check_relative root found r ≡ ok path
    → Under root path
check_relative-Under root found path none hr hc ha e h = absurd (cc h)
check_relative-Under root found path (some r) hr hc ha e h = elim (Bool-cases (leaves_root r)) [
  | inl leaves ↦ absurd (refused root found path r leaves h)
  | inr stays ↦
      let (below, same) = rel-stays root found r hr ha e (λ l. cc (l, stays)) in
      subst (Under root) (accepted root found path r stays h)
        (cleaned-Under root found below hc same)
]

IsCleaned-is_abs : (path : Text) → IsCleaned path → is_abs path ≡ true
IsCleaned-is_abs path (q, e, abs) = rw e (is_abs-clean q abs)

locate-Under :
    (root key path : Text) → is_abs root ≡ true → locate root key ≡ ok path → Under root path
unfolding locate
locate-Under root [] path hr h = absurd (cc h)
locate-Under root (c ∷ key) path hr h =
    let hc = candidate-IsCleaned root (c ∷ key) hr in
    let found = candidate root (c ∷ key) in
    check_relative-Under root found path (rel root found) hr hc (IsCleaned-is_abs found hc) refl h

is_abs-local_backup_root :
    (data_dir : Text) → is_abs data_dir ≡ true → is_abs (local_backup_root data_dir) ≡ true
unfolding local_backup_root
is_abs-local_backup_root data_dir h = elim (Bool-cases (is_blank data_dir)) [
  | inl blank ↦ rw blank (
      is_abs-clean (join_path (codes "/var/lib/admiral") (codes "backups"))
        (is_abs-join_path (codes "/var/lib/admiral") (codes "backups") refl))
  | inr given ↦ rw given (
      is_abs-clean (join_path data_dir (codes "backups"))
        (is_abs-join_path data_dir (codes "backups") h))
]

found_value :
    (path found : Text) (r : Result LocationError Text) (l : Log)
    → r ≡ ok path
    → Post (λ p _. found ≡ p) (λ _ _. Unit) r l
    → ok found ≡ r
found_value path found (ok p) l e h = ap ok h
found_value path found (err x) l e h = absurd (cc e)

check_root-value :
    (root found : Text)
    → Triple (λ _. Unit {0}) (check_root root (ok found)) (λ p _. found ≡ p) (λ _ _. Unit)
unfolding ◌>>=◌
check_root-value root found =
    Triple-bind (Triple-true (or_fail (command (validate_dir root)) root_not_managed))
      (λ a. Triple-pure found (λ l h. refl))

check_root-located :
    (root path : Text) (r : Result LocationError Text) (w : World)
    → (check_root root r w).0 ≡ ok path
    → r ≡ ok path
unfolding fail
check_root-located root path (err e) w h = absurd (cc h)
check_root-located root path (ok found) w h =
    let (r, w') = check_root root (ok found) w in
    found_value path found r w'.log h ((check_root-value root found).at w tt) ∙ h

-- A local backup that is found lies in the backup root or below it: its path is the root's, followed
-- by components that are neither empty nor `.` nor `..`, whatever the key is, if the data directory
-- is an absolute path.
pub resolve_local_backup_path-Under :
    (data_dir key path : Text) (w : World)
    → is_abs data_dir ≡ true
    → (resolve_local_backup_path data_dir key w).0 ≡ ok path
    → Under (clean (local_backup_root data_dir)) path
unfolding resolve_local_backup_path
resolve_local_backup_path-Under data_dir key path w h e =
    let root = clean (local_backup_root data_dir) in
    locate-Under root (trim_space key) path
      (is_abs-clean (local_backup_root data_dir) (is_abs-local_backup_root data_dir h))
      (check_root-located root path (locate root (trim_space key)) w e)
