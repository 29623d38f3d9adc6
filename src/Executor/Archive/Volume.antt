-- ===== src/Executor/Archive/Volume.antt =====
-- The files of one volume, from the archive back to the mount point.
use admiral_fleet.Prelude.{
  arith, Text, ℕ, ℤ, pos, true, false, List, [], ◌∷◌, ◌++◌, Option, none, some, ◌≡◌, ◌≢◌, refl, ap,
  ◌∙◌, ◌⊎◌, inl, inr, All, Bool-cases, has_prefix, has_prefix-append, trim_prefix-append_left, ◌==◌,
  eq_text, if◌then◌else◌, ==_iff,
}
use admiral_fleet.Fleet.Effects.{Result, ok, err}
use admiral_fleet.Fleet.Paths.{slash, dot, join, clean, is_outside_mount}
use admiral_fleet.Fleet.Paths.Clean.{NoSlash, Proper, clean-join, is_outside_mount-join}
use admiral_fleet.Podman.IdMap.{map_id, to_uint64, to_int64}
use admiral_fleet.Executor.Archive.Inside.{dir_is_no_file}
use admiral_fleet.Executor.Archive.{
  Entry, File, IdMaps, type_reg, type_dir, exceeds_limit, check_entry, copy_entry, filter_entry,
  filter_entries, collect_volume, add_entry,
}

abbrev pub owner : Option ℕ → ℤ
owner (some id) = to_int64 id
owner none = pos 0

-- The entry with which a restore extracts a file: its path, and its owners in the container.
abbrev pub in_container : IdMaps → File → Entry
in_container maps f = record (f.entry) {
  name = f.path;
  uid = owner (map_id maps.users (to_uint64 f.entry.uid));
  gid = owner (map_id maps.groups (to_uint64 f.entry.gid));
}

-- All the files of a volume but its root.
unfoldable pub restored : IdMaps → List (Result Text File) → List Entry
unfolding eq_text
restored maps [] = []
restored maps (err e ∷ files) = restored maps files
restored maps (ok f ∷ files) =
    let rest = restored maps files in
    if eq_text f.path dot then rest else in_container maps f ∷ rest

-- What a restore accepts: a directory, or a file with its data and within the limit.
abbrev pub Copied : Entry → Type 0
Copied e =
    ((e.flag == type_dir) ≡ true)
    ⊎ (((e.flag == type_reg) ≡ true)
        × (exceeds_limit e.size ≡ false)
        × ((data_bytes : Text) × (e.content ≡ some data_bytes)))

abbrev pub Named : Text → Type 0
Named path = (x : Text) × (xs : List Text) × (path ≡ join (x ∷ xs)) × All Proper (x ∷ xs)

-- A file that can be restored: a path of proper components, and owners that the maps know.
abbrev pub Restorable : IdMaps → Result Text File → Type 0
Restorable maps (err e) = Unit
Restorable maps (ok f) =
    (eq_text f.path dot ≡ true)
    ⊎ (Named f.path
        × Copied f.entry
        × ((u : ℕ) × (map_id maps.users (to_uint64 f.entry.uid) ≡ some u))
        × ((g : ℕ) × (map_id maps.groups (to_uint64 f.entry.gid) ≡ some g)))

-- The prefix of one volume is none of another's names.
other_prefix :
    (p q r : Text)
    → NoSlash p
    → NoSlash q
    → q ≢ p
    → has_prefix ((q ++ slash ∷ []) ++ r) (p ++ slash ∷ []) ≡ false
unfolding has_prefix
other_prefix [] [] r hp hq n = absurd (n refl)
other_prefix [] (c ∷ q) r hp hq n = ground arith
other_prefix (d ∷ p) [] r hp hq n = ground arith
other_prefix (d ∷ p) (c ∷ q) r hp hq n = elim (Bool-cases (c == d)) [
  | inl e ↦ rw e (other_prefix p q r hp.1 hq.1 (λ t. n (cc ((==_iff c d).0 e, t))))
  | inr e ↦ rw e refl
]

own_prefix : (p r : Text) → has_prefix ((p ++ slash ∷ []) ++ r) (p ++ slash ∷ []) ≡ true
own_prefix p r = has_prefix-append (p ++ slash ∷ []) r

module _ (maps : IdMaps) (prefix : Text) where
  -- Entries of other volumes are skipped.
  pub filter_entries-skip :
      (xs ys : List Entry)
      → All (λ e. has_prefix e.name prefix ≡ false) xs
      → filter_entries maps prefix (xs ++ ys) none ≡ filter_entries maps prefix ys none
  unfolding filter_entries filter_entry
  filter_entries-skip [] ys h = refl
  filter_entries-skip (x ∷ xs) ys h = rw (h.0) (filter_entries-skip xs ys h.1)

-- A property of the result of what succeeds.
abbrev pub WhenOk : {E A : Type 0} → (A → Type 0) → Result E A → Type 0
WhenOk P (ok a) = P a
WhenOk P (err e) = Unit

add_entry-all :
    (P : Entry → Type 0) (e : Entry) (r : Result Text (List Entry))
    → P e
    → WhenOk (All P) r
    → WhenOk (All P) (add_entry e r)
add_entry-all P e (ok es) h hs = (h, hs)
add_entry-all P e (err x) h hs = tt

-- A collected volume has names below its prefix.
pub collect_volume-other :
    (p q : Text) (files : List (Result Text File))
    → NoSlash p
    → NoSlash q
    → q ≢ p
    → WhenOk
        (All (λ e. has_prefix e.name (p ++ slash ∷ []) ≡ false))
        (collect_volume (q ++ slash ∷ []) files)
unfolding collect_volume
collect_volume-other p q [] hp hq n = tt
collect_volume-other p q (err e ∷ files) hp hq n = tt
collect_volume-other p q (ok f ∷ files) hp hq n = elim (Bool-cases (eq_text f.path dot)) [
  | inl root ↦ rw root (collect_volume-other p q files hp hq n)
  | inr below ↦ rw below (
      add_entry-all _ _ (collect_volume (q ++ slash ∷ []) files) (other_prefix p q f.path hp hq n)
        (collect_volume-other p q files hp hq n))
]

file_is_no_dir : (flag : ℕ) → (flag == type_reg) ≡ true → (flag == type_dir) ≡ false
file_is_no_dir flag h = ground arith

copy_entry-Copied :
    (path : Text) (e : Entry) (u g : ℕ)
    → Copied e
    → copy_entry path e u g
      ≡ ok (some (record e { name = path; uid = to_int64 u; gid = to_int64 g }))
copy_entry-Copied path e u g (inl dir) = rw (dir_is_no_file e.flag dir) refl
copy_entry-Copied path e u g (inr (reg, small, (b, eb))) = rw (reg, eb) refl

check_entry-restores :
    (maps : IdMaps) (path : Text) (e : Entry) (u g : ℕ)
    → is_outside_mount path ≡ false
    → Copied e
    → map_id maps.users (to_uint64 e.uid) ≡ some u
    → map_id maps.groups (to_uint64 e.gid) ≡ some g
    → check_entry maps path e
      ≡ ok (some (record e { name = path; uid = to_int64 u; gid = to_int64 g }))
check_entry-restores maps path e u g inside (inl dir) eu eg =
    rw (inside, dir, dir_is_no_file e.flag dir, eu, eg) (copy_entry-Copied path e u g (inl dir))
check_entry-restores maps path e u g inside (inr (reg, small, (b, eb))) eu eg =
    rw (inside, file_is_no_dir e.flag reg, reg, small, eu, eg)
      (copy_entry-Copied path e u g (inr (reg, small, (b, eb))))

Named-clean : (path : Text) → Named path → clean path ≡ path
Named-clean path (x, xs, name, proper) = rw name (clean-join x xs proper)

Named-inside : (path : Text) → Named path → is_outside_mount path ≡ false
Named-inside path (x, xs, name, proper) = rw name (is_outside_mount-join x xs proper)

in_container-owned :
    (maps : IdMaps) (f : File) (u g : ℕ)
    → map_id maps.users (to_uint64 f.entry.uid) ≡ some u
    → map_id maps.groups (to_uint64 f.entry.gid) ≡ some g
    → record (f.entry) { name = f.path; uid = to_int64 u; gid = to_int64 g } ≡ in_container maps f
in_container-owned maps f u g eu eg = rw (eu, eg) refl

-- An entry of the volume, by the name that the backup gives it.
filter_entry-restores :
    (maps : IdMaps) (prefix : Text) (f : File)
    → Named f.path
    → Copied f.entry
    → ((u : ℕ) × (map_id maps.users (to_uint64 f.entry.uid) ≡ some u))
    → ((g : ℕ) × (map_id maps.groups (to_uint64 f.entry.gid) ≡ some g))
    → filter_entry maps
        (prefix ++ slash ∷ [])
        (record (f.entry) { name = (prefix ++ slash ∷ []) ++ f.path })
      ≡ ok (some (in_container maps f))
unfolding filter_entry
filter_entry-restores maps prefix f named copied (u, eu) (g, eg) =
    rw
      (
        own_prefix prefix f.path,
        trim_prefix-append_left (prefix ++ slash ∷ []) f.path,
        Named-clean f.path named,
      )
      (check_entry-restores maps f.path f.entry u g (Named-inside f.path named) copied eu eg
        ∙ ap (λ e. ok (some e)) (in_container-owned maps f u g eu eg))

-- What a property of the outcome says when there is one.
abbrev pub GivesBack : IdMaps → Text → List Entry → List Entry → Type 0
GivesBack maps prefix expected es = filter_entries maps (prefix ++ slash ∷ []) es none ≡ ok expected

add_entry-restores :
    (maps : IdMaps) (prefix : Text) (f : File) (expected rest : List Entry)
    (r : Result Text (List Entry))
    → filter_entry maps
        (prefix ++ slash ∷ [])
        (record (f.entry) { name = (prefix ++ slash ∷ []) ++ f.path })
      ≡ ok (some (in_container maps f))
    → filter_entries maps (prefix ++ slash ∷ []) rest none ≡ ok []
    → WhenOk (λ es. GivesBack maps prefix expected (es ++ rest)) r
    → WhenOk
        (λ es. GivesBack maps prefix (in_container maps f ∷ expected) (es ++ rest))
        (add_entry (record (f.entry) { name = (prefix ++ slash ∷ []) ++ f.path }) r)
unfolding filter_entries
add_entry-restores maps prefix f expected rest (ok es) e t h = rw (e, h) refl
add_entry-restores maps prefix f expected rest (err x) e t h = tt

Restorable-entry :
    (maps : IdMaps) (prefix : Text) (f : File)
    → Restorable maps (ok f)
    → eq_text f.path dot ≡ false
    → filter_entry maps
        (prefix ++ slash ∷ [])
        (record (f.entry) { name = (prefix ++ slash ∷ []) ++ f.path })
      ≡ ok (some (in_container maps f))
Restorable-entry maps prefix f (inl root) below = absurd (cc (root, below))
Restorable-entry maps prefix f (inr (named, copied, u, g)) below =
    filter_entry-restores maps prefix f named copied u g

-- A volume's own entries come back, whatever entries of other volumes follow.
pub collect_volume-restores :
    (maps : IdMaps) (prefix : Text) (files : List (Result Text File)) (rest : List Entry)
    → All (Restorable maps) files
    → filter_entries maps (prefix ++ slash ∷ []) rest none ≡ ok []
    → WhenOk
        (λ es. GivesBack maps prefix (restored maps files) (es ++ rest))
        (collect_volume (prefix ++ slash ∷ []) files)
unfolding collect_volume restored
collect_volume-restores maps prefix [] rest h t = t
collect_volume-restores maps prefix (err e ∷ files) rest h t = tt
collect_volume-restores maps prefix (ok f ∷ files) rest h t =
    elim (Bool-cases (eq_text f.path dot)) [
      | inl root ↦ rw root (collect_volume-restores maps prefix files rest h.1 t)
      | inr below ↦ rw below (
          add_entry-restores maps prefix f (restored maps files) rest
            (collect_volume (prefix ++ slash ∷ []) files) (Restorable-entry maps prefix f h.0 below)
            t (collect_volume-restores maps prefix files rest h.1 t))
    ]
