-- ===== src/Executor/Archive/Inside.antt =====
-- What a restore lets through stays in the mount point.
use admiral_fleet.Prelude.{
  arith, ◌++◌, ◌≢◌, Text, ℕ, true, false, List, [], ◌∷◌, Option, none, some, ◌≡◌, refl, ◌⊎◌, inl,
  inr, All, Bool-cases, has_prefix, trim_prefix, ◌==◌,
}
use admiral_fleet.Fleet.Effects.{Result, ok, err}
use admiral_fleet.Fleet.Paths.{clean, is_outside_mount}
use admiral_fleet.Fleet.Paths.Clean.{Below, clean-Below}
use admiral_fleet.Podman.IdMap.{IdMapEntry, MapError}
use admiral_fleet.Executor.Archive.{
  Entry, IdMaps, RestoreError, type_reg, type_dir, exceeds_limit, check_entry, own_entry,
  copy_entry, with_data, filter_entry, keep_entry, filter_entries, filter_archive,
  outside_mountpoint, unsupported_type,
}

-- A file or a directory below the mount point, with an owner that the maps know, and a file within
-- the limit and with its data.
abbrev pub Harmless : Entry → Type 0
Harmless e =
    Below e.name
    × (((e.flag == type_dir) ≡ true)
        ⊎ (((e.flag == type_reg) ≡ true) × (exceeds_limit e.size ≡ false)))

-- The same of what a check gives, if it gives an entry.
Passed : Result RestoreError (Option Entry) → Type 0
Passed (ok (some e)) = Harmless e
Passed (ok none) = Unit
Passed (err e) = Unit

with_data-Passed :
    (rel : Text) (e : Entry) (content : Option Text) → Harmless e → Passed (with_data rel e content)
unfolding Passed
with_data-Passed rel e (some b) h = h
with_data-Passed rel e none h = tt

copy_entry-Passed :
    (rel : Text) (e : Entry) (u g : ℕ)
    → Harmless (record e { name = rel })
    → Passed (copy_entry rel e u g)
unfolding Passed
copy_entry-Passed rel e u g h = elim (Bool-cases (e.flag == type_reg)) [
  | inl r ↦ rw r (with_data-Passed rel _ e.content h)
  | inr d ↦ rw d h
]

own_entry-Passed :
    (rel : Text) (e : Entry) (u g : Option ℕ)
    → Harmless (record e { name = rel })
    → Passed (own_entry rel e u g)
unfolding Passed
own_entry-Passed rel e none g h = tt
own_entry-Passed rel e (some u) none h = tt
own_entry-Passed rel e (some u) (some g) h = copy_entry-Passed rel e u g h

pub dir_is_no_file : (flag : ℕ) → (flag == type_dir) ≡ true → (flag == type_reg) ≡ false
dir_is_no_file flag h = ground arith

check_entry-Passed :
    (maps : IdMaps) (path : Text) (e : Entry) → Passed (check_entry maps (clean path) e)
unfolding Passed
check_entry-Passed maps path e = elim (Bool-cases (is_outside_mount (clean path))) [
  | inl out ↦ rw out tt
  | inr inside ↦ elim (Bool-cases (e.flag == type_dir)) [
    | inl dir ↦
        rw (inside, dir, dir_is_no_file e.flag dir)
          (own_entry-Passed (clean path) e _ _ (clean-Below path inside, inl dir))
    | inr no_dir ↦ elim (Bool-cases (e.flag == type_reg)) [
      | inr other ↦ rw (inside, no_dir, other) tt
      | inl reg ↦ elim (Bool-cases (exceeds_limit e.size)) [
        | inl big ↦ rw (inside, no_dir, reg, big) tt
        | inr small ↦
            rw (inside, no_dir, reg, small)
              (own_entry-Passed (clean path) e _ _ (clean-Below path inside, inr (reg, small)))
      ]
    ]
  ]
]

filter_entry-Passed :
    (maps : IdMaps) (prefix : Text) (e : Entry) → Passed (filter_entry maps prefix e)
unfolding filter_entry Passed
filter_entry-Passed maps prefix e = elim (Bool-cases (has_prefix e.name prefix)) [
  | inl h ↦ rw h (check_entry-Passed maps (trim_prefix e.name prefix) e)
  | inr h ↦ rw h tt
]

-- What is extracted, if anything is.
abbrev pub Extracted : Result RestoreError (List Entry) → Type 0
Extracted (ok es) = All Harmless es
Extracted (err e) = Unit

keep_entry-Extracted :
    (r : Result RestoreError (Option Entry)) (rest : Result RestoreError (List Entry))
    → Passed r
    → Extracted rest
    → Extracted (keep_entry r rest)
unfolding Passed
keep_entry-Extracted (err e) rest h t = tt
keep_entry-Extracted (ok none) rest h t = t
keep_entry-Extracted (ok (some e)) (ok es) h t = (h, t)
keep_entry-Extracted (ok (some e)) (err x) h t = tt

filter_entries-Extracted :
    (maps : IdMaps) (prefix : Text) (es : List Entry) (ending : Option Text)
    → Extracted (filter_entries maps prefix es ending)
unfolding filter_entries
filter_entries-Extracted maps prefix [] none = tt
filter_entries-Extracted maps prefix [] (some e) = tt
filter_entries-Extracted maps prefix (e ∷ es) ending =
    keep_entry-Extracted (filter_entry maps prefix e) (filter_entries maps prefix es ending)
      (filter_entry-Passed maps prefix e) (filter_entries-Extracted maps prefix es ending)

-- Whatever an archive holds, every entry that a restore extracts has a name of one or more
-- components, none of them empty, `.` or `..`, and is a directory or a file of at most 256 MiB.
pub filter_archive-Extracted :
    (users groups : Result MapError (List IdMapEntry)) (prefix : Text) (es : List Entry)
    (ending : Option Text)
    → Extracted (filter_archive users groups prefix es ending)
unfolding filter_archive
filter_archive-Extracted (err e) groups prefix es ending = tt
filter_archive-Extracted (ok users) (err e) prefix es ending = tt
filter_archive-Extracted (ok users) (ok groups) prefix es ending =
    filter_entries-Extracted (record { users = users; groups = groups }) prefix es ending

-- An entry that is refused.
abbrev Refused : {A : Type 0} → Result RestoreError A → Type 0
Refused r = (x : RestoreError) × (r ≡ err x)

keep_entry-Refused :
    (r : Result RestoreError (Option Entry)) (rest : Result RestoreError (List Entry))
    → Refused rest
    → Refused (keep_entry r rest)
keep_entry-Refused (err e) rest h = (e, refl)
keep_entry-Refused (ok none) rest h = h
keep_entry-Refused (ok (some e)) rest (x, h) = (x, rw h refl)

filter_entries-Refused :
    (maps : IdMaps) (prefix : Text) (before after : List Entry) (e : Entry) (ending : Option Text)
    → Refused (filter_entry maps prefix e)
    → Refused (filter_entries maps prefix (before ++ e ∷ after) ending)
unfolding filter_entries
filter_entries-Refused maps prefix [] after e ending (x, h) = (x, rw h refl)
filter_entries-Refused maps prefix (b ∷ bs) after e ending h =
    keep_entry-Refused (filter_entry maps prefix b)
      (filter_entries maps prefix (bs ++ e ∷ after) ending)
      (filter_entries-Refused maps prefix bs after e ending h)

unsupported_entry :
    (maps : IdMaps) (prefix : Text) (e : Entry)
    → has_prefix e.name prefix ≡ true
    → (e.flag == type_dir) ≡ false
    → (e.flag == type_reg) ≡ false
    → Refused (filter_entry maps prefix e)
unfolding filter_entry
unsupported_entry maps prefix e h no_dir no_file =
    let path = clean (trim_prefix e.name prefix) in
    elim (Bool-cases (is_outside_mount path)) [
      | inl out ↦ (outside_mountpoint path, rw (h, out) refl)
      | inr inside ↦ (unsupported_type e.flag path, rw (h, inside, no_dir, no_file) refl)
    ]

-- An archive in which an entry of the volume is neither a directory nor a regular file, such as a
-- symbolic link, is refused as a whole: nothing of the volume is restored, whatever else it holds.
pub one_link_refuses_all :
    (maps : IdMaps) (prefix : Text) (before after : List Entry) (e : Entry) (ending : Option Text)
    (es : List Entry)
    → has_prefix e.name prefix ≡ true
    → (e.flag == type_dir) ≡ false
    → (e.flag == type_reg) ≡ false
    → filter_entries maps prefix (before ++ e ∷ after) ending ≢ ok es
one_link_refuses_all maps prefix before after e ending es h no_dir no_file given =
    let (x, refused) =
      filter_entries-Refused maps prefix before after e ending
        (unsupported_entry maps prefix e h no_dir no_file) in
    cc (given, refused)
