-- ===== src/Executor/Archive/RoundTrip.antt =====
-- What a backup of volumes writes, a restore gives back.
use admiral_fleet.Prelude.{
  Text, false, List, [], ◌∷◌, ◌++◌, Option, none, ◌≡◌, ◌≢◌, refl, ◌∙◌, inl, inr, All, Bool-cases,
  has_prefix, is_empty,
}
use admiral_fleet.Fleet.Effects.{Result, ok, err}
use admiral_fleet.Fleet.Paths.{slash}
use admiral_fleet.Fleet.Paths.Clean.{NoSlash}
use admiral_fleet.Executor.Archive.{
  Entry, File, Target, Volumes, CollectError, IdMaps, RestoreError, filter_entries, collect_volume,
  collect_volume_tar, extract_mount_point, and_then, collect_inspected, archived,
}
use admiral_fleet.Executor.Archive.Volume.{
  Restorable, restored, WhenOk, GivesBack, collect_volume-other, collect_volume-restores,
  filter_entries-skip,
}

-- What a walk of the target's mount point visits.
abbrev walked :
    Volumes → Target → Result Text (Option (List (Option Text))) → List (Result Text File)
walked v t (ok answer) = v.walk (extract_mount_point answer)
walked v t (err e) = []

abbrev pub files_of : Volumes → Target → List (Result Text File)
files_of v t = walked v t (v.inspect t.volume)

archived-all :
    (P : List Entry → Type 0) (volume : Text) (r : Result Text (List Entry))
    → WhenOk P r
    → WhenOk P (archived volume r)
archived-all P volume (ok es) h = h
archived-all P volume (err e) h = tt

-- A property of what a target gives follows from that of what its files give.
collect_inspected-all :
    (P : List Entry → Type 0) (v : Volumes) (t : Target)
    (r : Result Text (Option (List (Option Text))))
    → WhenOk P (collect_volume (t.archive_prefix ++ slash ∷ []) (walked v t r))
    → WhenOk P (collect_inspected v t r)
collect_inspected-all P v t (err e) h = tt
collect_inspected-all P v t (ok answer) h =
    elim (Bool-cases (is_empty (extract_mount_point answer))) [
      | inl empty ↦ rw empty tt
      | inr full ↦ rw full (archived-all P t.volume _ h)
    ]

-- A target with another prefix than `p`.
abbrev pub Other : Text → Target → Type 0
Other p t = NoSlash t.archive_prefix × (t.archive_prefix ≢ p)

and_then-skips :
    (maps : IdMaps) (prefix : Text) (expected : Result RestoreError (List Entry))
    (r s : Result CollectError (List Entry))
    → WhenOk (All (λ e. has_prefix e.name prefix ≡ false)) r
    → WhenOk (λ es. filter_entries maps prefix es none ≡ expected) s
    → WhenOk (λ es. filter_entries maps prefix es none ≡ expected) (and_then r s)
and_then-skips maps prefix expected (ok xs) (ok ys) h t =
    filter_entries-skip maps prefix xs ys h ∙ t
and_then-skips maps prefix expected (ok xs) (err e) h t = tt
and_then-skips maps prefix expected (err e) s h t = tt

foreign_volume :
    (v : Volumes) (p : Text) (t : Target)
    → NoSlash p
    → Other p t
    → WhenOk
        (All (λ e. has_prefix e.name (p ++ slash ∷ []) ≡ false))
        (collect_inspected v t (v.inspect t.volume))
foreign_volume v p t hp (ht, n) =
    collect_inspected-all (All (λ e. has_prefix e.name (p ++ slash ∷ []) ≡ false)) v t
      (v.inspect t.volume) (collect_volume-other p t.archive_prefix (files_of v t) hp ht n)

foreign_volumes :
    (v : Volumes) (maps : IdMaps) (p : Text) (ts : List Target)
    → NoSlash p
    → All (Other p) ts
    → WhenOk (GivesBack maps p []) (collect_volume_tar v ts)
unfolding collect_volume_tar filter_entries
foreign_volumes v maps p [] hp h = refl
foreign_volumes v maps p (t ∷ ts) hp h =
    and_then-skips maps (p ++ slash ∷ []) (ok []) (collect_inspected v t (v.inspect t.volume))
      (collect_volume_tar v ts) (foreign_volume v p t hp h.0) (foreign_volumes v maps p ts hp h.1)

and_then-restores :
    (maps : IdMaps) (p : Text) (expected : List Entry) (r s : Result CollectError (List Entry))
    → ((rest : List Entry)
        → GivesBack maps p [] rest
        → WhenOk (λ es. GivesBack maps p expected (es ++ rest)) r)
    → WhenOk (GivesBack maps p []) s
    → WhenOk (GivesBack maps p expected) (and_then r s)
and_then-restores maps p expected (ok xs) (ok ys) h t = h ys t
and_then-restores maps p expected (ok xs) (err e) h t = tt
and_then-restores maps p expected (err e) s h t = tt

given_back :
    (v : Volumes) (maps : IdMaps) (before after : List Target) (t : Target)
    → NoSlash t.archive_prefix
    → All (Other t.archive_prefix) before
    → All (Other t.archive_prefix) after
    → All (Restorable maps) (files_of v t)
    → WhenOk
        (GivesBack maps t.archive_prefix (restored maps (files_of v t)))
        (collect_volume_tar v (before ++ t ∷ after))
unfolding collect_volume_tar
given_back v maps [] after t hp hb ha hf =
    and_then-restores maps t.archive_prefix (restored maps (files_of v t))
      (collect_inspected v t (v.inspect t.volume)) (collect_volume_tar v after)
      (λ rest hrest.
        collect_inspected-all _ v t (v.inspect t.volume)
          (collect_volume-restores maps t.archive_prefix (files_of v t) rest hf hrest))
      (foreign_volumes v maps t.archive_prefix after hp ha)
given_back v maps (b ∷ bs) after t hp hb ha hf =
    and_then-skips maps (t.archive_prefix ++ slash ∷ []) _
      (collect_inspected v b (v.inspect b.volume)) (collect_volume_tar v (bs ++ t ∷ after))
      (foreign_volume v t.archive_prefix b hp hb.0) (given_back v maps bs after t hp hb.1 ha hf)

when_ok : {E A : Type 0} (P : A → Type 0) (r : Result E A) (a : A) → r ≡ ok a → WhenOk P r → P a
when_ok P r a e h = rw e at h

-- Of the archive that a backup of several volumes writes, a restore extracts for each of them
-- exactly the files of that volume, in the order in which the backup visited them, with their
-- paths, types, sizes and data, and with the owners that the id maps give: if the archive prefixes
-- have no slash, no other volume has this one's prefix, and the volume can be restored: its files
-- are directories and files of at most 256 MiB with their data, on paths of proper components, of
-- owners that the maps know.
pub restore_gives_back :
    (v : Volumes) (maps : IdMaps) (before after : List Target) (t : Target) (es : List Entry)
    → NoSlash t.archive_prefix
    → All (Other t.archive_prefix) before
    → All (Other t.archive_prefix) after
    → All (Restorable maps) (files_of v t)
    → collect_volume_tar v (before ++ t ∷ after) ≡ ok es
    → filter_entries maps (t.archive_prefix ++ slash ∷ []) es none
      ≡ ok (restored maps (files_of v t))
restore_gives_back v maps before after t es hp hb ha hf e =
    when_ok (GivesBack maps t.archive_prefix (restored maps (files_of v t)))
      (collect_volume_tar v (before ++ t ∷ after)) es e
      (given_back v maps before after t hp hb ha hf)
