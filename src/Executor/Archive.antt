-- ===== src/Executor/Archive.antt =====
-- The archives of volumes: what a backup writes (executor_backup.go, `collectVolumeTar`) and what a
-- restore lets through (executor_restore.go, `extractGzipTarToDirFiltered`). An archive is the list
-- of its entries; compression and the byte layout of tar are not looked at.
pub mod Inside
pub mod Volume
pub mod RoundTrip
use admiral_fleet.Prelude.{
  Text, codes, ℕ, Bool, true, false, List, [], ◌∷◌, ◌++◌, Option, none, some, ℤ, pos, negsuc, ◌==◌,
  ◌&&◌, ◌||◌, not, ltb, if◌then◌else◌, eq_text, is_empty, has_prefix, trim_prefix, map,
}
use admiral_fleet.Fleet.Task.{FleetTask, ServiceInfo, SharedMount, BackupInfo}
use admiral_fleet.Fleet.Effects.{Result, ok, err}
use admiral_fleet.Fleet.Paths.{slash, dot, clean, is_outside_mount}
use admiral_fleet.Podman.IdMap.{IdMapEntry, MapError, map_id, to_uint64, to_int64}
use admiral_fleet.Quadlet.Names.{volume_name, shared_volume_name}

-- `tar.TypeReg` and `tar.TypeDir`
abbrev pub type_reg : ℕ
type_reg = b'0'

abbrev pub type_dir : ℕ
type_dir = b'5'

abbrev pub max_restore_file_bytes : ℕ
max_restore_file_bytes = 268435456

-- A tar header with the data that follows it: `none` if the archive ends before them.
pub record Entry : Type 0 where
  pub name : Text
  pub flag : ℕ
  pub size : ℤ
  pub uid : ℤ
  pub gid : ℤ
  pub content : Option Text

-- What `Walk` visits: the path below the mount point, and the header and data of the file.
pub record File : Type 0 where
  pub path : Text
  pub entry : Entry

abbrev pub add_entry : Entry → Result Text (List Entry) → Result Text (List Entry)
add_entry e (ok es) = ok (e ∷ es)
add_entry e (err x) = err x

-- The part of `collectVolumeTar` for the files of a volume. An error of the walk ends it.
unfoldable pub collect_volume : Text → List (Result Text File) → Result Text (List Entry)
unfolding eq_text
collect_volume prefix [] = ok []
collect_volume prefix (err e ∷ files) = err e
collect_volume prefix (ok f ∷ files) =
    let rest = collect_volume prefix files in
    if eq_text f.path dot
    then rest
    else add_entry (record (f.entry) { name = prefix ++ f.path }) rest

pub record Target : Type 0 where
  pub volume : Text
  pub archive_prefix : Text

-- The services that a backup is about: all of them if it names none.
unfoldable pub is_selected : Option BackupInfo → ServiceInfo → Bool
unfolding eq_text
is_selected none svc = true
is_selected (some b) svc = is_empty b.service || eq_text svc.name b.service

abbrev has_mounts : List SharedMount → Bool
has_mounts [] = false
has_mounts (m ∷ ms) = true

abbrev has_volume : ServiceInfo → Bool
has_volume svc = not (is_empty svc.volume) || has_mounts svc.shared_volumes

-- `servicesWithVolumes`
unfoldable pub services_with_volumes : Option BackupInfo → List ServiceInfo → List ServiceInfo
unfolding is_selected
services_with_volumes backup [] = []
services_with_volumes backup (svc ∷ services) =
    let rest = services_with_volumes backup services in
    if is_selected backup svc && has_volume svc then svc ∷ rest else rest

abbrev shared_targets : Text → Text → List SharedMount → List Target
shared_targets instance_id service mounts =
    map
      (λ m. record {
        volume = shared_volume_name instance_id m.name;
        archive_prefix = service ++ codes "__shared__" ++ m.name;
      })
      mounts

unfoldable pub service_targets : Text → ServiceInfo → List Target
service_targets instance_id svc =
    (if is_empty svc.volume
      then []
      else record { volume = volume_name instance_id svc.name; archive_prefix = svc.name } ∷ [])
    ++ shared_targets instance_id svc.name svc.shared_volumes

unfoldable pub targets_of : Text → List ServiceInfo → List Target
unfolding service_targets
targets_of instance_id [] = []
targets_of instance_id (svc ∷ services) =
    service_targets instance_id svc ++ targets_of instance_id services

-- `volumeTargets`
unfoldable pub volume_targets : FleetTask → List Target
unfolding targets_of services_with_volumes
volume_targets task = targets_of task.instance_id (services_with_volumes task.backup task.services)

-- `extractMountPoint`, of the decoded answer of `podman volume inspect`: the `Mountpoint` of each
-- object, `none` if it is no string, and `none` for an answer that is no list of objects
unfoldable pub extract_mount_point : Option (List (Option Text)) → Text
extract_mount_point (some (some path ∷ objects)) = path
extract_mount_point answer = []

pub data CollectError : Type 0 where
  not_inspected : Text → Text → CollectError
  no_mountpoint : Text → CollectError
  not_archived : Text → Text → CollectError

-- A volume as Podman and the file system show it: the answer of `volume inspect`, and what the walk
-- of a directory visits.
pub record Volumes : Type 0 where
  pub inspect : Text → Result Text (Option (List (Option Text)))
  pub walk : Text → List (Result Text File)

abbrev pub archived : Text → Result Text (List Entry) → Result CollectError (List Entry)
archived volume (ok entries) = ok entries
archived volume (err e) = err (not_archived volume e)

abbrev pub collect_at : Volumes → Target → Text → Result CollectError (List Entry)
collect_at v target mountpoint =
    if is_empty mountpoint
    then err (no_mountpoint target.volume)
    else archived target.volume
        (collect_volume (target.archive_prefix ++ slash ∷ []) (v.walk mountpoint))

abbrev pub collect_inspected :
    Volumes → Target → Result Text (Option (List (Option Text))) → Result CollectError (List Entry)
collect_inspected v target (ok answer) = collect_at v target (extract_mount_point answer)
collect_inspected v target (err e) = err (not_inspected target.volume e)

abbrev pub and_then :
    Result CollectError (List Entry)
    → Result CollectError (List Entry)
    → Result CollectError (List Entry)
and_then (ok xs) (ok ys) = ok (xs ++ ys)
and_then (ok xs) (err e) = err e
and_then (err e) rest = err e

-- `collectVolumeTar`: the entries of the archive, for `volumeTargets(task)`
unfoldable pub collect_volume_tar : Volumes → List Target → Result CollectError (List Entry)
unfolding collect_volume extract_mount_point
collect_volume_tar v [] = ok []
collect_volume_tar v (target ∷ targets) =
    and_then (collect_inspected v target (v.inspect target.volume)) (collect_volume_tar v targets)

pub data RestoreError : Type 0 where
  outside_mountpoint : Text → RestoreError
  unsupported_type : ℕ → Text → RestoreError
  too_large : Text → RestoreError
  unmapped_uid unmapped_gid : Text → ℤ → RestoreError
  truncated : Text → RestoreError
  unreadable_archive : Text → RestoreError
  no_id_map : MapError → RestoreError

-- `head.Size > maxRestoreFileBytes`
abbrev pub exceeds_limit : ℤ → Bool
exceeds_limit (pos n) = ltb max_restore_file_bytes n
exceeds_limit (negsuc n) = false

-- The id maps of users and groups.
pub record IdMaps : Type 0 where
  pub users : List IdMapEntry
  pub groups : List IdMapEntry

-- A file is copied with its data, which may end too early.
abbrev pub with_data : Text → Entry → Option Text → Result RestoreError (Option Entry)
with_data rel written (some data_bytes) = ok (some written)
with_data rel written none = err (truncated rel)

-- The header and the data that are written, with the name below the mount point.
abbrev pub copy_entry : Text → Entry → ℕ → ℕ → Result RestoreError (Option Entry)
copy_entry rel e uid gid =
    let written = record e { name = rel; uid = to_int64 uid; gid = to_int64 gid } in
    if e.flag == type_reg then with_data rel written e.content else ok (some written)

abbrev pub own_entry : Text → Entry → Option ℕ → Option ℕ → Result RestoreError (Option Entry)
own_entry rel e none gid = err (unmapped_uid rel e.uid)
own_entry rel e (some uid) none = err (unmapped_gid rel e.gid)
own_entry rel e (some uid) (some gid) = copy_entry rel e uid gid

abbrev pub check_entry : IdMaps → Text → Entry → Result RestoreError (Option Entry)
check_entry maps rel e =
    if is_outside_mount rel
    then err (outside_mountpoint rel)
    else if not (e.flag == type_dir) && not (e.flag == type_reg)
    then err (unsupported_type e.flag rel)
    else if (e.flag == type_reg) && exceeds_limit e.size
    then err (too_large rel)
    else own_entry rel e (map_id maps.users (to_uint64 e.uid))
        (map_id maps.groups (to_uint64 e.gid))

-- The loop body: `none` for an entry of another volume, which is skipped.
unfoldable pub filter_entry : IdMaps → Text → Entry → Result RestoreError (Option Entry)
unfolding map_id clean eq_text has_prefix
filter_entry maps prefix e =
    if has_prefix e.name prefix
    then check_entry maps (clean (trim_prefix e.name prefix)) e
    else ok none

abbrev pub keep_entry :
    Result RestoreError (Option Entry)
    → Result RestoreError (List Entry)
    → Result RestoreError (List Entry)
keep_entry (err e) rest = err e
keep_entry (ok none) rest = rest
keep_entry (ok (some e)) (ok es) = ok (e ∷ es)
keep_entry (ok (some e)) (err x) = err x

-- The loop of `extractGzipTarToDirFiltered`, over the entries and the error in which reading ends.
-- What it gives is extracted to the mount point.
unfoldable pub filter_entries :
    IdMaps → Text → List Entry → Option Text → Result RestoreError (List Entry)
unfolding filter_entry
filter_entries maps prefix [] none = ok []
filter_entries maps prefix [] (some e) = err (unreadable_archive e)
filter_entries maps prefix (e ∷ es) ending =
    keep_entry (filter_entry maps prefix e) (filter_entries maps prefix es ending)

-- The same, with the two id maps as they were read. Nothing is extracted on an error.
unfoldable pub filter_archive :
    Result MapError (List IdMapEntry)
    → Result MapError (List IdMapEntry)
    → Text
    → List Entry
    → Option Text
    → Result RestoreError (List Entry)
unfolding filter_entries
filter_archive (err e) groups prefix es ending = err (no_id_map e)
filter_archive (ok users) (err e) prefix es ending = err (no_id_map e)
filter_archive (ok users) (ok groups) prefix es ending =
    filter_entries (record { users = users; groups = groups }) prefix es ending
