-- ===== src/Executor/DataPlane/Location.antt =====
-- Where a local backup lies: `resolveLocalBackupPath` (executor_restore.go).
pub mod Below
use admiral_fleet.Prelude.{
  Text, codes, Bool, true, false, Option, none, some, if◌then◌else◌, ◌||◌, eq_text, has_prefix,
  is_blank, is_empty, trim_space, ◌++◌, [], ◌∷◌,
}
use admiral_fleet.Fleet.Effects.{
  Result, ok, err, Act, Call, validate_dir, pure, fail, ◌>>=◌, ◌>>◌, or_fail, command,
}
use admiral_fleet.Fleet.Paths.{slash, dotdot, is_abs, clean, join_path, rel}

pub data LocationError : Type 0 where
  key_required : LocationError
  no_relative_path : LocationError
  escapes_root : Text → Text → LocationError
  root_not_managed : Text → LocationError

-- `localBackupRoot`
unfoldable pub local_backup_root : Text → Text
unfolding clean join_path
local_backup_root data_dir =
    clean (
      join_path (if is_blank data_dir then codes "/var/lib/admiral" else data_dir)
        (codes "backups"))

-- The path that a key names.
unfoldable pub candidate : Text → Text → Text
unfolding clean join_path
candidate root key = if is_abs key then clean key else clean (join_path root key)

-- `rel == ".." || strings.HasPrefix(rel, "../")`
abbrev pub leaves_root : Text → Bool
leaves_root r = eq_text r dotdot || has_prefix r (dotdot ++ slash ∷ [])

abbrev pub check_relative : Text → Text → Option Text → Result LocationError Text
check_relative root path none = err no_relative_path
check_relative root path (some r) = if leaves_root r then err (escapes_root path root) else ok path

-- The path of a key below a cleaned root, before the directory is looked at.
unfoldable pub locate : Text → Text → Result LocationError Text
unfolding candidate rel eq_text has_prefix
locate root key =
    if is_empty key
    then err key_required
    else check_relative root (candidate root key) (rel root (candidate root key))

abbrev pub check_root : Text → Result LocationError Text → Act LocationError Text
check_root root (err e) = fail e
check_root root (ok path) = do or_fail (command (validate_dir root)) root_not_managed; pure path

-- `resolveLocalBackupPath`
unfoldable pub resolve_local_backup_path : Text → Text → Act LocationError Text
unfolding fail pure ◌>>=◌ or_fail command locate local_backup_root trim_space clean
resolve_local_backup_path data_dir key =
    let root = clean (local_backup_root data_dir) in check_root root (locate root (trim_space key))
