-- ===== src/Systemd/Manager.antt =====
-- `Manager` (internal/systemd/manager.go): the commands that it runs and its retries.
pub mod Retries
use admiral_fleet.Prelude.{
  Text, codes, ℕ, zero, suc, Bool, true, false, not, ◌&&◌, ◌||◌, ◌++◌, List, [], ◌∷◌, if◌then◌else◌,
  is_empty, is_blank, contains, to_upper,
}
use admiral_fleet.Fleet.Effects.{Result, ok, err}

-- A process that the runner starts, by its name and arguments, or the pause between two reloads.
pub data Command : Type 0 where
  process : Text → List Text → Command
  pause : Command

pub record Ran : Type 0 where
  pub command : Command
  pub outcome : Result Text Text

-- The runner: what a command answers after those before it, the newest first. An error of the pause
-- is that of a cancelled context.
abbrev pub Runner : Type 0
Runner = List Ran → Command → Result Text Text

-- The fields of `Manager`.
pub record Manager : Type 0 where
  pub runner : Runner
  pub run_as_user : Text

-- A method of the manager: its outcome, and the commands that it ran.
abbrev pub Method : Type 0
Method = List Ran → Result Text Text × List Ran

unfoldable pub issue : Manager → Command → Method
issue m c ran = let r = m.runner ran c in (r, record { command = c; outcome = r } ∷ ran)

-- `if err != nil { return err }`
abbrev pub proceed : Result Text Text → Method → Method
proceed (ok out) next ran = next ran
proceed (err e) next ran = (err e, ran)

unfoldable pub and_then : Method → Method → Method
and_then first next ran = let (r, ran') = first ran in proceed r next ran'

-- The command of `runAsUserCommand`
unfoldable pub user_command : Text → List Text → Command
user_command user args = process (codes "systemd-run") (
    codes "--wait"
    ∷ codes "--collect"
    ∷ codes "--working-directory=/tmp"
    ∷ codes "systemctl"
    ∷ (codes "--machine=" ++ (user ++ codes "@"))
    ∷ codes "--user"
    ∷ args)

unfoldable pub run_as_user_command : Manager → List Text → Method
unfolding issue user_command
run_as_user_command m args = issue m (user_command m.run_as_user args)

unfoldable pub linger_command : Text → Command
linger_command user = process (codes "loginctl") (codes "enable-linger" ∷ user ∷ [])

-- `ensureLingerEnabled`
unfoldable pub ensure_linger_enabled : Manager → Method
unfolding issue linger_command
ensure_linger_enabled m ran =
    if is_blank m.run_as_user then (ok [], ran) else issue m (linger_command m.run_as_user) ran

-- `runAsUser`
unfoldable pub run_as_user : Manager → List Text → Method
unfolding and_then ensure_linger_enabled run_as_user_command
run_as_user m args = and_then (ensure_linger_enabled m) (run_as_user_command m args)

-- `run`: without a user the systemd of the system is meant.
unfoldable pub run : Manager → List Text → Method
unfolding run_as_user issue
run m args =
    if is_empty m.run_as_user
    then issue m (process (codes "systemctl") args)
    else run_as_user m args

-- `isTransientRootlessReloadError`
unfoldable pub is_transient_reload_error : Text → Bool
is_transient_reload_error e =
    contains e (codes "Connection reset by peer")
    || contains e (codes "Transport endpoint is not connected")

-- `isMissingRootlessUnitError`
unfoldable pub is_missing_unit_error : Text → Bool
is_missing_unit_error e =
    let m = to_upper e in
    contains m (codes "NOTINSTALLED")
    || contains m (codes "NOT FOUND")
    || (contains m (codes "UNIT ") && contains m (codes " NOT FOUND"))
    || (contains m (codes "UNIT ") && contains m (codes " NOT AVAILABLE"))

-- What follows a reload: `again` is the rest of the loop, `none` of it after the last attempt.
abbrev pub after_reload : Manager → Result Text Text → Method → Method
after_reload m (ok out) again ran = (ok out, ran)
after_reload m (err e) again ran =
    if is_transient_reload_error e then and_then (issue m pause) again ran else (err e, ran)

-- The loop of `rootlessDaemonReload`, with the attempts that are left after this one.
unfoldable pub reload_attempts : Manager → ℕ → Method
unfolding run_as_user_command is_transient_reload_error and_then issue
reload_attempts m zero ran = run_as_user_command m (codes "daemon-reload" ∷ []) ran
reload_attempts m (suc n) ran =
    let (r, ran') = run_as_user_command m (codes "daemon-reload" ∷ []) ran in
    after_reload m r (reload_attempts m n) ran'

-- `rootlessDaemonReload`
unfoldable pub rootless_daemon_reload : Manager → Method
unfolding and_then ensure_linger_enabled reload_attempts
rootless_daemon_reload m = and_then (ensure_linger_enabled m) (reload_attempts m 1)

-- `DaemonReload`
unfoldable pub daemon_reload : Manager → Method
unfolding rootless_daemon_reload run
daemon_reload m =
    if is_empty m.run_as_user then run m (codes "daemon-reload" ∷ []) else rootless_daemon_reload m

abbrev pub start_args : Text → List Text
start_args unit = codes "start" ∷ unit ∷ []

abbrev pub after_start : Manager → Text → Result Text Text → Method
after_start m unit (ok out) ran = (ok out, ran)
after_start m unit (err e) ran =
    if is_missing_unit_error e
    then and_then (daemon_reload m) (run m (start_args unit)) ran
    else (err e, ran)

-- `startRootless`: a missing unit is started once more after a reload.
unfoldable pub start_rootless : Manager → Text → Method
unfolding run daemon_reload and_then is_missing_unit_error
start_rootless m unit ran = let (r, ran') = run m (start_args unit) ran in after_start m unit r ran'

-- `Start`
unfoldable pub start : Manager → Text → Method
unfolding start_rootless run
start m unit = if is_empty m.run_as_user then run m (start_args unit) else start_rootless m unit

-- `Stop`, `Restart`, `Enable` and `Disable`, which differ in the verb
unfoldable pub unit_verb : Manager → Text → Text → Method
unfolding run
unit_verb m verb unit = run m (verb ∷ unit ∷ [])

-- `ResetFailed`
unfoldable pub reset_failed : Manager → Method
unfolding run
reset_failed m = run m (codes "reset-failed" ∷ [])
