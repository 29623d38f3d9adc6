-- ===== src/Agent/Health.antt =====
-- The watch over the rootless systemd manager in `StartHealthChecker` (internal/agent/health.go).
pub mod Settling
use admiral_fleet.Prelude.{
  Text, codes, Bool, true, false, not, ◌&&◌, ◌||◌, List, [], ◌∷◌, ◌++◌, eq_text, if◌then◌else◌,
  Option, none, some,
}

-- `rootlessManagerStatus`
pub record ManagerStatus : Type 0 where
  pub pid : Text
  pub active_state : Text

-- `managerStatus` and `managerAvailable`
pub record Watch : Type 0 where
  pub status : ManagerStatus
  pub available : Bool

-- What the checker sends: the health of all pods, or an invalidation with one of its messages.
pub data Notice : Type 0 where
  check_pods : Notice
  state_unreadable manager_unavailable manager_changed : Notice

abbrev pub no_status : ManagerStatus
no_status = record { pid = []; active_state = [] }

-- `status.ActiveState == "active" && status.PID != "0"`
unfoldable pub is_running : ManagerStatus → Bool
is_running s = eq_text s.active_state (codes "active") && not (eq_text s.pid (codes "0"))

-- The first reading; `none` is an error. It ends in a check or in an invalidation.
unfoldable pub first_watch : Option ManagerStatus → Watch × Notice
unfolding is_running
first_watch none = (record { status = no_status; available = false }, manager_unavailable)
first_watch (some s) = (
  record { status = s; available = is_running s },
  if is_running s then check_pods else manager_unavailable,
)

-- `observeManager`: whether pods may be checked, the invalidation that it sends, and the watch after.
unfoldable pub observe_manager : Watch → Option ManagerStatus → Bool × Option Notice × Watch
unfolding is_running
observe_manager w none =
    (false, (if w.available then some state_unreadable else none), record w { available = false })
observe_manager w (some s) =
    if not (is_running s)
    then (if w.available
        then (false, some manager_unavailable, record { status = s; available = false })
        else (false, none, w))
    else if not w.available || not (eq_text s.pid w.status.pid)
    then (false, some manager_changed, record { status = s; available = true })
    else (true, none, record { status = s; available = true })

abbrev notices_of : Bool → Bool → Option Notice → List Notice
notices_of health_tick checks (some n) = n ∷ []
notices_of health_tick checks none = if health_tick && checks then check_pods ∷ [] else []

-- The loop over the ticks of the two tickers: each is a health tick or not, with a reading.
unfoldable pub watch_loop : Watch → List (Bool × Option ManagerStatus) → List Notice
unfolding observe_manager
watch_loop w [] = []
watch_loop w ((health_tick, reading) ∷ ticks) =
    let (checks, notice, w') = observe_manager w reading in
    notices_of health_tick checks notice ++ watch_loop w' ticks
