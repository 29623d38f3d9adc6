-- ===== src/Agent/Replay.antt =====
-- `verifyTaskSignature` and `rememberTask` (internal/agent/agent.go). The time is in nanoseconds
-- since 1970, and the cryptography is a parameter.
pub mod Safety
pub mod History
use admiral_fleet.Prelude.{
  Text, ℕ, ◌+◌, ◌*◌, ltb, suc, ℤ, pos, negsuc, is_zero, decimal, codes, Bool, true, false, ◌||◌,
  List, [], ◌∷◌, ◌++◌, any_of, eq_text, if◌then◌else◌, Option, none, some,
}
use admiral_fleet.Fleet.Task.{FleetTask}

-- `hex.DecodeString`, `json.Marshal` of a task, and `ed25519.Verify`.
pub record Crypto : Type 0 where
  pub decode_hex : Text → Option Text
  pub payload : FleetTask → Option Text
  -- public key, message, signature
  pub verify : Text → Text → Text → Bool

pub data VerifyError : Type 0 where
  timestamp_missing outside_window bad_hex not_marshalled bad_signature : VerifyError

-- `time.Second` and `signatureWindow`, which is also how long an accepted task is remembered
abbrev pub second : ℕ
second = 1000000000

abbrev pub window : ℕ
window = 15 * 60 * second

-- `delta > signatureWindow || delta < -signatureWindow`
unfoldable pub is_outside : ℕ → ℤ → Bool
is_outside now (pos s) = ltb (s * second + window) now || ltb (now + window) (s * second)
is_outside now (negsuc n) = ltb window (now + suc n * second)

-- `fmt.Sprintf("%d", signedAt)`
unfoldable pub show_int : ℤ → Text
show_int (pos n) = decimal n
show_int (negsuc n) = b'-' ∷ decimal (suc n)

-- The task without its signature, which is what was signed.
unfoldable pub unsigned_task : FleetTask → FleetTask
unsigned_task task = record task { task_signature = []; signed_at = pos 0 }

abbrev pub check_message :
    Crypto → Text → FleetTask → Option Text → Option Text → Option VerifyError
check_message c key task none m = some bad_hex
check_message c key task (some sig) none = some not_marshalled
check_message c key task (some sig) (some payload) =
    if c.verify key (payload ++ show_int task.signed_at) sig then none else some bad_signature

-- `verifyTaskSignature`; `none` means that the signature holds.
unfoldable pub verify_task_signature : Crypto → Text → ℕ → FleetTask → Option VerifyError
unfolding is_outside show_int unsigned_task
verify_task_signature c key now task =
    if is_zero task.signed_at
    then some timestamp_missing
    else if is_outside now task.signed_at
    then some outside_window
    else check_message c key task (c.decode_hex task.task_signature)
        (c.payload (unsigned_task task))

-- `seenTasks`: task ids, with the time of their acceptance.
abbrev pub Seen : Type 0
Seen = List (Text × ℕ)

-- The loop that forgets.
unfoldable pub purge : ℕ → Seen → Seen
purge now [] = []
purge now ((id, seen_at) ∷ seen) =
    let rest = purge now seen in if ltb (seen_at + window) now then rest else (id, seen_at) ∷ rest

unfoldable pub has_seen : Text → Seen → Bool
has_seen id seen = any_of (λ e. eq_text e.0 id) seen

-- `rememberTask`: false means that the task was accepted before.
unfoldable pub remember_task : ℕ → FleetTask → Seen → Bool × Seen
unfolding purge has_seen
remember_task now task seen =
    let kept = purge now seen in
    if has_seen task.task_id kept then (false, kept) else (true, (task.task_id, now) ∷ kept)
