-- ===== src/Agent/Claim.antt =====
-- `ClaimTaskContext` (internal/agent/agent.go): what the agent accepts of an answer to its claim.
pub mod Safety
use admiral_fleet.Prelude.{
  Text, ℕ, ◌==◌, leb, ltb, is_empty, Bool, true, false, ◌||◌, List, [], ◌∷◌, Option, none, some,
  if◌then◌else◌,
}
use admiral_fleet.Fleet.Effects.{Result, ok, err}
use admiral_fleet.Fleet.Task.{FleetTask}
use admiral_fleet.Agent.Replay.{Crypto, VerifyError, Seen, verify_task_signature, remember_task}

-- The decoded body of an answer.
pub record ClaimBody : Type 0 where
  pub command_id : Text
  pub task : Option FleetTask

-- What `a.http.Do` and the decoder give: no answer, or a status and a body that may not decode.
pub data Answer : Type 0 where
  no_answer : Answer
  answer : ℕ → Option ClaimBody → Answer

pub data ClaimError : Type 0 where
  request_failed no_task_available undecodable incomplete : ClaimError
  http_status : ℕ → ClaimError
  unsigned no_public_key : ClaimError
  not_verified : VerifyError → ClaimError
  already_accepted : ClaimError

-- The two clocks of a claim: the age of a signature is read from the wall clock, which may be set
-- back, and the age of an acceptance from the monotonic clock. Both are in nanoseconds.
pub record Clock : Type 0 where
  pub wall : ℕ
  pub steady : ℕ

-- The end of the claim: the task is remembered.
abbrev pub remember : FleetTask → Text → Bool × Seen → Result ClaimError (FleetTask × Text) × Seen
remember task command_id (true, seen) = (ok (task, command_id), seen)
remember task command_id (false, seen) = (err already_accepted, seen)

-- The signature, under the configured key.
abbrev pub check_signed :
    Crypto
    → Option Text
    → Clock
    → FleetTask
    → Text
    → Seen
    → Result ClaimError (FleetTask × Text) × Seen
check_signed c none now task command_id seen = (err no_public_key, seen)
check_signed c (some key) now task command_id seen =
    elim (verify_task_signature c key now.wall task) [
      | some e ↦ (err (not_verified e), seen)
      | none ↦ remember task command_id (remember_task now.steady task seen)
    ]

abbrev pub check_task :
    Crypto
    → Option Text
    → Clock
    → FleetTask
    → Text
    → Seen
    → Result ClaimError (FleetTask × Text) × Seen
check_task c key now task command_id seen =
    if is_empty task.task_signature
    then (err unsigned, seen)
    else check_signed c key now task command_id seen

abbrev pub check_body :
    Crypto
    → Option Text
    → Clock
    → Text
    → Option FleetTask
    → Seen
    → Result ClaimError (FleetTask × Text) × Seen
check_body c key now command_id none seen = (err incomplete, seen)
check_body c key now command_id (some task) seen =
    if is_empty command_id
    then (err incomplete, seen)
    else check_task c key now task command_id seen

abbrev pub check_decoded :
    Crypto
    → Option Text
    → Clock
    → Option ClaimBody
    → Seen
    → Result ClaimError (FleetTask × Text) × Seen
check_decoded c key now none seen = (err undecodable, seen)
check_decoded c key now (some body) seen = check_body c key now body.command_id body.task seen

abbrev pub check_status :
    Crypto
    → Option Text
    → Clock
    → ℕ
    → Option ClaimBody
    → Seen
    → Result ClaimError (FleetTask × Text) × Seen
check_status c key now status body seen =
    if status == 204
    then (err no_task_available, seen)
    else if ltb status 200 || leb 300 status
    then (err (http_status status), seen)
    else check_decoded c key now body seen

-- `ClaimTaskContext`, by the configured key, the clocks, and the answer to the request.
unfoldable pub claim_task :
    Crypto → Option Text → Clock → Answer → Seen → Result ClaimError (FleetTask × Text) × Seen
unfolding verify_task_signature remember_task
claim_task c key now no_answer seen = (err request_failed, seen)
claim_task c key now (answer status body) seen = check_status c key now status body seen
