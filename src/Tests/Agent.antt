-- ===== src/Tests/Agent.antt =====
-- Claims and the outbox at concrete inputs.
use admiral_fleet.Prelude.{
  Option, none, arith, Text, ℕ, ◌+◌, ◌*◌, codes, true, false, ◌≡◌, ◌≢◌, refl, List, [], ◌∷◌, some,
  All, eq_text, has_suffix, has_prefix, decimal,
}
use admiral_fleet.Fleet.Effects.{ok}
use admiral_fleet.Fleet.Task
use admiral_fleet.Fleet.Paths.{clean}
use admiral_fleet.Executor.Report.{TaskResult}
use admiral_fleet.Agent.Replay.{
  Crypto, second, window, verify_task_signature, is_outside, remember_task, purge, has_seen,
}
use admiral_fleet.Agent.Claim.{Clock, Answer, answer, claim_task}
use admiral_fleet.Agent.Claim.Safety.{Signed, claim_all, claim_task-Signed, no_replay}
use admiral_fleet.Agent.Outbox.{
  Outbox, Server, Disk, listed, item_name, item_of, is_item, flush, enqueue, handle_result,
}
use admiral_fleet.Agent.Outbox.Delivery.{IsKept, IsStuck, flush_loses_nothing}
use admiral_fleet.Agent.Outbox.Limits.{handle_result-IsKept}
use admiral_fleet.Agent.Outbox.Liveness.{emptied, flush-emptied}
use admiral_fleet.Agent.Replay.History.{judge, verdicts, verdicts-remember_task}
use admiral_fleet.Agent.Health.{Watch, ManagerStatus, observe_manager}
use admiral_fleet.Agent.Health.Settling.{is_same_manager, is_up, observations_settle}
use admiral_fleet.Tests.Data.{task_of, blank}

-- A cryptography that accepts every signature.
abbrev lenient : Crypto
lenient = record { decode_hex = λ t. some t; payload = λ t. some []; verify = λ k m s. true }

abbrev task : Task.FleetTask
task = task_of Task.stop_app

abbrev reply : Answer
reply = answer 200 (some (record { command_id = codes "c1"; task = some task }))

-- The agent was started at the beginning of the wall clock's count.
abbrev at : ℕ → Clock
at t = record { wall = t; steady = t }

-- One second after the task was signed.
abbrev now : ℕ
now = 1001 * second

claim_task-Signed_example :
    (k : Text) × (some (codes "key") ≡ some k) × Signed lenient k (at now).wall task
unfolding claim_task verify_task_signature is_outside remember_task purge has_seen
claim_task-Signed_example =
    claim_task-Signed lenient (some (codes "key")) (at now) reply [] task (codes "c1") refl

no_replay_example :
    (claim_task lenient (some (codes "key")) (at (now + 5)) reply (
      claim_all lenient
        (some (codes "key"))
        ((at (now + 2), reply) ∷ [])
        (claim_task lenient (some (codes "key")) (at now) reply []).1)).0
    ≢ ok (task, codes "c1")
unfolding claim_task verify_task_signature is_outside remember_task purge has_seen
no_replay_example =
    no_replay lenient (some (codes "key")) (at now) (at (now + 5)) 1000 reply reply
      ((at (now + 2), reply) ∷ []) [] task (codes "c1") (codes "c1") refl refl (omega arith)
      (omega arith) (omega arith, tt)

-- A task that is signed 15 minutes ahead of the clock is accepted a second time when it has been
-- forgotten, while its signature is still in its window.
early_task_replayed :
    let first = 100 * second in
    let again = first + window + 1 in
    let once = claim_task lenient (some (codes "key")) (at first) reply [] in
    (once.0 ≡ ok (task, codes "c1"))
    × ((claim_task lenient (some (codes "key")) (at again) reply once.1).0 ≡ ok (task, codes "c1"))
unfolding claim_task verify_task_signature is_outside remember_task purge has_seen eq_text
early_task_replayed = (refl, refl)

-- The wall clock is set back by a second within the window, while the other one goes on: the task is
-- accepted a second time.
replayed_after_setback :
    let once = claim_task lenient (some (codes "key")) (at now) reply [] in
    let setback : Clock = record { wall = 1000 * second + window; steady = now + window + 1 } in
    (once.0 ≡ ok (task, codes "c1"))
    × ((claim_task lenient (some (codes "key")) setback reply once.1).0 ≡ ok (task, codes "c1"))
unfolding claim_task verify_task_signature is_outside remember_task purge has_seen eq_text
replayed_after_setback = (refl, refl)

abbrev done : TaskResult
done = blank task

abbrev box : Outbox
box = record { entries = item_of (codes "1.json") 10 done ∷ []; sent = [] }

-- A file system on which every call succeeds.
abbrev sound : Disk
sound = record {
  is_directory = true;
  listing = listed;
  reads = λ name. true;
  removes = λ name. true;
  writes = true;
}

-- One on which no file can be removed.
abbrev stubborn : Disk
stubborn = record sound { removes = λ name. false }

-- A server that answers no delivery.
abbrev down : Server
down sent r = false

-- A server that answers every delivery.
abbrev up : Server
up sent r = true

flush_loses_nothing_example :
    ((r : TaskResult) → IsKept r box → IsKept r (flush stubborn up box).1)
    × (stubborn.listing ≡ listed
        → (flush stubborn up box).0 ≡ true
        → All (IsStuck stubborn) (flush stubborn up box).1.entries)
flush_loses_nothing_example = flush_loses_nothing stubborn up box

-- A result whose file cannot be removed is delivered and still there.
delivered_and_kept : flush stubborn up box ≡ (true, record box { sent = done ∷ [] })
unfolding flush is_item has_suffix has_prefix
delivered_and_kept = refl

-- A task id that ends in a dot costs the file its extension, and no flush looks at it.
extension_lost :
    let result : TaskResult = record done { operation_id = codes "o"; task_id = codes "t." } in
    (item_name 5 result ≡ codes "5-o-tjson")
    × ((enqueue sound 5 10 result (record { entries = []; sent = [] })).0 ≡ none)
    × (flush sound up (enqueue sound 5 10 result (record { entries = []; sent = [] })).1
        ≡ (true, record { entries = item_of (codes "5-o-tjson") 10 result ∷ []; sent = [] }))
unfolding item_name enqueue flush is_item has_suffix has_prefix clean decimal
extension_lost = (refl, refl, refl)

handle_result-IsKept_example : IsKept done (handle_result sound sound down 2 20 done box).1
unfolding item_name enqueue flush has_suffix has_prefix clean decimal
handle_result-IsKept_example = handle_result-IsKept sound sound down 2 20 done box refl refl

-- The watch over a manager that is active, and a reading of its successor.
abbrev known_manager : Watch
known_manager = record {
  status = record { pid = codes "100"; active_state = codes "active" };
  available = true;
}

abbrev successor : Option ManagerStatus
successor = some (record { pid = codes "200"; active_state = codes "active" })

observations_settle_example :
    ((observe_manager known_manager successor).0 ≡ is_same_manager known_manager successor)
    × ((observe_manager known_manager successor).0 ≡ true
        → (observe_manager known_manager successor).1 ≡ none)
    × (observe_manager (observe_manager known_manager successor).2 successor
        ≡ (is_up successor, none, (observe_manager known_manager successor).2))
observations_settle_example = observations_settle known_manager successor

-- The same task now, a second later, and again after more than the window.
abbrev arrivals : List (ℕ × Task.FleetTask)
arrivals = (now, task) ∷ (now + second, task) ∷ (now + 2 * window, task) ∷ []

verdicts-remember_task_example : verdicts remember_task arrivals [] ≡ verdicts judge arrivals []
verdicts-remember_task_example =
    verdicts-remember_task now arrivals (omega arith, (omega arith, (omega arith, tt)))

flush-emptied_example : flush sound up box ≡ (true, emptied sound box.sent box.entries)
flush-emptied_example = flush-emptied sound up box refl (λ sent r. refl)
