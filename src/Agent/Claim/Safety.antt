-- ===== src/Agent/Claim/Safety.antt =====
-- What a claim accepts, and when it accepts no task twice.
use admiral_fleet.Prelude.{
  arith, Text, ℕ, ◌+◌, ◌*◌, ◌≤◌, ◌==◌, ltb, leb, pos, Bool, true, false, ◌||◌, ◌≡◌, ◌≢◌, refl, sym,
  ap, subst, is_zero, List, [], ◌∷◌, ◌++◌, is_empty, Option, none, some, All, Bool-cases, inl, inr,
}
use admiral_fleet.Fleet.Effects.{Result, ok, err}
use admiral_fleet.Fleet.Task.{FleetTask}
use admiral_fleet.Agent.Replay.{
  Crypto, VerifyError, Seen, second, window, is_outside, show_int, unsigned_task, check_message,
  verify_task_signature, remember_task,
}
use admiral_fleet.Agent.Replay.Safety.{
  Remembers, remember_task-Remembers, remembered_is_refused, accepted_is_remembered,
  verified_in_window,
}
use admiral_fleet.Agent.Claim.{
  Clock, Answer, ClaimBody, ClaimError, no_answer, answer, remember, check_signed, check_task,
  check_body, check_decoded, check_status, claim_task,
}

-- A claim ends in an error and forgets nothing, or it has a signed task that it remembers.
data Outcome (c : Crypto) (key : Option Text) (now : Clock) (seen : Seen)
    : Result ClaimError (FleetTask × Text) × Seen → Type 0 where
  refused : (e : ClaimError) → Outcome c key now seen (err e, seen)
  checked :
      (k : Text) (task : FleetTask) (command_id : Text)
      → key ≡ some k
      → is_empty task.task_signature ≡ false
      → is_empty command_id ≡ false
      → verify_task_signature c k now.wall task ≡ none
      → Outcome c key now seen (remember task command_id (remember_task now.steady task seen))

module _ (c : Crypto) (now : Clock) (seen : Seen) where
  verified-Outcome :
      (k : Text) (task : FleetTask) (command_id : Text) (o : Option VerifyError)
      → verify_task_signature c k now.wall task ≡ o
      → is_empty task.task_signature ≡ false
      → is_empty command_id ≡ false
      → Outcome c (some k) now seen (check_signed c (some k) now task command_id seen)
  verified-Outcome k task command_id (some e) v s i = rw (check_signed, v) (refused _)
  verified-Outcome k task command_id none v s i =
      rw (check_signed, v) (checked k task command_id refl s i v)

  check_signed-Outcome :
      (key : Option Text) (task : FleetTask) (command_id : Text)
      → is_empty task.task_signature ≡ false
      → is_empty command_id ≡ false
      → Outcome c key now seen (check_signed c key now task command_id seen)
  check_signed-Outcome none task command_id s i = refused _
  check_signed-Outcome (some k) task command_id s i =
      verified-Outcome k task command_id (verify_task_signature c k now.wall task) refl s i

  check_task-Outcome :
      (key : Option Text) (task : FleetTask) (command_id : Text)
      → is_empty command_id ≡ false
      → Outcome c key now seen (check_task c key now task command_id seen)
  check_task-Outcome key task command_id i = elim (Bool-cases (is_empty task.task_signature)) [
    | inl missing ↦ rw missing (refused _)
    | inr there ↦ rw there (check_signed-Outcome key task command_id there i)
  ]

  check_body-Outcome :
      (key : Option Text) (command_id : Text) (o : Option FleetTask)
      → Outcome c key now seen (check_body c key now command_id o seen)
  check_body-Outcome key command_id none = refused _
  check_body-Outcome key command_id (some task) = elim (Bool-cases (is_empty command_id)) [
    | inl missing ↦ rw missing (refused _)
    | inr there ↦ rw there (check_task-Outcome key task command_id there)
  ]

  check_decoded-Outcome :
      (key : Option Text) (o : Option ClaimBody)
      → Outcome c key now seen (check_decoded c key now o seen)
  check_decoded-Outcome key none = refused _
  check_decoded-Outcome key (some body) = check_body-Outcome key body.command_id body.task

  check_status-Outcome :
      (key : Option Text) (status : ℕ) (o : Option ClaimBody)
      → Outcome c key now seen (check_status c key now status o seen)
  check_status-Outcome key status o = elim (Bool-cases (status == 204)) [
    | inl no_content ↦ rw no_content (refused _)
    | inr other ↦ elim (Bool-cases (ltb status 200 || leb 300 status)) [
      | inl failure ↦ rw (other, failure) (refused _)
      | inr success ↦ rw (other, success) (check_decoded-Outcome key o)
    ]
  ]

  claim_task-Outcome :
      (key : Option Text) (a : Answer) → Outcome c key now seen (claim_task c key now a seen)
  unfolding claim_task
  claim_task-Outcome key no_answer = refused _
  claim_task-Outcome key (answer status o) = check_status-Outcome key status o

-- The task was signed for this key: the signature decodes, and it is one of the task without its
-- signature followed by the time of signing, which is in the window.
pub record Signed (c : Crypto) (k : Text) (now : ℕ) (task : FleetTask) : Type 0 where
  pub signature : Text
  pub payload : Text
  pub decoded : c.decode_hex task.task_signature ≡ some signature
  pub marshalled : c.payload (unsigned_task task) ≡ some payload
  pub verified : c.verify k (payload ++ show_int task.signed_at) signature ≡ true
  pub in_time : is_outside now task.signed_at ≡ false

message-Signed :
    (c : Crypto) (k : Text) (now : ℕ) (task : FleetTask) (o p : Option Text)
    → c.decode_hex task.task_signature ≡ o
    → c.payload (unsigned_task task) ≡ p
    → is_outside now task.signed_at ≡ false
    → check_message c k task o p ≡ none
    → Signed c k now task
message-Signed c k now task none p d m t h = absurd (cc h)
message-Signed c k now task (some sig) none d m t h = absurd (cc h)
message-Signed c k now task (some sig) (some payload) d m t h =
    elim (Bool-cases (c.verify k (payload ++ show_int task.signed_at) sig)) [
      | inl good ↦ record {
        signature = sig;
        payload = payload;
        decoded = d;
        marshalled = m;
        verified = good;
        in_time = t;
      }
      | inr bad ↦ absurd (cc (rw bad at h))
    ]

verified-Signed :
    (c : Crypto) (k : Text) (now : ℕ) (task : FleetTask)
    → verify_task_signature c k now task ≡ none
    → Signed c k now task
unfolding verify_task_signature
verified-Signed c k now task h = elim (Bool-cases (is_zero task.signed_at)) [
  | inl zero_time ↦ absurd (cc (rw zero_time at h))
  | inr some_time ↦ elim (Bool-cases (is_outside now task.signed_at)) [
    | inl late ↦ absurd (cc (rw (some_time, late) at h))
    | inr timely ↦ message-Signed c k now task _ _ refl refl timely (rw (some_time, timely) at h)
  ]
]

-- The end of a claim that accepts `task`.
abbrev Accepts : Crypto → Option Text → Clock → Seen → FleetTask → Seen → Type 0
Accepts c key now seen task after =
    ((k : Text) × (key ≡ some k) × (verify_task_signature c k now.wall task ≡ none))
    × ((remember_task now.steady task seen).0 ≡ true)
    × (after ≡ (remember_task now.steady task seen).1)

remember-Accepts :
    (c : Crypto) (key : Option Text) (now : Clock) (seen : Seen) (k : Text) (t task : FleetTask)
    (i command_id : Text) (r : Bool × Seen)
    → remember_task now.steady t seen ≡ r
    → key ≡ some k
    → verify_task_signature c k now.wall t ≡ none
    → (remember t i r).0 ≡ ok (task, command_id)
    → Accepts c key now seen task (remember t i r).1
remember-Accepts c key now seen k t task i command_id (true, after) m e v h =
    subst (λ x. Accepts c key now seen x after) (ap first h)
      ((k, e, v), ap (λ x. x.0) m, sym (ap (λ x. x.1) m))
  where
    first : Result ClaimError (FleetTask × Text) → FleetTask
    first (ok (x, y)) = x
    first (err z) = t
remember-Accepts c key now seen k t task i command_id (false, after) m e v h = absurd (cc h)

claim_task-Accepts :
    (c : Crypto) (key : Option Text) (now : Clock) (a : Answer) (seen : Seen) (task : FleetTask)
    (command_id : Text)
    → (claim_task c key now a seen).0 ≡ ok (task, command_id)
    → Accepts c key now seen task (claim_task c key now a seen).1
claim_task-Accepts c key now a seen task command_id h =
    from_outcome _ (claim_task-Outcome c now seen key a) h
  where
    from_outcome :
        (r : Result ClaimError (FleetTask × Text) × Seen)
        → Outcome c key now seen r
        → r.0 ≡ ok (task, command_id)
        → Accepts c key now seen task r.1
    from_outcome _ (refused e) h = absurd (cc h)
    from_outcome _ (checked k t i e s n v) h =
        remember-Accepts c key now seen k t task i command_id (remember_task now.steady t seen) refl
          e v h

remembered_by : (task : FleetTask) (i : Text) (r : Bool × Seen) → (remember task i r).1 ≡ r.1
remembered_by task i (true, seen) = refl
remembered_by task i (false, seen) = refl

claim_task-Remembers :
    (c : Crypto) (key : Option Text) (id : Text) (since : ℕ) (now : Clock) (a : Answer)
    (seen : Seen)
    → now.steady ≤ since + window
    → Remembers id since seen
    → Remembers id since (claim_task c key now a seen).1
claim_task-Remembers c key id since now a seen h m =
    from_outcome _ (claim_task-Outcome c now seen key a)
  where
    from_outcome :
        (r : Result ClaimError (FleetTask × Text) × Seen)
        → Outcome c key now seen r
        → Remembers id since r.1
    from_outcome _ (refused e) = m
    from_outcome _ (checked k t i e s n v) =
        subst (Remembers id since) (sym (remembered_by t i (remember_task now.steady t seen)))
          (remember_task-Remembers id since now.steady t seen h m)

-- The claims of an agent one after the other, each with its time and answer.
unfoldable pub claim_all : Crypto → Option Text → List (Clock × Answer) → Seen → Seen
unfolding claim_task
claim_all c key [] seen = seen
claim_all c key ((now, a) ∷ claims) seen = claim_all c key claims (claim_task c key now a seen).1

claim_all-Remembers :
    (c : Crypto) (key : Option Text) (id : Text) (since until : ℕ) (claims : List (Clock × Answer))
    (seen : Seen)
    → until ≤ since + window
    → All (λ t. t.0.steady ≤ until) claims
    → Remembers id since seen
    → Remembers id since (claim_all c key claims seen)
unfolding claim_all
claim_all-Remembers c key id since until [] seen h a r = r
claim_all-Remembers c key id since until ((now, t) ∷ claims) seen h a r =
    claim_all-Remembers c key id since until claims _ h a.1
      (claim_task-Remembers c key id since now t seen (omega (arith, h, a.0)) r)

-- A task that a claim gives was signed for the configured key: without a key, with a signature that
-- does not verify, or with a time of signing more than 15 minutes away, no task is given.
pub claim_task-Signed :
    (c : Crypto) (key : Option Text) (now : Clock) (a : Answer) (seen : Seen) (task : FleetTask)
    (command_id : Text)
    → (claim_task c key now a seen).0 ≡ ok (task, command_id)
    → (k : Text) × (key ≡ some k) × Signed c k now.wall task
claim_task-Signed c key now a seen task command_id h =
    let ((k, e, v), _, _) = claim_task-Accepts c key now a seen task command_id h in
    (k, e, verified-Signed c k now.wall task v)

-- A task that was signed before it was first accepted is not accepted a second time, however many
-- claims come between, as long as the agent runs and the wall clock is not set back between the two
-- claims: it advances by at least as much as the monotonic clock, which does not go back.
pub no_replay :
    (c : Crypto) (key : Option Text) (first again : Clock) (s : ℕ) (a b : Answer)
    (between : List (Clock × Answer)) (seen : Seen) (task : FleetTask) (i j : Text)
    → (claim_task c key first a seen).0 ≡ ok (task, i)
    → task.signed_at ≡ pos s
    → s * second ≤ first.wall
    → again.steady + first.wall ≤ again.wall + first.steady
    → All (λ t. t.0.steady ≤ again.steady) between
    → (claim_task c key again b (claim_all c key between (claim_task c key first a seen).1)).0
      ≢ ok (task, j)
no_replay c key first again s a b between seen task i j h signed before advance times twice =
    let (_, accepted, after) = claim_task-Accepts c key first a seen task i h in
    let middle = claim_all c key between (claim_task c key first a seen).1 in
    let ((k, _, v), fresh_again, _) = claim_task-Accepts c key again b middle task j twice in
    let (_, late) = verified_in_window c k again.wall s task signed v in
    let soon : again.steady ≤ first.steady + window = omega (arith, late, before, advance) in
    let known =
      claim_all-Remembers c key task.task_id first.steady again.steady between _ soon times (
        subst (Remembers task.task_id first.steady) (sym after)
          (accepted_is_remembered first.steady task seen accepted)) in
    absurd
      (cc (fresh_again, remembered_is_refused first.steady again.steady task middle soon known))
