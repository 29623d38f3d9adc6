-- ===== src/Agent/Replay/Safety.antt =====
-- A task is not accepted twice, unless it was signed in the future.
use admiral_fleet.Prelude.{
  arith, Text, ℕ, ◌+◌, ◌*◌, ◌≤◌, ltb, pos, Bool, true, false, ◌≡◌, ◌⊎◌, refl, [], ◌∷◌, eq_text,
  is_zero, eq_text_refl, if◌then◌else◌, Option, none, some, Bool-cases, inl, inr,
}
use admiral_fleet.Fleet.Task.{FleetTask}
use admiral_fleet.Agent.Replay.{
  Crypto, VerifyError, Seen, second, window, is_outside, verify_task_signature, purge, has_seen,
  remember_task,
}

-- The id is remembered, with a time that is not before `since`.
abbrev pub Remembers : Text → ℕ → Seen → Type 0
Remembers id since [] = ⊥
Remembers id since ((i, at) ∷ seen) =
    ((eq_text i id ≡ true) × (since ≤ at)) ⊎ Remembers id since seen

purge-Remembers :
    (id : Text) (since now : ℕ) (seen : Seen)
    → now ≤ since + window
    → Remembers id since seen
    → Remembers id since (purge now seen)
unfolding purge
purge-Remembers id since now [] h r = elim r [ ]
purge-Remembers id since now ((i, at) ∷ seen) h (inl (e, k)) =
    let kept : ltb (at + window) now ≡ false = ground arith in rw kept (inl (e, k))
purge-Remembers id since now ((i, at) ∷ seen) h (inr r) =
    elim (Bool-cases (ltb (at + window) now)) [
      | inl old ↦ rw old (purge-Remembers id since now seen h r)
      | inr young ↦ rw young (inr (purge-Remembers id since now seen h r))
    ]

Remembers-has_seen :
    (id : Text) (since : ℕ) (seen : Seen) → Remembers id since seen → has_seen id seen ≡ true
unfolding has_seen
Remembers-has_seen id since [] r = elim r [ ]
Remembers-has_seen id since ((i, at) ∷ seen) (inl (e, k)) = rw e refl
Remembers-has_seen id since ((i, at) ∷ seen) (inr r) =
    ground (arith, Remembers-has_seen id since seen r)

pub remember_task-Remembers :
    (id : Text) (since now : ℕ) (task : FleetTask) (seen : Seen)
    → now ≤ since + window
    → Remembers id since seen
    → Remembers id since (remember_task now task seen).1
unfolding remember_task
remember_task-Remembers id since now task seen h r =
    elim (Bool-cases (has_seen task.task_id (purge now seen))) [
      | inl known ↦ rw known (purge-Remembers id since now seen h r)
      | inr unknown ↦ rw unknown (inr (purge-Remembers id since now seen h r))
    ]

-- A remembered id is refused.
pub remembered_is_refused :
    (since now : ℕ) (task : FleetTask) (seen : Seen)
    → now ≤ since + window
    → Remembers task.task_id since seen
    → (remember_task now task seen).0 ≡ false
unfolding remember_task
remembered_is_refused since now task seen h r =
    let known =
      Remembers-has_seen task.task_id since _ (purge-Remembers task.task_id since now seen h r) in
    rw known refl

-- An accepted id is remembered.
pub accepted_is_remembered :
    (now : ℕ) (task : FleetTask) (seen : Seen)
    → (remember_task now task seen).0 ≡ true
    → Remembers task.task_id now (remember_task now task seen).1
unfolding remember_task
accepted_is_remembered now task seen e =
    elim (Bool-cases (has_seen task.task_id (purge now seen))) [
      | inl known ↦ absurd (cc (rw known at e))
      | inr unknown ↦ rw unknown (inl (eq_text_refl task.task_id, omega arith))
    ]

past_guards :
    (a b : Bool) (o : Option VerifyError)
    → (if a
        then some VerifyError.timestamp_missing
        else if b
        then some VerifyError.outside_window
        else o)
      ≡ none
    → b ≡ false
past_guards true b o h = absurd (cc h)
past_guards false true o h = absurd (cc h)
past_guards false false o h = refl

inside_window :
    (now s : ℕ)
    → is_outside now (pos s) ≡ false
    → (s * second ≤ now + window) × (now ≤ s * second + window)
unfolding is_outside
inside_window now s h = (ground arith, ground arith)

-- A signature that holds at `now` was made at most a window before or after.
pub verified_in_window :
    (c : Crypto) (key : Text) (now s : ℕ) (task : FleetTask)
    → task.signed_at ≡ pos s
    → verify_task_signature c key now task ≡ none
    → (s * second ≤ now + window) × (now ≤ s * second + window)
unfolding verify_task_signature
verified_in_window c key now s task e h =
    inside_window now s
      (rw e at (past_guards (is_zero task.signed_at) (is_outside now task.signed_at) _ h))
