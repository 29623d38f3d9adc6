-- ===== src/Executor/Deprovision/Cleanup.antt =====
-- What the clean-up of `deprovision` attempts, and when it lets metadata be removed.
use admiral_fleet.Prelude.{
  Text, Bool, true, false, ◌≡◌, refl, sym, ap, ◌∙◌, List, [], ◌∷◌, ◌++◌, All, All-append,
  append_assoc, append-nil_left, append-nil_right, if◌then◌else◌, Bool-cases, ◌⊎◌, inl, inr,
}
use admiral_fleet.Fleet.Effects.{
  Result, ok, err, Value, Event, Log, World, Call, stop, disable, remove_pod, remove_container,
  remove_volume, secret_remove, remove_quadlet, remove_all, reset_failed, pure, perform, ◌>>=◌,
  observe, command,
}
use admiral_fleet.Fleet.Effects.Keeps.{event}
use admiral_fleet.Executor.Report.{Failure}
use admiral_fleet.Executor.Deprovision.{
  Errors, Cleanup, is_missing_unit, attempt, both, each, disable_unit,
}

-- The events that a clean-up may leave behind: a success, a unit that is missing already, or a
-- failed `reset-failed`.
abbrev pub tolerated : Call → Result Text Value → Bool
tolerated c (ok v) = true
tolerated (stop unit) (err e) = is_missing_unit e
tolerated (disable unit) (err e) = is_missing_unit e
tolerated reset_failed (err e) = true
tolerated _ (err e) = false

abbrev pub Tolerated : Event → Type 0
Tolerated e = tolerated e.call e.reply ≡ true

-- What the clean-up is for: a unit that stops, and a resource of Podman that goes.
abbrev pub is_removal : Call → Bool
is_removal (stop unit) = true
is_removal (remove_pod pod) = true
is_removal (remove_container container) = true
is_removal (remove_volume volume) = true
is_removal (secret_remove secret) = true
is_removal _ = false

-- The removals of a log, the oldest first, before those of `later`.
abbrev pub attempted : Log → List Call → List Call
attempted [] later = later
attempted (e ∷ l) later = attempted l (if is_removal e.call then e.call ∷ later else later)

abbrev pub is_metadata_removal : Call → Bool
is_metadata_removal (remove_quadlet instance_id) = true
is_metadata_removal (remove_all file) = true
is_metadata_removal _ = false

pub attempted-append :
    (new old : Log) (later : List Call)
    → attempted (new ++ old) later ≡ attempted old (attempted new later)
attempted-append [] old later = refl
attempted-append (e ∷ new) old later =
    attempted-append new old (if is_removal e.call then e.call ∷ later else later)

-- The run of a clean-up: it never aborts, it makes the removals of `plan` in this order and removes
-- no metadata, and if it keeps no error then each of its events is tolerated.
pub record Ran (plan : List Call) (w : World) (r : Result Failure Errors × World) : Type 0 where
  pub errors : Errors
  pub new : Log
  pub outcome : r ≡ (ok errors, record w { log = new ++ w.log })
  pub quiet : errors ≡ [] → All Tolerated new
  pub planned : (later : List Call) → attempted new later ≡ plan ++ later
  pub runtime : All (λ e. is_metadata_removal e.call ≡ false) new

pub record IsCleanup (plan : List Call) (m : Cleanup) : Type 0 where
  pub run : (w : World) → Ran plan w (m w)

pub IsCleanup-nothing : IsCleanup [] (pure [])
unfolding pure
IsCleanup-nothing = record {
  run = λ w. record {
    errors = [];
    new = [];
    outcome = refl;
    quiet = λ e. tt;
    planned = λ later. refl;
    runtime = tt;
  };
}

both-Ran :
    {p q : List Call} (m k : Cleanup) (w : World)
    → Ran p w (m w)
    → IsCleanup q k
    → Ran (p ++ q) w (both m k w)
unfolding both ◌>>=◌ pure
both-Ran {p} {q} m k w a ck =
    let b = ck.run (record w { log = a.new ++ w.log }) in
    record {
      errors = a.errors ++ b.errors;
      new = b.new ++ a.new;
      outcome = rw (a.outcome, b.outcome, append_assoc b.new a.new w.log) refl;
      quiet = λ e.
          All-append Tolerated b.new a.new (b.quiet (append-nil_right a.errors b.errors e))
            (a.quiet (append-nil_left a.errors b.errors e));
      planned = λ later.
          attempted-append b.new a.new later
          ∙ ap (attempted a.new) (b.planned later)
          ∙ a.planned (q ++ later)
          ∙ sym (append_assoc p q later);
      runtime =
          All-append (λ e. is_metadata_removal e.call ≡ false) b.new a.new b.runtime a.runtime;
    }

pub IsCleanup-both :
    {p q : List Call} (m k : Cleanup)
    → IsCleanup p m
    → IsCleanup q k
    → IsCleanup (p ++ q) (both m k)
IsCleanup-both m k cm ck = record { run = λ w. both-Ran m k w (cm.run w) ck }

-- The plan of a loop.
abbrev pub plan_each : {A : Type 0} → List A → (A → List Call) → List Call
plan_each [] p = []
plan_each (x ∷ xs) p = p x ++ plan_each xs p

pub IsCleanup-each :
    {A : Type 0} (p : A → List Call) (xs : List A) (f : A → Cleanup)
    → ((x : A) → IsCleanup (p x) (f x))
    → IsCleanup (plan_each xs p) (each xs f)
unfolding each
IsCleanup-each p [] f h = IsCleanup-nothing
IsCleanup-each p (x ∷ xs) f h = IsCleanup-both (f x) (each xs f) (h x) (IsCleanup-each p xs f h)

pub Reply-cases : (r : Result Text Value) → ((v : Value) × (r ≡ ok v)) ⊎ ((e : Text) × (r ≡ err e))
Reply-cases (ok v) = inl (v, refl)
Reply-cases (err e) = inr (e, refl)

attempt-Ran :
    (c : Call) (w : World)
    → is_removal c ≡ true
    → is_metadata_removal c ≡ false
    → Ran (c ∷ []) w (attempt c w)
unfolding attempt observe command ◌>>=◌ pure perform
attempt-Ran c w h k = elim (Reply-cases (w.node w.log c)) [
  | inl (v, e) ↦ record {
    errors = [];
    new = event c (ok v) ∷ [];
    outcome = rw e refl;
    quiet = λ _. (refl, tt);
    planned = λ later. rw h refl;
    runtime = (k, tt);
  }
  | inr (t, e) ↦ record {
    errors = (c, t) ∷ [];
    new = event c (err t) ∷ [];
    outcome = rw e refl;
    quiet = λ q. absurd (cc q);
    planned = λ later. rw h refl;
    runtime = (k, tt);
  }
]

pub IsCleanup-attempt :
    (c : Call)
    → is_removal c ≡ true
    → is_metadata_removal c ≡ false
    → IsCleanup (c ∷ []) (attempt c)
IsCleanup-attempt c h k = record { run = λ w. attempt-Ran c w h k }

pub disable_unit-Ran : (unit : Text) (w : World) → Ran [] w (disable_unit unit w)
unfolding disable_unit observe command ◌>>=◌ pure perform
disable_unit-Ran unit w = elim (Reply-cases (w.node w.log (disable unit))) [
  | inl (v, e) ↦ record {
    errors = [];
    new = event (disable unit) (ok v) ∷ [];
    outcome = rw e refl;
    quiet = λ _. (refl, tt);
    planned = λ later. refl;
    runtime = (refl, tt);
  }
  | inr (t, e) ↦ elim (Bool-cases (is_missing_unit t)) [
    | inl missing ↦ record {
      errors = [];
      new = event (disable unit) (err t) ∷ [];
      outcome = rw (e, missing) refl;
      quiet = λ _. (missing, tt);
      planned = λ later. refl;
      runtime = (refl, tt);
    }
    | inr serious ↦ record {
      errors = (disable unit, t) ∷ [];
      new = event (disable unit) (err t) ∷ [];
      outcome = rw (e, serious) refl;
      quiet = λ q. absurd (cc q);
      planned = λ later. refl;
      runtime = (refl, tt);
    }
  ]
]
