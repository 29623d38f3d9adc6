-- ===== src/Agent/Replay/History.antt =====
-- The map of seen tasks, which forgets, against a history of all acceptances, which does not.
use admiral_fleet.Prelude.{
  arith, Text, ℕ, ◌+◌, ◌≤◌, ltb, Bool, true, false, not, ◌&&◌, ◌||◌, List, [], ◌∷◌, any_of, eq_text,
  if◌then◌else◌, ◌≡◌, refl, sym, ap, ◌∙◌, Bool-cases, inl, inr,
}
use admiral_fleet.Fleet.Task.{FleetTask}
use admiral_fleet.Agent.Replay.{Seen, window, purge, has_seen, remember_task}

-- Every acceptance of a task, with its time, the newest first.
abbrev pub History : Type 0
History = List (Text × ℕ)

-- The task was accepted at most a window ago.
abbrev pub recently : ℕ → Text → History → Bool
recently now id = any_of (λ e. eq_text e.0 id && not (ltb (e.1 + window) now))

-- What the agent promises: it accepts a task that it has not accepted recently.
abbrev pub judge : ℕ → FleetTask → History → Bool × History
judge now task h =
    if recently now task.task_id h then (false, h) else (true, (task.task_id, now) ∷ h)

-- Tasks that arrive at times; the verdict on each.
abbrev pub verdicts :
    {S : Type 0} → (ℕ → FleetTask → S → Bool × S) → List (ℕ × FleetTask) → S → List Bool
verdicts f [] s = []
verdicts f ((now, task) ∷ rest) s = (f now task s).0 ∷ verdicts f rest (f now task s).1

-- The times do not go back.
abbrev pub Ordered : ℕ → List (ℕ × FleetTask) → Type 0
Ordered t [] = Unit
Ordered t ((now, task) ∷ rest) = (t ≤ now) × Ordered now rest

purge-old :
    (now id_at : ℕ) (id : Text) (s : Seen)
    → ltb (id_at + window) now ≡ true
    → purge now ((id, id_at) ∷ s) ≡ purge now s
unfolding purge
purge-old now id_at id s h = rw h refl

purge-young :
    (now id_at : ℕ) (id : Text) (s : Seen)
    → ltb (id_at + window) now ≡ false
    → purge now ((id, id_at) ∷ s) ≡ (id, id_at) ∷ purge now s
unfolding purge
purge-young now id_at id s h = rw h refl

-- To purge now and later is to purge later.
purge-purge : (now later : ℕ) (s : Seen) → now ≤ later → purge later (purge now s) ≡ purge later s
unfolding purge
purge-purge now later [] h = refl
purge-purge now later ((id, at) ∷ s) h = elim (Bool-cases (ltb (at + window) now)) [
  | inl old ↦
      ap (purge later) (purge-old now at id s old)
      ∙ purge-purge now later s h
      ∙ sym (purge-old later at id s (ground arith))
  | inr young ↦
      ap (purge later) (purge-young now at id s young)
      ∙ ap (λ l. if ltb (at + window) later then l else (id, at) ∷ l) (purge-purge now later s h)
]

forgotten : (a r : Bool) → ((a && not true) || r) ≡ r
forgotten true r = refl
forgotten false r = refl

remembered : (a r : Bool) → ((a && not false) || r) ≡ (a || r)
remembered true r = refl
remembered false r = refl

has_seen-purge : (now : ℕ) (id : Text) (s : History) → has_seen id (purge now s) ≡ recently now id s
unfolding has_seen
has_seen-purge now id [] = unfold purge in refl
has_seen-purge now id ((k, at) ∷ s) = elim (Bool-cases (ltb (at + window) now)) [
  | inl old ↦
      ap (has_seen id) (purge-old now at k s old)
      ∙ has_seen-purge now id s
      ∙ sym (rw old (forgotten (eq_text k id) (recently now id s)))
  | inr young ↦
      ap (has_seen id) (purge-young now at k s young)
      ∙ ap (λ r. eq_text k id || r) (has_seen-purge now id s)
      ∙ sym (rw young (remembered (eq_text k id) (recently now id s)))
]

-- The map has forgotten no acceptance that still counts.
abbrev Refines : ℕ → Seen → History → Type 0
Refines t seen h = (now : ℕ) → t ≤ now → purge now seen ≡ purge now h

-- One task: the same verdict, and the map refines the history still.
remember-Refines :
    (t now : ℕ) (task : FleetTask) (seen : Seen) (h : History)
    → Refines t seen h
    → t ≤ now
    → ((remember_task now task seen).0 ≡ (judge now task h).0)
      × Refines now (remember_task now task seen).1 (judge now task h).1
unfolding remember_task
remember-Refines t now task seen h r le =
    let same = ap (has_seen task.task_id) (r now le) ∙ has_seen-purge now task.task_id h in
    elim (Bool-cases (recently now task.task_id h)) [
      | inl old ↦
          rw (same ∙ old, old)
            (refl, λ later lt. purge-purge now later seen lt ∙ r later (omega (arith, le, lt)))
      | inr fresh ↦
          rw (same ∙ fresh, fresh)
            (
              refl,
              λ later lt.
                  ap (λ l. if ltb (now + window) later then l else (task.task_id, now) ∷ l)
                    (purge-purge now later seen lt ∙ r later (omega (arith, le, lt))),
            )
    ]

refined_verdicts :
    (t : ℕ) (arrivals : List (ℕ × FleetTask)) (seen : Seen) (h : History)
    → Refines t seen h
    → Ordered t arrivals
    → verdicts remember_task arrivals seen ≡ verdicts judge arrivals h
refined_verdicts t [] seen h r o = refl
refined_verdicts t ((now, task) ∷ rest) seen h r (le, o) =
    let (same, next) = remember-Refines t now task seen h r le in
    let later =
      refined_verdicts now rest (remember_task now task seen).1 (judge now task h).1 next o in
    cc (same, later)

-- For tasks that arrive at times that do not go back, the map of seen tasks, which forgets what is
-- older than the window, gives the same verdict on every one as a history that keeps each acceptance
-- for ever and accepts a task unless it was accepted at most a window ago.
pub verdicts-remember_task :
    (t : ℕ) (arrivals : List (ℕ × FleetTask))
    → Ordered t arrivals
    → verdicts remember_task arrivals [] ≡ verdicts judge arrivals []
verdicts-remember_task t arrivals o = refined_verdicts t arrivals [] [] (λ now le. refl) o
