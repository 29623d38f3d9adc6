-- ===== src/Executor/DataPlane/Volumes/Quiet.antt =====
-- Volumes are written only while the units that own them are stopped.
use admiral_fleet.Prelude.{
  Text, Bool, true, false, List, [], ◌∷◌, ◌≡◌, refl, All, eq_text, eq_text_refl, ◌||◌, arith,
}
use admiral_fleet.Fleet.Task.{FleetTask}
use admiral_fleet.Fleet.Effects.{
  Result, ok, err, Call, Value, Log, stop, start, restart, extract_volume, volume_inspect, for_each,
}
use admiral_fleet.Fleet.Effects.Keeps.{Keeps, Closed, event, call_rules, Keeps-fail, Keeps-pure}
use admiral_fleet.Fleet.Effects.Triples.{
  Triple, Triple-bind, Triple-Keeps, Triple-or_fail, Triple-weaken, Triple-command_reply,
  Triple-pure, Post,
}
use admiral_fleet.Executor.Archive.{Target, volume_targets}
use admiral_fleet.Executor.Report.{failed, stop_for_restore, no_volume_services}
use admiral_fleet.Executor.DataPlane.Volumes.{
  owning_units, stop_owners, start_owners, extract_targets, restore_volumes, some_targets,
}

-- The unit was stopped, and no unit was started since. The newest event is the first.
unfoldable pub is_quiet : Text → Log → Bool
unfolding eq_text
is_quiet unit [] = false
is_quiet unit (e ∷ l) =
    let before = is_quiet unit l in
    elim e.call [
      | start v ↦ false
      | restart v ↦ false
      | stop v ↦ (elim e.reply [ ok _ ↦ eq_text unit v | err _ ↦ false ]) || before
      | _ ↦ before
    ]

abbrev pub Quiet : List Text → Log → Type 0
Quiet units l = All (λ u. is_quiet u l ≡ true) units

-- A call that writes to a volume needs its owners quiet.
abbrev pub Allowed : List Text → Call → Log → Type 0
Allowed units (extract_volume artifact mountpoint prefix) l = Quiet units l
Allowed units c l = Unit

-- Whenever a volume was written to, the units were quiet.
abbrev pub Guarded : List Text → Log → Type 0
Guarded units [] = Unit
Guarded units (e ∷ l) = Allowed units e.call l × Guarded units l

quiet_after_stop :
    (u v : Text) (r : Result Text Value) (l : Log)
    → is_quiet u l ≡ true
    → is_quiet u (event (stop v) r ∷ l) ≡ true
unfolding is_quiet
quiet_after_stop u v (ok x) l h = ground arith
quiet_after_stop u v (err e) l h = h

quiet_stopped : (u : Text) (x : Value) (l : Log) → is_quiet u (event (stop u) (ok x) ∷ l) ≡ true
unfolding is_quiet
quiet_stopped u x l = rw (eq_text_refl u) refl

Quiet-stop :
    (units : List Text) (v : Text) (r : Result Text Value) (l : Log)
    → Quiet units l
    → Quiet units (event (stop v) r ∷ l)
Quiet-stop [] v r l h = tt
Quiet-stop (u ∷ us) v r l h = (quiet_after_stop u v r l h.0, Quiet-stop us v r l h.1)

-- The loop that stops the owners: those in `done` are stopped already.
stopping :
    (units xs done : List Text)
    → Triple
        (λ l. Guarded units l × Quiet done l)
        (stop_owners xs)
        (λ _ l. (Guarded units l × Quiet done l) × Quiet xs l)
        (λ _. Guarded units)
unfolding for_each
stopping units [] done = Triple-pure tt (λ l h. (h, tt))
stopping units (x ∷ xs) done =
    Triple-bind
      (Triple-or_fail (failed (stop_for_restore x)) (
        Triple-command_reply {P = λ l. Guarded units l × Quiet done l}
          {Q = λ _ l. Guarded units l × Quiet (x ∷ done) l} {R = λ _. Guarded units} (stop x)
          (λ v l h. ((tt, h.0), (quiet_stopped x v l, Quiet-stop done x (ok v) l h.1)))
          (λ e l h. (tt, h.0))))
      (λ _.
        Triple-weaken (λ l h. h) (λ _ l h. ((h.0.0, h.0.1.1), (h.0.1.0, h.1))) (λ _ l h. h)
          (stopping units xs (x ∷ done)))

is_read_or_write : Call → Bool
is_read_or_write (volume_inspect v) = true
is_read_or_write (extract_volume a m p) = true
is_read_or_write _ = false

writing-Closed :
    (units : List Text) → Closed (λ l. Guarded units l × Quiet units l) is_read_or_write
unfolding is_read_or_write is_quiet
writing-Closed units = record { step = step }
  where
    step :
        (c : Call) (r : Result Text Value) (l : Log)
        → is_read_or_write c ≡ true
        → Guarded units l × Quiet units l
        → Guarded units (event c r ∷ l) × Quiet units (event c r ∷ l)
    step (volume_inspect v) r l h i = ((tt, i.0), i.1)
    step (extract_volume a m p) r l h i = ((i.1, i.0), i.1)
    step _ r l h i = absurd (cc h)

extracting :
    (units : List Text) (task : FleetTask) (artifact : Text)
    → Keeps (λ l. Guarded units l × Quiet units l) (extract_targets artifact (volume_targets task))
unfolding extract_targets is_read_or_write
extracting units task artifact = search (call_rules, writing-Closed units) depth 40 fits 4000

-- The calls that do not write to a volume.
abbrev pub is_no_write : Call → Bool
is_no_write (extract_volume a m p) = false
is_no_write _ = true

pub guarded-Closed : (units : List Text) → Closed (Guarded units) is_no_write
guarded-Closed units = record { step = step }
  where
    step :
        (c : Call) (r : Result Text Value) (l : Log)
        → is_no_write c ≡ true
        → Guarded units l
        → Guarded units (event c r ∷ l)
    step (extract_volume a m p) r l h g = absurd (cc h)
    step _ r l h g = (tt, g)

starting : (units xs : List Text) → Keeps (Guarded units) (start_owners xs)
starting units xs = search (call_rules, guarded-Closed units) depth 40 fits 4000

some_targets-Keeps : (P : Log → Type 0) (ts : List Target) → Keeps P (some_targets ts)
some_targets-Keeps P [] = Keeps-fail no_volume_services
some_targets-Keeps P (t ∷ ts) = Keeps-pure tt

Post-Keeps :
    {E A : Type 0} (P : Log → Type 0) (r : Result E A) (l : Log) → Post (λ _. P) (λ _. P) r l → P l
Post-Keeps P (ok a) l p = p
Post-Keeps P (err e) l p = p

-- `restoreVolumes` writes to volumes only while their owners are stopped.
pub restore_volumes-Guarded :
    (task : FleetTask) (artifact : Text)
    → Keeps (Guarded (owning_units task)) (restore_volumes task artifact)
unfolding restore_volumes
restore_volumes-Guarded task artifact =
    let units = owning_units task in
    let guarded = Guarded units in
    record {
      at = λ w h.
          Post-Keeps guarded (restore_volumes task artifact w).0
            (restore_volumes task artifact w).1.log
            ((Triple-bind
                (Triple-Keeps (some_targets (volume_targets task))
                  (some_targets-Keeps guarded (volume_targets task)))
                (λ _.
                  Triple-bind
                    (Triple-weaken (λ l g. (g, tt)) (λ _ l g. (g.0.0, g.1)) (λ _ l g. g)
                      (stopping units units []))
                    (λ _.
                      Triple-bind
                        (Triple-weaken (λ l g. g) (λ _ l g. g.0) (λ _ l g. g.0)
                          (Triple-Keeps _ (extracting units task artifact)))
                        (λ _. Triple-Keeps _ (starting units units))))).at
              w h);
    }
