-- ===== src/Fleet/Effects/Triples.antt =====
-- What holds after an action, by its value or its error.
use admiral_fleet.Prelude.{Text, List, [], ◌∷◌, ◌≡◌, refl}
use admiral_fleet.Fleet.Effects.{
  Result, ok, err, Call, Value, Log, World, Act, pure, fail, perform, ◌>>=◌, continue, relabel,
  or_fail, observe, for_each, command,
}
use admiral_fleet.Fleet.Effects.Keeps.{Keeps, event}

-- What holds after an action: `Q` of its value, or `R` of its error.
abbrev pub Post :
    {E A : Type 0} → (A → Log → Type 0) → (E → Log → Type 0) → Result E A → Log → Type 0
Post Q R (ok a) l = Q a l
Post Q R (err e) l = R e l

-- From a log with `P`, `m` gives a value and a log with `Q`, or an error and a log with `R`.
pub record Triple {E A : Type 0} (P : Log → Type 0) (m : Act E A) (Q : A → Log → Type 0)
    (R : E → Log → Type 0) : Type 0 where
  pub at : (w : World) → P w.log → Post Q R (m w).0 (m w).1.log

Triple-continue :
    {E A B : Type 0} {Q : A → Log → Type 0} {R : E → Log → Type 0} {S : B → Log → Type 0}
    (r : Result E A) (f : A → Act E B) (w : World)
    → ((a : A) → Triple (Q a) (f a) S R)
    → Post Q R r w.log
    → Post S R (continue r f w).0 (continue r f w).1.log
Triple-continue (ok a) f w tf h = (tf a).at w h
Triple-continue (err e) f w tf h = h

pub Triple-bind :
    {E A B : Type 0} {P : Log → Type 0} {Q : A → Log → Type 0} {R : E → Log → Type 0}
    {S : B → Log → Type 0} {m : Act E A} {f : A → Act E B}
    → Triple P m Q R
    → ((a : A) → Triple (Q a) (f a) S R)
    → Triple P (m >>= f) S R
unfolding ◌>>=◌
Triple-bind {m} {f} tm tf = record { at = λ w h. Triple-continue (m w).0 f (m w).1 tf (tm.at w h) }

pub Triple-pure :
    {E A : Type 0} {P : Log → Type 0} {Q : A → Log → Type 0} {R : E → Log → Type 0} (a : A)
    → ((l : Log) → P l → Q a l)
    → Triple P (pure a) Q R
unfolding pure
Triple-pure a h = record { at = λ w p. h w.log p }

pub Triple-fail :
    {E A : Type 0} {P : Log → Type 0} {Q : A → Log → Type 0} {R : E → Log → Type 0} (e : E)
    → ((l : Log) → P l → R e l)
    → Triple P (fail e) Q R
unfolding fail
Triple-fail e h = record { at = λ w p. h w.log p }

Post-true : {E A : Type 0} (r : Result E A) (l : Log) → Post (λ _ _. Unit {0}) (λ _ _. Unit {0}) r l
Post-true (ok a) l = tt
Post-true (err e) l = tt

-- Nothing is claimed.
pub Triple-true :
    {E A : Type 0} {P : Log → Type 0} (m : Act E A) → Triple P m (λ _ _. Unit) (λ _ _. Unit)
Triple-true m = record { at = λ w p. Post-true (m w).0 (m w).1.log }

-- The newest event is the call `c`, and the log was in `P` before it.
abbrev pub After : Call → (Log → Type 0) → Log → Type 0
After c P [] = ⊥
After c P (e ∷ l) = (e.call ≡ c) × P l

Post-command :
    (P : Log → Type 0) (c : Call) (r : Result Text Value) (w : World)
    → After c P w.log
    → Post
        (λ (_ : Unit {0}). After c P)
        (λ _. After c P)
        (continue r (λ _. pure tt) w).0
        (continue r (λ _. pure tt) w).1.log
unfolding pure
Post-command P c (ok v) w h = h
Post-command P c (err e) w h = h

pub Triple-command :
    {P : Log → Type 0} (c : Call) → Triple P (command c) (λ _. After c P) (λ _. After c P)
unfolding command ◌>>=◌ perform
Triple-command {P} c = record {
  at = λ w p.
      let r = w.node w.log c in
      Post-command P c r (record w { log = record { call = c; reply = r } ∷ w.log }) (refl, p);
}

Post-weaken :
    {E A : Type 0} (Q Q' : A → Log → Type 0) (R R' : E → Log → Type 0) (r : Result E A) (l : Log)
    → ((a : A) → Q a l → Q' a l)
    → ((e : E) → R e l → R' e l)
    → Post Q R r l
    → Post Q' R' r l
Post-weaken Q Q' R R' (ok a) l f g h = f a h
Post-weaken Q Q' R R' (err e) l f g h = g e h

pub Triple-weaken :
    {E A : Type 0} {P P' : Log → Type 0} {Q Q' : A → Log → Type 0} {R R' : E → Log → Type 0}
    {m : Act E A}
    → ((l : Log) → P' l → P l)
    → ((a : A) (l : Log) → Q a l → Q' a l)
    → ((e : E) (l : Log) → R e l → R' e l)
    → Triple P m Q R
    → Triple P' m Q' R'
Triple-weaken {Q = Q} {Q' = Q'} {R = R} {R' = R'} {m = m} f g k t = record {
  at = λ w p.
      Post-weaken Q Q' R R' (m w).0 (m w).1.log (λ a. g a (m w).1.log) (λ e. k e (m w).1.log)
        (t.at w (f w.log p));
}

Post-relabel :
    {E F A : Type 0} (Q : A → Log → Type 0) (R : F → Log → Type 0) (f : E → F) (r : Result E A)
    (l : Log)
    → Post Q (λ e. R (f e)) r l
    → Post Q R (relabel f r) l
Post-relabel Q R f (ok a) l h = h
Post-relabel Q R f (err e) l h = h

pub Triple-or_fail :
    {E F A : Type 0} {P : Log → Type 0} {Q : A → Log → Type 0} {R : F → Log → Type 0} {m : Act E A}
    (f : E → F)
    → Triple P m Q (λ e. R (f e))
    → Triple P (or_fail m f) Q R
unfolding or_fail
Triple-or_fail {Q = Q} {R = R} {m = m} f t = record {
  at = λ w p. Post-relabel Q R f (m w).0 (m w).1.log (t.at w p);
}

Post-command_reply :
    {P : Log → Type 0} (Q : Unit {0} → Log → Type 0) (R : Text → Log → Type 0) (c : Call)
    (r : Result Text Value) (w : World)
    → P w.log
    → ((v : Value) (l : Log) → P l → Q tt (event c (ok v) ∷ l))
    → ((e : Text) (l : Log) → P l → R e (event c (err e) ∷ l))
    → let w' = record w { log = event c r ∷ w.log } in
      Post Q R (continue r (λ _. pure tt) w').0 (continue r (λ _. pure tt) w').1.log
unfolding pure
Post-command_reply Q R c (ok v) w p h k = h v w.log p
Post-command_reply Q R c (err e) w p h k = k e w.log p

-- A command, by what its success and its failure leave.
pub Triple-command_reply :
    {P : Log → Type 0} {Q : Unit {0} → Log → Type 0} {R : Text → Log → Type 0} (c : Call)
    → ((v : Value) (l : Log) → P l → Q tt (event c (ok v) ∷ l))
    → ((e : Text) (l : Log) → P l → R e (event c (err e) ∷ l))
    → Triple P (command c) Q R
unfolding command ◌>>=◌ perform
Triple-command_reply {P} {Q} {R} c h k = record {
  at = λ w p. Post-command_reply {P = P} Q R c (w.node w.log c) w p h k;
}

Post-observe :
    {E F A : Type 0} (P : Result E A → Log → Type 0) (R : F → Log → Type 0) (r : Result E A)
    (l : Log)
    → Post (λ a. P (ok a)) (λ e. P (err e)) r l
    → Post P R (ok r) l
Post-observe P R (ok a) l h = h
Post-observe P R (err e) l h = h

-- To observe never fails.
pub Triple-observe :
    {E F A : Type 0} {P : Log → Type 0} {Q : Result E A → Log → Type 0} {R : F → Log → Type 0}
    (m : Act E A)
    → Triple P m (λ a. Q (ok a)) (λ e. Q (err e))
    → Triple P (observe m) Q R
unfolding observe
Triple-observe {Q = Q} {R = R} m t = record {
  at = λ w p. Post-observe Q R (m w).0 (m w).1.log (t.at w p);
}

-- A loop keeps `P` and may end in `R`.
pub Triple-for_each :
    {E A : Type 0} {P : Log → Type 0} {R : E → Log → Type 0} (xs : List A)
    (f : A → Act E (Unit {0}))
    → ((a : A) → Triple P (f a) (λ _. P) R)
    → Triple P (for_each xs f) (λ _. P) R
unfolding for_each
Triple-for_each [] f h = Triple-pure tt (λ l p. p)
Triple-for_each (x ∷ xs) f h = Triple-bind (h x) (λ _. Triple-for_each xs f h)

-- A program that is kept by every call keeps `P` on both outcomes.
pub Triple-Keeps :
    {E A : Type 0} {P : Log → Type 0} (m : Act E A) → Keeps P m → Triple P m (λ _. P) (λ _. P)
Triple-Keeps {P = P} m k = record { at = λ w p. Post-same P (m w).0 (m w).1.log (k.at w p) }
  where
    Post-same :
        {E A : Type 0} (P : Log → Type 0) (r : Result E A) (l : Log)
        → P l
        → Post (λ _. P) (λ _. P) r l
    Post-same P (ok a) l p = p
    Post-same P (err e) l p = p
