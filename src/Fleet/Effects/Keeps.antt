-- ===== src/Fleet/Effects/Keeps.antt =====
-- What an action keeps: one rule for each way to build an action, and one for each kind of call.
use admiral_fleet.Prelude.{
  Text, Bool, true, false, if◌then◌else◌, List, [], ◌∷◌, ◌≡◌, refl, All, Bool-cases, inl, inr,
}
use admiral_fleet.Fleet.Effects.{
  Result, ok, err, Call, Value, Event, Log, World, FilePath, Act, pure, fail, perform, ◌>>=◌,
  continue, or_fail, observe, for_each, command, ask, read, count, read_content, remove_if_there,
}

-- `m` keeps `P`, whether it fails or not.
pub record Keeps {E A : Type 0} (P : Log → Type 0) (m : Act E A) : Type 0 where
  pub at : (w : World) → P w.log → P (m w).1.log

module _ {P : Log → Type 0} where
  pub Keeps-pure : {E A : Type 0} (a : A) → Keeps P (pure {E = E} a)
  unfolding pure
  Keeps-pure a = record { at = λ w h. h }

  pub Keeps-fail : {E A : Type 0} (e : E) → Keeps P (fail {A = A} e)
  unfolding fail
  Keeps-fail e = record { at = λ w h. h }

  Keeps-continue :
      {E A B : Type 0} (r : Result E A) (f : A → Act E B)
      → ((a : A) → Keeps P (f a))
      → Keeps P (continue r f)
  Keeps-continue (ok a) f kf = kf a
  Keeps-continue (err e) f kf = record { at = λ w h. h }

  pub Keeps-bind :
      {E A B : Type 0} (m : Act E A) (f : A → Act E B)
      → Keeps P m
      → ((a : A) → Keeps P (f a))
      → Keeps P (m >>= f)
  unfolding ◌>>=◌
  Keeps-bind m f km kf = record { at = λ w h. (Keeps-continue (m w).0 f kf).at (m w).1 (km.at w h) }

  pub Keeps-or_fail : {E F A : Type 0} (m : Act E A) (f : E → F) → Keeps P m → Keeps P (or_fail m f)
  unfolding or_fail
  Keeps-or_fail m f km = record { at = km.at }

  pub Keeps-observe : {E F A : Type 0} (m : Act E A) → Keeps P m → Keeps P (observe {F = F} m)
  unfolding observe
  Keeps-observe m km = record { at = km.at }

  pub Keeps-if :
      {E A : Type 0} (b : Bool) (m n : Act E A)
      → Keeps P m
      → Keeps P n
      → Keeps P (if b then m else n)
  Keeps-if true m n km kn = km
  Keeps-if false m n km kn = kn

  pub Keeps-for_each :
      {E A : Type 0} (xs : List A) (f : A → Act E (Unit {0}))
      → ((a : A) → Keeps P (f a))
      → Keeps P (for_each xs f)
  unfolding for_each
  Keeps-for_each [] f kf = Keeps-pure tt
  Keeps-for_each (x ∷ xs) f kf =
      Keeps-bind (f x) (λ _. for_each xs f) (kf x) (λ _. Keeps-for_each xs f kf)

pub ruleset keeps_rules =
    (Keeps-pure, Keeps-fail, Keeps-bind, Keeps-or_fail, Keeps-observe, Keeps-if, Keeps-for_each)

-- The event of a call that succeeds, or fails.
abbrev pub event : Call → Result Text Value → Event
event c r = record { call = c; reply = r }

-- The calls that `p` allows keep `P`, whatever the node answers.
pub record Closed (P : Log → Type 0) (p : Call → Bool) : Type 0 where
  pub step : (c : Call) (r : Result Text Value) (l : Log) → p c ≡ true → P l → P (event c r ∷ l)

module _ {P : Log → Type 0} {p : Call → Bool} (closed : Closed P p) where
  pub Keeps-perform : (c : Call) → p c ≡ true → Keeps P (perform c)
  unfolding perform
  Keeps-perform c h = record { at = λ w old. closed.step c (w.node w.log c) w.log h old }

  pub Keeps-command : (c : Call) → p c ≡ true → Keeps P (command c)
  unfolding command
  Keeps-command c h = Keeps-bind (perform c) (λ _. pure tt) (Keeps-perform c h) (λ _. Keeps-pure tt)

  pub Keeps-ask : (c : Call) → p c ≡ true → Keeps P (ask c)
  unfolding ask
  Keeps-ask c h = Keeps-bind (perform c) _ (Keeps-perform c h) (λ v. Keeps-pure _)

  pub Keeps-read : (c : Call) → p c ≡ true → Keeps P (read c)
  unfolding read
  Keeps-read c h = Keeps-bind (perform c) _ (Keeps-perform c h) (λ v. Keeps-pure _)

  pub Keeps-count : (c : Call) → p c ≡ true → Keeps P (count c)
  unfolding count
  Keeps-count c h = Keeps-bind (perform c) _ (Keeps-perform c h) (λ v. Keeps-pure _)

  pub Keeps-read_content : (f : FilePath) → p (Call.read_file f) ≡ true → Keeps P (read_content f)
  unfolding read_content
  Keeps-read_content f h =
      Keeps-bind (perform (Call.read_file f)) _ (Keeps-perform (Call.read_file f) h)
        (λ v. Keeps-pure _)

  pub Keeps-remove_if_there :
      (f : FilePath) → p (Call.remove f) ≡ true → Keeps P (remove_if_there f)
  unfolding remove_if_there
  Keeps-remove_if_there f h = record { at = (Keeps-perform (Call.remove f) h).at }

pub ruleset call_rules = (
  keeps_rules, Keeps-perform, Keeps-command, Keeps-ask, Keeps-read, Keeps-count, Keeps-read_content,
  Keeps-remove_if_there, refl,
)
