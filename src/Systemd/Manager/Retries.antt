-- ===== src/Systemd/Manager/Retries.antt =====
-- The retries of `Manager` end, and a success is one of the unit's start.
use admiral_fleet.Prelude.{
  arith, Text, ℕ, ◌+◌, ◌≤◌, codes, Bool, true, false, ◌≡◌, refl, List, [], ◌∷◌, if◌then◌else◌,
  is_empty, is_blank, drop, eq_text, Bool-cases, inl, inr,
}
use admiral_fleet.Fleet.Effects.{Result, ok, err}
use admiral_fleet.Systemd.Manager.{
  Command, process, pause, Ran, Manager, Method, issue, proceed, and_then, user_command,
  run_as_user_command, linger_command, ensure_linger_enabled, run_as_user, run,
  is_transient_reload_error, is_missing_unit_error, after_reload, reload_attempts,
  rootless_daemon_reload, daemon_reload, start_args, after_start, start_rootless, start,
}

-- How many commands of a log pass a test.
abbrev pub count_of : (Command → Bool) → List Ran → ℕ
count_of p [] = 0
count_of p (r ∷ ran) = (if p r.command then 1 else 0) + count_of p ran

-- A method runs at most `n` more commands that pass the test.
record AtMost (p : Command → Bool) (n : ℕ) (f : Method) : Type 0 where
  bound : (ran : List Ran) → count_of p (f ran).1 ≤ n + count_of p ran

module _ (p : Command → Bool) where
  AtMost-issue : (m : Manager) (c : Command) → AtMost p 1 (issue m c)
  unfolding issue
  AtMost-issue m c = record { bound = λ ran. ground arith }

  AtMost-issue_other : (m : Manager) (c : Command) → p c ≡ false → AtMost p 0 (issue m c)
  unfolding issue
  AtMost-issue_other m c h = record { bound = λ ran. ground arith }

  AtMost-more : (n k : ℕ) (f : Method) → n ≤ k → AtMost p n f → AtMost p k f
  AtMost-more n k f h a = record { bound = λ ran. omega (arith, h, a.bound ran) }

  AtMost-proceed :
      (n : ℕ) (r : Result Text Text) (next : Method) (ran : List Ran)
      → AtMost p n next
      → count_of p (proceed r next ran).1 ≤ n + count_of p ran
  AtMost-proceed n (ok out) next ran a = a.bound ran
  AtMost-proceed n (err e) next ran a = omega arith

  AtMost-and_then :
      (n k : ℕ) (f next : Method)
      → AtMost p n f
      → AtMost p k next
      → AtMost p (n + k) (and_then f next)
  unfolding and_then
  AtMost-and_then n k f next a b = record {
    bound = λ ran. omega (arith, a.bound ran, AtMost-proceed k (f ran).0 next (f ran).1 b);
  }

AtMost-if :
    (p : Command → Bool) (n : ℕ) (b : Bool) (f g : Method)
    → AtMost p n f
    → AtMost p n g
    → AtMost p n (if b then f else g)
AtMost-if p n true f g a c = a
AtMost-if p n false f g a c = c

-- The verb of a command for systemd: `systemctl VERB …`, or the same under `systemd-run`.
abbrev first_is : Text → List Text → Bool
first_is verb [] = false
first_is verb (a ∷ args) = eq_text a verb

abbrev pub is_verb : Text → Command → Bool
is_verb verb pause = false
is_verb verb (process name args) =
    first_is verb (if eq_text name (codes "systemctl") then args else drop 6 args)

abbrev pub is_start : Command → Bool
is_start = is_verb (codes "start")

abbrev pub is_reload : Command → Bool
is_reload = is_verb (codes "daemon-reload")

module _ (m : Manager) where
  AtMost-linger :
      (p : Command → Bool)
      → p (linger_command m.run_as_user) ≡ false
      → AtMost p 0 (ensure_linger_enabled m)
  unfolding ensure_linger_enabled
  AtMost-linger p h = elim (Bool-cases (is_blank m.run_as_user)) [
    | inl blank ↦ record { bound = λ ran. rw blank (omega arith) }
    | inr user ↦ record {
      bound = λ ran. rw user ((AtMost-issue_other p m (linger_command m.run_as_user) h).bound ran);
    }
  ]

  -- One command of systemd is one command that passes the test, or none if its verb does not.
  AtMost-run :
      (p : Command → Bool) (n : ℕ) (args : List Text)
      → p (linger_command m.run_as_user) ≡ false
      → ((ran : List Ran)
          → count_of p (issue m (process (codes "systemctl") args) ran).1 ≤ n + count_of p ran)
      → ((ran : List Ran) → count_of p (run_as_user_command m args ran).1 ≤ n + count_of p ran)
      → AtMost p n (run m args)
  unfolding run run_as_user
  AtMost-run p n args h k l = elim (Bool-cases (is_empty m.run_as_user)) [
    | inl system ↦ record { bound = λ ran. rw system (k ran) }
    | inr user ↦ record {
      bound = λ ran. rw user (
          (AtMost-more p (0 + n) n _ (omega arith) (
              AtMost-and_then p 0 n (ensure_linger_enabled m) (run_as_user_command m args)
                (AtMost-linger p h) (record { bound = l }))).bound
            ran);
    }
  ]

  run_start-starts : (unit : Text) → AtMost is_start 1 (run m (start_args unit))
  unfolding issue run_as_user_command user_command linger_command eq_text
  run_start-starts unit =
      AtMost-run is_start 1 (start_args unit) refl (λ ran. omega arith) (λ ran. omega arith)

  run_start-reloads : (unit : Text) → AtMost is_reload 0 (run m (start_args unit))
  unfolding issue run_as_user_command user_command linger_command eq_text
  run_start-reloads unit =
      AtMost-run is_reload 0 (start_args unit) refl (λ ran. omega arith) (λ ran. omega arith)

  run_reload-starts : AtMost is_start 0 (run m (codes "daemon-reload" ∷ []))
  unfolding issue run_as_user_command user_command linger_command eq_text
  run_reload-starts = AtMost-run is_start 0 _ refl (λ ran. omega arith) (λ ran. omega arith)

  run_reload-reloads : AtMost is_reload 1 (run m (codes "daemon-reload" ∷ []))
  unfolding issue run_as_user_command user_command linger_command eq_text
  run_reload-reloads = AtMost-run is_reload 1 _ refl (λ ran. omega arith) (λ ran. omega arith)

  -- A failure that is transient is followed by one more attempt.
  after_reload-AtMost :
      (p : Command → Bool) (n : ℕ) (again : Method) (r : Result Text Text)
      → p pause ≡ false
      → AtMost p n again
      → AtMost p n (after_reload m r again)
  after_reload-AtMost p n again (ok out) h a = record { bound = λ ran. omega arith }
  after_reload-AtMost p n again (err e) h a = elim (Bool-cases (is_transient_reload_error e)) [
    | inl transient ↦ record {
      bound = λ ran. rw transient (
          (AtMost-more p (0 + n) n _ (omega arith) (
              AtMost-and_then p 0 n (issue m pause) again (AtMost-issue_other p m pause h) a)).bound
            ran);
    }
    | inr fatal ↦ record { bound = λ ran. rw fatal (omega arith) }
  ]

  two_reloads-AtMost :
      (p : Command → Bool) (n : ℕ)
      → p pause ≡ false
      → AtMost p n (run_as_user_command m (codes "daemon-reload" ∷ []))
      → AtMost p (n + n) (reload_attempts m 1)
  unfolding reload_attempts
  two_reloads-AtMost p n h a = record {
    bound = λ ran.
        let first = run_as_user_command m (codes "daemon-reload" ∷ []) ran in
        omega (
          arith,
          a.bound ran,
          (after_reload-AtMost p n (run_as_user_command m (codes "daemon-reload" ∷ [])) first.0 h
                a).bound
              first.1,
        );
  }

  daemon_reload-AtMost :
      (p : Command → Bool) (n : ℕ)
      → p pause ≡ false
      → p (linger_command m.run_as_user) ≡ false
      → AtMost p n (run m (codes "daemon-reload" ∷ []))
      → AtMost p n (run_as_user_command m (codes "daemon-reload" ∷ []))
      → AtMost p (n + n) (daemon_reload m)
  unfolding daemon_reload rootless_daemon_reload
  daemon_reload-AtMost p n h k a b =
      AtMost-if p (n + n) (is_empty m.run_as_user) _ _ (AtMost-more p n (n + n) _ (omega arith) a) (
        AtMost-more p (0 + (n + n)) (n + n) _ (omega arith) (
          AtMost-and_then p 0 (n + n) (ensure_linger_enabled m) (reload_attempts m 1)
            (AtMost-linger p k) (two_reloads-AtMost p n h b)))

  after_start-AtMost :
      (p : Command → Bool) (n k : ℕ) (unit : Text) (r : Result Text Text)
      → AtMost p n (daemon_reload m)
      → AtMost p k (run m (start_args unit))
      → AtMost p (n + k) (after_start m unit r)
  after_start-AtMost p n k unit (ok out) a b = record { bound = λ ran. omega arith }
  after_start-AtMost p n k unit (err e) a b = elim (Bool-cases (is_missing_unit_error e)) [
    | inl missing ↦ record {
      bound = λ ran.
          rw missing
            ((AtMost-and_then p n k (daemon_reload m) (run m (start_args unit)) a b).bound ran);
    }
    | inr other ↦ record { bound = λ ran. rw other (omega arith) }
  ]

  start_rootless-AtMost :
      (p : Command → Bool) (n k : ℕ) (unit : Text)
      → AtMost p n (daemon_reload m)
      → AtMost p k (run m (start_args unit))
      → AtMost p (k + (n + k)) (start_rootless m unit)
  unfolding start_rootless
  start_rootless-AtMost p n k unit a b = record {
    bound = λ ran.
        let first = run m (start_args unit) ran in
        omega (arith, b.bound ran, (after_start-AtMost p n k unit first.0 a b).bound first.1);
  }

  start-AtMost :
      (p : Command → Bool) (n k : ℕ) (unit : Text)
      → AtMost p n (daemon_reload m)
      → AtMost p k (run m (start_args unit))
      → AtMost p (k + (n + k)) (start m unit)
  unfolding start
  start-AtMost p n k unit a b =
      AtMost-if p (k + (n + k)) (is_empty m.run_as_user) _ _
        (AtMost-more p k (k + (n + k)) _ (omega arith) b) (start_rootless-AtMost p n k unit a b)

  reload_once-reloads : AtMost is_reload 1 (run_as_user_command m (codes "daemon-reload" ∷ []))
  unfolding run_as_user_command user_command issue eq_text
  reload_once-reloads = record { bound = λ ran. omega arith }

  reload_once-starts : AtMost is_start 0 (run_as_user_command m (codes "daemon-reload" ∷ []))
  unfolding run_as_user_command user_command issue eq_text
  reload_once-starts = record { bound = λ ran. omega arith }

  daemon_reload-reloads : AtMost is_reload 2 (daemon_reload m)
  unfolding linger_command eq_text
  daemon_reload-reloads =
      daemon_reload-AtMost is_reload 1 refl refl run_reload-reloads reload_once-reloads

  daemon_reload-starts : AtMost is_start 0 (daemon_reload m)
  unfolding linger_command eq_text
  daemon_reload-starts =
      daemon_reload-AtMost is_start 0 refl refl run_reload-starts reload_once-starts

-- Whatever the runner answers, the start of a unit runs at most two start commands and at most two
-- reloads, and a reload by itself runs at most two reload commands.
pub retries_are_bounded :
    (m : Manager) (unit : Text) (ran : List Ran)
    → (count_of is_start (start m unit ran).1 ≤ 2 + count_of is_start ran)
      × (count_of is_reload (start m unit ran).1 ≤ 2 + count_of is_reload ran)
      × (count_of is_reload (daemon_reload m ran).1 ≤ 2 + count_of is_reload ran)
retries_are_bounded m unit ran = (
  (start-AtMost m is_start 0 1 unit (daemon_reload-starts m) (run_start-starts m unit)).bound ran,
  (start-AtMost m is_reload 2 0 unit (daemon_reload-reloads m) (run_start-reloads m unit)).bound
      ran,
  (daemon_reload-reloads m).bound ran,
)
