-- ===== src/Rootless/Agreement.antt =====
-- The runner and the helpers agree on who runs what.
use admiral_fleet.Prelude.{
  Text, ℕ, codes, Bool, true, false, ◌≡◌, ◌≢◌, refl, subst, some-injective, List, [], ◌∷◌, All,
  eq_text, eq_text_iff, trim_space, trim_left, if◌then◌else◌, Option, none, some, Bool-cases, inl,
  inr, ◌==◌, leb, ◌^◌,
}
use admiral_fleet.Security.{Refusal, validate_exec_params}
use admiral_fleet.Rootless.{
  Helper, setup, lifecycle, setup_operations, lifecycle_operations, is_among, helper_for,
  allowed_operations, trusted_operations, Request, ServeError, Decision, reject, run_trusted,
  run_checked, not_allowed, decide, checked, check_request, serve,
}

abbrev pub other_helper : Helper → Helper
other_helper setup = lifecycle
other_helper lifecycle = setup

-- What holds of each operation of a list holds of one that is among them.
among_elim :
    (P : Text → Type 0) (operations : List Text) (op : Text)
    → All P operations
    → is_among operations op ≡ true
    → P op
among_elim P [] op a h = absurd (cc h)
among_elim P (o ∷ operations) op a h = elim (Bool-cases (eq_text o op)) [
  | inl same ↦ subst P ((eq_text_iff o op).0 same) a.0
  | inr other ↦ among_elim P operations op a.1 (rw other at h)
]

-- One helper allows the operation and the other does not.
abbrev Belongs : Helper → Text → Type 0
Belongs h op =
    (is_among (allowed_operations h) (trim_space op) ≡ true)
    × (is_among (allowed_operations (other_helper h)) (trim_space op) ≡ false)

setup-Belongs : All (Belongs setup) setup_operations
unfolding trim_space trim_left eq_text
setup-Belongs = ((refl, refl), ((refl, refl), ((refl, refl), ((refl, refl), ((refl, refl), tt)))))

lifecycle-Belongs : All (Belongs lifecycle) lifecycle_operations
unfolding trim_space trim_left eq_text
lifecycle-Belongs = (
  (refl, refl),
  (
    (refl, refl),
    (
      (refl, refl),
      (
        (refl, refl),
        ((refl, refl), ((refl, refl), ((refl, refl), ((refl, refl), ((refl, refl), tt))))),
      ),
    ),
  ),
)

helper_for-Belongs :
    (h : Helper) (op : Text) (args : List Text) → helper_for (op ∷ args) ≡ some h → Belongs h op
unfolding helper_for
helper_for-Belongs h op args e = elim (Bool-cases (is_among setup_operations op)) [
  | inl of_setup ↦
      subst (λ x. Belongs x op) (some-injective setup h (rw of_setup at e))
        (among_elim (Belongs setup) setup_operations op setup-Belongs of_setup)
  | inr not_setup ↦ elim (Bool-cases (is_among lifecycle_operations op)) [
    | inl of_lifecycle ↦
        subst (λ x. Belongs x op) (some-injective lifecycle h (rw (not_setup, of_lifecycle) at e))
          (among_elim (Belongs lifecycle) lifecycle_operations op lifecycle-Belongs of_lifecycle)
    | inr of_none ↦ absurd (cc (rw (not_setup, of_none) at e))
  ]
]

-- The decision on an operation that is allowed.
allowed_decision :
    (trusted : Bool) (name : Text) (args : List Text) (o : Option Refusal)
    → (if trusted then run_trusted name args else checked name args o) ≢ reject not_allowed
allowed_decision true name args o e = absurd (cc e)
allowed_decision false name args none e = absurd (cc e)
allowed_decision false name args (some r) e = absurd (cc e)

-- The helper that `helperFor` chooses for an operation does not refuse it as not allowed, and the
-- other helper does, whatever the arguments are.
pub helpers_agree :
    (h : Helper) (args : List Text) (name : Text)
    → helper_for args ≡ some h
    → (decide h name args ≢ reject not_allowed)
      × (decide (other_helper h) name args ≡ reject not_allowed)
unfolding decide helper_for
helpers_agree h [] name e = absurd (cc e)
helpers_agree h (op ∷ args) name e =
    let (here, there) = helper_for-Belongs h op args e in
    (
      rw here
          (allowed_decision (is_among (trusted_operations h) (trim_space op)) name (op ∷ args) _),
      rw there refl,
    )

-- What a decision to run rests on: the executable is Podman, and the operation is a trusted one, or an
-- allowed one with arguments that are accepted for Podman.
pub data Justified (h : Helper) : Decision → Type 0 where
  rejected : (e : ServeError) → Justified h (reject e)
  trusted :
      (name op : Text) (args : List Text)
      → name ≡ codes "podman"
      → is_among (trusted_operations h) (trim_space op) ≡ true
      → Justified h (run_trusted name (op ∷ args))
  validated :
      (name op : Text) (args : List Text)
      → name ≡ codes "podman"
      → is_among (allowed_operations h) (trim_space op) ≡ true
      → validate_exec_params name (op ∷ args) ≡ none
      → Justified h (run_checked name (op ∷ args))

checked-Justified :
    (h : Helper) (name op : Text) (args : List Text) (o : Option Refusal)
    → name ≡ codes "podman"
    → is_among (allowed_operations h) (trim_space op) ≡ true
    → validate_exec_params name (op ∷ args) ≡ o
    → Justified h (checked name (op ∷ args) o)
checked-Justified h name op args (some r) p a e = rejected _
checked-Justified h name op args none p a e = validated name op args p a e

decide-Justified :
    (h : Helper) (name : Text) (args : List Text)
    → name ≡ codes "podman"
    → Justified h (decide h name args)
unfolding decide
decide-Justified h name [] p = rejected _
decide-Justified h name (op ∷ args) p =
    elim (Bool-cases (is_among (allowed_operations h) (trim_space op))) [
      | inr other ↦ rw other (rejected _)
      | inl allowed ↦ elim (Bool-cases (is_among (trusted_operations h) (trim_space op))) [
        | inl known ↦ rw (allowed, known) (trusted name op args p known)
        | inr unknown ↦ rw (allowed, unknown) (checked-Justified h name op args _ p allowed refl)
      ]
    ]

check_request-Justified :
    (h : Helper) (request : Option Request) → Justified h (check_request h request)
check_request-Justified h none = rejected _
check_request-Justified h (some r) = elim (Bool-cases (r.version == 2)) [
  | inr other ↦ rw other (rejected _)
  | inl current ↦ elim (Bool-cases (eq_text r.name (codes "podman"))) [
    | inr unknown ↦ rw (current, unknown) (rejected _)
    | inl podman ↦
        rw (current, podman)
          (decide-Justified h r.name r.args ((eq_text_iff r.name (codes "podman")).0 podman))
  ]
]

-- Whatever a helper reads, it runs only Podman, and only an operation of its trusted ones, or an
-- allowed one whose arguments the validator accepts.
pub served_requests :
    (h : Helper) (header : Option (ℕ × Option Request)) → Justified h (serve h header)
unfolding serve
served_requests h none = rejected _
served_requests h (some (length, request)) = elim (Bool-cases (leb (2 ^ 30) length)) [
  | inl large ↦ rw large (rejected _)
  | inr small ↦ rw small (check_request-Justified h request)
]
