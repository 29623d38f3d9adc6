-- ===== src/Agent/Health/Settling.antt =====
-- When the watch lets pods be checked, and when it invalidates their health.
use admiral_fleet.Prelude.{
  Bool, true, false, ◌&&◌, ◌≡◌, refl, eq_text, eq_text_refl, Option, none, some, Bool-cases, inl,
  inr,
}
use admiral_fleet.Agent.Health.{ManagerStatus, Watch, is_running, observe_manager}

-- The reading is of a running manager with the process that the watch knows.
abbrev pub is_same_manager : Watch → Option ManagerStatus → Bool
is_same_manager w none = false
is_same_manager w (some s) = is_running s && (w.available && eq_text s.pid w.status.pid)

-- What the second of two observations of one reading gives: a check if the manager runs.
abbrev pub is_up : Option ManagerStatus → Bool
is_up none = false
is_up (some s) = is_running s

-- An observation lets pods be checked exactly when the manager runs and is the process that the
-- watch knew to be available, and then it sends no invalidation. A second observation of the same
-- reading sends nothing more and leaves the watch as it is, and it lets pods be checked exactly when
-- the manager runs.
pub observations_settle :
    (w : Watch) (r : Option ManagerStatus)
    → ((observe_manager w r).0 ≡ is_same_manager w r)
      × ((observe_manager w r).0 ≡ true → (observe_manager w r).1 ≡ none)
      × (observe_manager (observe_manager w r).2 r ≡ (is_up r, none, (observe_manager w r).2))
unfolding observe_manager
observations_settle w none = (refl, (λ h. absurd (cc h)), refl)
observations_settle w (some s) = elim (Bool-cases (is_running s)) [
  | inr down ↦ elim (Bool-cases w.available) [
    | inl known ↦ rw (down, known) (refl, (λ h. absurd (cc h)), refl)
    | inr lost ↦ rw (down, lost) (refl, (λ h. absurd (cc h)), refl)
  ]
  | inl running ↦ elim (Bool-cases w.available) [
    | inr lost ↦ rw (running, lost) (refl, (λ h. absurd (cc h)), rw (eq_text_refl s.pid) refl)
    | inl known ↦ elim (Bool-cases (eq_text s.pid w.status.pid)) [
      | inr other ↦
          rw (running, known, other) (refl, (λ h. absurd (cc h)), rw (eq_text_refl s.pid) refl)
      | inl same ↦ rw (running, known, same) (refl, (λ h. refl), rw (eq_text_refl s.pid) refl)
    ]
  ]
]
