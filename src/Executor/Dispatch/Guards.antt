-- ===== src/Executor/Dispatch/Guards.antt =====
-- The two executors beside each other.
use admiral_fleet.Prelude.{Text, Bool, false, ◌≡◌, refl, ◌&&◌, eq_text, Bool-cases, inl, inr}
use admiral_fleet.Fleet.Task.{FleetTask}
use admiral_fleet.Fleet.Effects.{World}
use admiral_fleet.Executor.Report.{failing, succeeding}
use admiral_fleet.Executor.Dispatch.{
  Handlers, Settings, is_allowed_action, execute_simulated, execute,
}

-- A task for this node with an action that the fleet knows.
abbrev pub is_for : FleetTask → Text → Bool
is_for task node_id = eq_text task.node_id node_id && is_allowed_action task.action

-- A task that the simulated executor refuses is refused by the real one with the same result and
-- without a call, and the simulated executor refuses no task of this node with a known action.
pub refusals_agree :
    (h : Handlers) (s : Settings) (task : FleetTask) (node_id : Text) (w : World)
    → ((execute_simulated task node_id).success ≡ is_for task node_id)
      × ((execute_simulated task node_id).success ≡ false
          → execute h s task node_id w ≡ (execute_simulated task node_id, w))
unfolding execute execute_simulated failing succeeding
refusals_agree h s task node_id w = elim (Bool-cases (eq_text task.node_id node_id)) [
  | inr other ↦ rw other (refl, λ _. refl)
  | inl here ↦ elim (Bool-cases (is_allowed_action task.action)) [
    | inr unknown ↦ rw (here, unknown) (refl, λ _. refl)
    | inl known ↦ rw (here, known) (refl, λ e. absurd (cc e))
  ]
]
