-- ===== src/Tests/Names.antt =====
-- Identifiers, names, the manager of units and the helpers at concrete inputs.
use admiral_fleet.Prelude.{
  ◌∷◌, true, [], eq_text, ℕ, ◌+◌, ◌≤◌, codes, ◌≡◌, ◌↔◌, refl, none, [], trim_space, trim_left,
}
use admiral_fleet.Fleet.Effects.{err}
use admiral_fleet.Security.{validate_instance_id, validate_operation_id, validate_backup_id}
use admiral_fleet.Security.Identifiers.{StaysInside, accepted_identifiers}
use admiral_fleet.Quadlet.Names.{
  safe_name, volume_name, shared_volume_name, container_name, safe_char, is_safe, pod_name,
}
use admiral_fleet.Quadlet.Names.Safe.{Safe, safe_name-Safe}
use admiral_fleet.Systemd.Manager.{Manager, start, daemon_reload}
use admiral_fleet.Systemd.Manager.Retries.{count_of, is_start, is_reload, retries_are_bounded}
use admiral_fleet.Rootless.{
  Request, setup, lifecycle, decide, serve, helper_for, reject, not_allowed,
}
use admiral_fleet.Rootless.Agreement.{Justified, helpers_agree, served_requests}
use admiral_fleet.Executor.Limits.{
  has_valid_task_memory_limit, limit_with_unit, is_float, is_fraction, is_exponent, after_digits,
}
use admiral_fleet.Prelude.{◌≢◌, Option, some, to_lower, lower, has_suffix, has_prefix}

accepted_identifiers_example :
    (validate_instance_id (codes "inst-1") ≡ none → StaysInside (codes "inst-1"))
    × (validate_operation_id (codes "inst-1") ≡ none → StaysInside (codes "inst-1"))
    × (validate_backup_id (codes "inst-1") ≡ none → StaysInside (codes "inst-1"))
accepted_identifiers_example = accepted_identifiers (codes "inst-1")

safe_name-Safe_example :
    Safe (safe_name (codes " my app/1 "))
    × ((safe_name (codes " my app/1 ") ≡ codes " my app/1 ") ↔ Safe (codes " my app/1 "))
safe_name-Safe_example = safe_name-Safe (codes " my app/1 ")

-- A volume of the service `shared-data` and the shared volume `data` have one name.
shared_volume_collision :
    volume_name (codes "a") (codes "shared-data") ≡ shared_volume_name (codes "a") (codes "data")
unfolding volume_name shared_volume_name pod_name safe_name safe_char is_safe trim_space trim_left
shared_volume_collision = refl

-- The service `b-c` of the instance `a` and the service `c` of the instance `a-b` have one name.
container_collision :
    container_name (codes "a") (codes "b-c") ≡ container_name (codes "a-b") (codes "c")
unfolding container_name pod_name safe_name safe_char is_safe trim_space trim_left
container_collision = refl

-- A manager that never finds the unit.
abbrev lost : Manager
lost = record { runner = λ ran c. err (codes "Unit app not found"); run_as_user = codes "admiral" }

retries_are_bounded_example :
    (count_of is_start (start lost (codes "app") []).1 ≤ 2 + 0)
    × (count_of is_reload (start lost (codes "app") []).1 ≤ 2 + 0)
    × (count_of is_reload (daemon_reload lost []).1 ≤ 2 + 0)
retries_are_bounded_example = retries_are_bounded lost (codes "app") []

helpers_agree_example :
    (decide lifecycle (codes "podman") (codes "rm" ∷ codes "-f" ∷ []) ≢ reject not_allowed)
    × (decide setup (codes "podman") (codes "rm" ∷ codes "-f" ∷ []) ≡ reject not_allowed)
unfolding helper_for eq_text
helpers_agree_example = helpers_agree lifecycle (codes "rm" ∷ codes "-f" ∷ []) (codes "podman") refl

abbrev listing : Option (ℕ × Option Request)
listing = some (40, some (record { version = 2; name = codes "podman"; args = codes "ps" ∷ [] }))

served_requests_example : Justified lifecycle (serve lifecycle listing)
served_requests_example = served_requests lifecycle listing

-- Negative numbers and NaN count as memory limits.
odd_memory_limits :
    (has_valid_task_memory_limit (codes "-5m") ≡ true)
    × (has_valid_task_memory_limit (codes "nang") ≡ true)
unfolding has_valid_task_memory_limit limit_with_unit is_float is_fraction is_exponent after_digits
    to_lower lower trim_space trim_left eq_text has_suffix has_prefix
odd_memory_limits = (refl, refl)
