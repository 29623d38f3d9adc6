-- ===== src/Quadlet/Policy.antt =====
-- The node-local policy on image references and registries (internal/quadlet/renderer.go).
use admiral_fleet.Prelude.{
  Text, codes, Bool, true, List, [], ◌∷◌, Option, none, some, if◌then◌else◌, ◌&&◌, ◌||◌, not, ◌==◌,
  contains, is_empty, eq_text, any_of, to_lower, trim_space,
}

pub data PolicyError : Type 0 where
  empty_reference no_tag latest_tag registry_not_allowed invalid_host : PolicyError

-- What follows the last `/`, in which the tag is looked for: `lastColon > lastSlash`.
unfoldable pub after_last_slash : Text → Text
after_last_slash [] = []
after_last_slash (c ∷ s) =
    let rest = after_last_slash s in if contains (c ∷ s) (b'/' ∷ []) then rest else c ∷ s

-- `image[lastColon+1:]` of a text without `/`; `none` if it has no colon.
unfoldable pub after_last_colon : Text → Option Text
after_last_colon [] = none
after_last_colon (c ∷ s) =
    let rest = after_last_colon s in
    elim rest [ some t ↦ some t | none ↦ if c == b':' then some s else none ]

-- `image[:slash]`, and `none` if there is no slash.
unfoldable pub before_slash : Text → Option Text
before_slash [] = none
before_slash (c ∷ s) =
    let rest = before_slash s in
    if c == b'/' then some [] else elim rest [ some t ↦ some (c ∷ t) | none ↦ none ]

abbrev docker_hub : Text
docker_hub = codes "docker.io"

abbrev default_host : Option Text → Text
default_host none = docker_hub
default_host (some h) =
    if not (contains h (codes "."))
      && not (contains h (codes ":"))
      && not (eq_text h (codes "localhost"))
    then docker_hub
    else h

-- The registry that an image reference names.
unfoldable pub registry_of : Text → Text
unfolding before_slash
registry_of image = default_host (before_slash image)

-- `_, ok := allowed[host]`, where an empty set allows every registry.
unfoldable pub is_allowed : Text → List Text → Bool
is_allowed host [] = true
is_allowed host (a ∷ allowed) = any_of (λ x. eq_text x host) (a ∷ allowed)

abbrev check_tag : Option Text → Option PolicyError
check_tag none = some no_tag
check_tag (some tag) = if eq_text (to_lower tag) (codes "latest") then some latest_tag else none

-- The part of the policy on mutable references.
unfoldable pub check_mutable : Bool → Text → Option PolicyError
unfolding after_last_slash after_last_colon
check_mutable allow_mutable image =
    if not allow_mutable && not (contains image (codes "@sha256:"))
    then check_tag (after_last_colon (after_last_slash image))
    else none

abbrev check_registry : Text → List Text → Option PolicyError
check_registry host allowed = if is_allowed host allowed then none else some registry_not_allowed

-- `ValidateImageReference`; `none` means that the image is accepted.
unfoldable pub validate_image_reference : Text → List Text → Bool → Option PolicyError
unfolding check_mutable registry_of is_allowed
validate_image_reference value allowed allow_mutable =
    let image = trim_space value in
    if is_empty image then some empty_reference else elim (check_mutable allow_mutable image) [
      | some e ↦ some e
      | none ↦ check_registry (to_lower (registry_of image)) allowed
    ]

-- `ValidateRegistryHost`
unfoldable pub validate_registry_host : Text → List Text → Option PolicyError
unfolding is_allowed
validate_registry_host value allowed =
    let host = to_lower (trim_space value) in
    if is_empty host || contains host (codes "/") || contains host (codes "://")
    then some invalid_host
    else check_registry host allowed
