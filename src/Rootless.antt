-- ===== src/Rootless.antt =====
-- The two rootless helpers: which one a Podman operation is sent to (internal/podman/remote_runner.go),
-- and what a helper accepts (internal/helper/server.go, cmd/admiral-fleet-lifecycle,
-- cmd/admiral-fleet-setup).
pub mod Agreement
use admiral_fleet.Prelude.{
  Text, ℕ, ◌==◌, ◌^◌, codes, leb, Bool, true, false, not, ◌||◌, List, [], ◌∷◌, any_of, eq_text,
  trim_space, if◌then◌else◌, Option, none, some,
}
use admiral_fleet.Security.{Refusal, validate_exec_params}

pub data Helper : Type 0 where
  setup lifecycle : Helper

abbrev pub setup_operations : List Text
setup_operations = codes "exec" ∷ codes "cp" ∷ codes "run" ∷ codes "login" ∷ codes "secret" ∷ []

abbrev pub lifecycle_operations : List Text
lifecycle_operations =
    codes "version"
    ∷ codes "port"
    ∷ codes "pod"
    ∷ codes "ps"
    ∷ codes "container"
    ∷ codes "volume"
    ∷ codes "rm"
    ∷ codes "pull"
    ∷ codes "unshare"
    ∷ []

abbrev pub is_among : List Text → Text → Bool
is_among operations op = any_of (λ o. eq_text o op) operations

-- `helperFor`, by the helper whose path it gives; `none` is an error.
unfoldable pub helper_for : List Text → Option Helper
helper_for [] = none
helper_for (op ∷ args) =
    if is_among setup_operations op
    then some setup
    else if is_among lifecycle_operations op
    then some lifecycle
    else none

-- The arguments of `helper.Serve` in the two commands.
abbrev pub allowed_operations : Helper → List Text
allowed_operations setup =
    codes "exec" ∷ codes "cp" ∷ codes "run" ∷ codes "login" ∷ codes "secret" ∷ []
allowed_operations lifecycle =
    codes "version"
    ∷ codes "port"
    ∷ codes "pod"
    ∷ codes "ps"
    ∷ codes "container"
    ∷ codes "volume"
    ∷ codes "rm"
    ∷ codes "pull"
    ∷ codes "unshare"
    ∷ []

abbrev pub trusted_operations : Helper → List Text
trusted_operations setup = codes "exec" ∷ codes "run" ∷ []
trusted_operations lifecycle = codes "unshare" ∷ []

-- `rootlessprotocol.Request`
pub record Request : Type 0 where
  pub version : ℕ
  pub name : Text
  pub args : List Text

pub data ServeError : Type 0 where
  no_header too_large unparsable unsupported_version unsupported_executable not_allowed : ServeError
  refused_args : Refusal → ServeError

-- What `Serve` decides: an error, or a run of an executable with arguments that is trusted or not.
pub data Decision : Type 0 where
  reject : ServeError → Decision
  run_trusted run_checked : Text → List Text → Decision

abbrev pub checked : Text → List Text → Option Refusal → Decision
checked name args (some r) = reject (refused_args r)
checked name args none = run_checked name args

-- The gate on the arguments.
unfoldable pub decide : Helper → Text → List Text → Decision
unfolding validate_exec_params trim_space
decide h name [] = reject not_allowed
decide h name (op ∷ args) =
    if not (is_among (allowed_operations h) (trim_space op))
    then reject not_allowed
    else if is_among (trusted_operations h) (trim_space op)
    then run_trusted name (op ∷ args)
    else checked name (op ∷ args) (validate_exec_params name (op ∷ args))

abbrev pub check_request : Helper → Option Request → Decision
check_request h none = reject unparsable
check_request h (some r) =
    if not (r.version == 2)
    then reject unsupported_version
    else if not (eq_text r.name (codes "podman"))
    then reject unsupported_executable
    else decide h r.name r.args

-- `Serve`, from the header: its length, and the request that it parses to. `none` is a failed read.
unfoldable pub serve : Helper → Option (ℕ × Option Request) → Decision
unfolding decide
serve h none = reject no_header
serve h (some (length, request)) =
    if leb (2 ^ 30) length then reject too_large else check_request h request
