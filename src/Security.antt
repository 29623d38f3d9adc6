-- ===== src/Security.antt =====
-- internal/security/sanitize.go: the validators of arguments and of identifiers.
pub mod Identifiers
use admiral_fleet.Prelude.{
  Text, codes, List, [], ◌∷◌, ◌||◌, Option, none, some, if◌then◌else◌, contains, contains_any,
  is_empty,
}

-- The reasons for which a validator refuses.
pub data Refusal : Type 0 where
  empty traversal separator null_byte : Refusal
  metacharacter substitution : Refusal

-- `strings.ContainsAny(id, "\x00")`
abbrev nul : Text
nul = 0 ∷ []

-- The slash and the backslash.
abbrev pub separators : Text
separators = b'/' ∷ 92 ∷ []

-- The common body of `ValidateInstanceID`, `ValidateOperationID` and `ValidateBackupID`, which the
-- source repeats: `none` means that the identifier is accepted.
unfoldable pub validate_id : Text → Option Refusal
validate_id id =
    if is_empty id
    then some empty
    else if contains id (codes "..")
    then some traversal
    else if contains_any id separators
    then some separator
    else if contains_any id nul
    then some null_byte
    else none

unfoldable pub validate_instance_id : Text → Option Refusal
unfolding validate_id
validate_instance_id id = validate_id id

unfoldable pub validate_operation_id : Text → Option Refusal
unfolding validate_id
validate_operation_id id = validate_id id

unfoldable pub validate_backup_id : Text → Option Refusal
unfolding validate_id
validate_backup_id id = validate_id id

-- The test of one argument in `ValidateExecParams`.
unfoldable pub validate_exec_arg : Text → Option Refusal
validate_exec_arg arg =
    if contains_any arg (b';' ∷ b'|' ∷ 10 ∷ [])
    then some metacharacter
    else if contains arg (codes "$(") || contains arg (codes "`")
    then some substitution
    else none

-- The loop over the arguments stops at the first that is refused.
unfoldable pub validate_exec_args : List Text → Option Refusal
unfolding validate_exec_arg
validate_exec_args [] = none
validate_exec_args (arg ∷ args) =
    let rest = validate_exec_args args in
    elim (validate_exec_arg arg) [ some r ↦ some r | none ↦ rest ]

-- `ValidateExecParams`
unfoldable pub validate_exec_params : Text → List Text → Option Refusal
unfolding validate_exec_args
validate_exec_params name args =
    if is_empty name
    then some empty
    else if contains_any name separators
    then some separator
    else validate_exec_args args

-- The test of one argument in `ValidateRunArgs`.
unfoldable pub validate_run_arg : Text → Option Refusal
validate_run_arg arg =
    if contains_any arg (b';' ∷ b'|' ∷ 10 ∷ [])
    then some metacharacter
    else if contains arg (codes "$(") || contains arg (codes "`")
    then some substitution
    else if contains arg (codes "..")
    then some traversal
    else none

-- `ValidateRunArgs`
unfoldable pub validate_run_args : List Text → Option Refusal
unfolding validate_run_arg
validate_run_args [] = none
validate_run_args (arg ∷ args) =
    let rest = validate_run_args args in
    elim (validate_run_arg arg) [ some r ↦ some r | none ↦ rest ]
