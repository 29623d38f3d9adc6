-- ===== src/Quadlet/Values.antt =====
-- The values that the renderer writes into units and environment files
-- (internal/quadlet/renderer.go). A text is a list of code points.
pub mod OneLine
use admiral_fleet.Prelude.{
  Text, ℕ, codes, Bool, true, false, List, [], ◌∷◌, ◌++◌, map, not, ◌&&◌, ◌||◌, ◌==◌, leb,
  if◌then◌else◌, any_of, contains, eq_text, has_suffix, is_empty, take, length, ◌-◌, to_lower,
  to_upper, trim_space,
}
use admiral_fleet.Fleet.Task.{ServiceInfo}

-- Line breaks become spaces, and null bytes go.
unfoldable pub unbroken : Text → Text
unbroken [] = []
unbroken (c ∷ s) =
    let rest = unbroken s in
    if c == 10 || c == 13 then 32 ∷ rest else if c == 0 then rest else c ∷ rest

-- Printable ASCII but for the backslash, the backtick and the dollar.
unfoldable pub is_plain : ℕ → Bool
is_plain c = leb 32 c && leb c 126 && not (c == 92) && not (c == 96) && not (c == 36)

unfoldable pub plain_char : ℕ → ℕ
unfolding is_plain
plain_char c = if is_plain c then c else b'-'

-- `sanitizeQuadletValue`
unfoldable pub sanitize_quadlet_value : Text → Text
unfolding unbroken
sanitize_quadlet_value value = map plain_char (unbroken value)

-- What the replacer of `sanitizeEnvValue` writes for a character.
unfoldable pub escape_char : ℕ → Text
escape_char c =
    if c == 10
    then 92 ∷ b'n' ∷ []
    else if c == 13
    then 92 ∷ b'r' ∷ []
    else if c == 0
    then []
    else if c == 92 || c == 34 || c == 36
    then 92 ∷ c ∷ []
    else c ∷ []

-- `sanitizeEnvValue`
unfoldable pub sanitize_env_value : Text → Text
unfolding escape_char
sanitize_env_value [] = []
sanitize_env_value (c ∷ s) = escape_char c ++ sanitize_env_value s

-- `isSensitiveEnvName`
unfoldable pub is_sensitive_env_name : Text → Bool
unfolding contains to_upper
is_sensitive_env_name name =
    any_of (λ word. contains (to_upper name) word)
      (codes "SECRET" ∷ codes "PASSWORD" ∷ codes "TOKEN" ∷ codes "KEY" ∷ codes "CREDENTIAL" ∷ [])

-- `value[:len(value)-n] + unit`
abbrev with_unit : ℕ → Text → Text → Text
with_unit n unit value = take (length value - n) value ++ unit

-- `formatMemoryLimit`
unfoldable pub format_memory_limit : Text → Text
unfolding has_suffix to_lower trim_space
format_memory_limit text =
    let value = trim_space text in
    let lower = to_lower value in
    if is_empty value
    then []
    else if has_suffix lower (codes "mib")
    then with_unit 3 (codes "m") value
    else if has_suffix lower (codes "mi")
    then with_unit 2 (codes "m") value
    else if has_suffix lower (codes "mb")
    then with_unit 2 (codes "m") value
    else if has_suffix lower (codes "gib")
    then with_unit 3 (codes "g") value
    else if has_suffix lower (codes "gi")
    then with_unit 2 (codes "g") value
    else if has_suffix lower (codes "gb")
    then with_unit 2 (codes "g") value
    else value

-- `defaultVolumeTarget`
unfoldable pub default_volume_target : ServiceInfo → Text
unfolding contains to_lower eq_text
default_volume_target svc =
    let img = to_lower svc.image in
    if contains img (codes "postgres")
    then codes "/var/lib/postgresql/data"
    else if contains img (codes "mariadb") || contains img (codes "mysql")
    then codes "/var/lib/mysql"
    else if contains img (codes "wordpress")
    then codes "/var/www/html/wp-content"
    else if eq_text svc.name (codes "db")
    then codes "/var/lib/postgresql/data"
    else codes "/data"
