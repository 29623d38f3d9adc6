-- ===== src/Executor/Limits.antt =====
-- `hasValidTaskMemoryLimit` (executor_helpers.go): a number with one of the units that are known.
use admiral_fleet.Prelude.{
  Text, ◌-◌, codes, Bool, true, false, List, [], ◌∷◌, ◌&&◌, ◌||◌, is_empty, is_digit, ◌==◌,
  if◌then◌else◌, eq_text, has_suffix, trim_space, to_lower, length, take,
}

-- An optional sign.
abbrev unsigned : Text → Text
unsigned [] = []
unsigned (c ∷ s) = if c == b'+' || c == b'-' then s else c ∷ s

-- What follows the leading digits, and whether there were any.
unfoldable pub after_digits : Bool → Text → Bool × Text
after_digits seen [] = (seen, [])
after_digits seen (c ∷ s) =
    let more = after_digits true s in if is_digit c then more else (seen, c ∷ s)

-- An exponent, or nothing.
unfoldable pub is_exponent : Text → Bool
unfolding after_digits
is_exponent [] = true
is_exponent (c ∷ s) =
    let (some_digit, rest) = after_digits false (unsigned s) in
    c == b'e' && some_digit && is_empty rest

-- A fraction and an exponent, after digits if `seen`.
unfoldable pub is_fraction : Bool → Text → Bool
unfolding is_exponent after_digits
is_fraction seen [] = seen
is_fraction seen (c ∷ s) =
    if c == b'.'
    then (let (some_digit, rest) = after_digits seen s in some_digit && is_exponent rest)
    else seen && is_exponent (c ∷ s)

-- The texts in lower case that `strconv.ParseFloat` accepts: decimal notation, infinities and NaN.
-- Hexadecimal notation and numbers out of range are left out.
unfoldable pub is_float : Text → Bool
unfolding is_fraction after_digits
is_float s =
    let (seen, rest) = after_digits false (unsigned s) in
    is_fraction seen rest
    || eq_text (unsigned s) (codes "inf")
    || eq_text (unsigned s) (codes "infinity")
    || eq_text s (codes "nan")

-- The units in the order in which the loop tries them.
abbrev pub units : List Text
units =
    codes "kib"
    ∷ codes "kb"
    ∷ codes "ki"
    ∷ codes "k"
    ∷ codes "mib"
    ∷ codes "mb"
    ∷ codes "mi"
    ∷ codes "m"
    ∷ codes "gib"
    ∷ codes "gb"
    ∷ codes "gi"
    ∷ codes "g"
    ∷ codes "tib"
    ∷ codes "tb"
    ∷ codes "ti"
    ∷ codes "t"
    ∷ []

-- `value[:len(value)-len(unit)]`
abbrev without_unit : Text → Text → Text
without_unit value unit = take (length value - length unit) value

-- The loop: the first unit that is a suffix decides.
unfoldable pub limit_with_unit : List Text → Text → Bool
unfolding is_float
limit_with_unit [] value = false
limit_with_unit (unit ∷ rest) value =
    let later = limit_with_unit rest value in
    let num = trim_space (without_unit value unit) in
    if has_suffix value unit then (if is_empty num then false else is_float num) else later

-- `hasValidTaskMemoryLimit`
unfoldable pub has_valid_task_memory_limit : Text → Bool
unfolding limit_with_unit
has_valid_task_memory_limit value =
    let v = trim_space (to_lower value) in if is_empty v then false else limit_with_unit units v
