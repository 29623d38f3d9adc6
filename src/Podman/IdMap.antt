-- ===== src/Podman/IdMap.antt =====
-- The maps between the user ids of the host and those of a rootless container
-- (internal/podman/inspector.go). An id is a `uint64`.
pub mod Inverse
use admiral_fleet.Prelude.{
  Text, ℕ, zero, suc, ◌+◌, ◌-◌, ◌*◌, ◌%◌, ◌^◌, Bool, true, false, List, [], ◌∷◌, ◌++◌, Option, none,
  some, ℤ, pos, negsuc, ◌==◌, ◌&&◌, ◌||◌, ltb, leb, if◌then◌else◌, is_digit, digits_only, all_of,
  trim_space, is_space, is_empty, lines,
}
use mathlib.Core.List.{reverse}
use admiral_fleet.Fleet.Effects.{Result, ok, err}

abbrev pub word : ℕ
word = 18446744073709551616

pub record IdMapEntry : Type 0 where
  pub container_start : ℕ
  pub host_start : ℕ
  pub count : ℕ

-- `HostToContainer`, `none` for `false`: the sum wraps around
unfoldable pub host_to_container : IdMapEntry → ℕ → Option ℕ
host_to_container entry id =
    if ltb id entry.host_start || leb entry.count (id - entry.host_start)
    then none
    else some ((entry.container_start + (id - entry.host_start)) % word)

-- The first entry that maps the id.
unfoldable pub map_id : List IdMapEntry → ℕ → Option ℕ
unfolding host_to_container
map_id [] id = none
map_id (entry ∷ entries) id = elim (host_to_container entry id) [
  | some c ↦ some c
  | none ↦ map_id entries id
]

-- `uint64(n)` and `int(n)`
abbrev pub to_uint64 : ℤ → ℕ
to_uint64 (pos n) = n % word
to_uint64 (negsuc n) = (word - 1) - n % word

abbrev pub to_int64 : ℕ → ℤ
to_int64 n = if ltb n 9223372036854775808 then pos n else negsuc ((word - 1) - n)

abbrev close_word : Text → List Text → List Text
close_word w rest = if is_empty w then rest else reverse w ∷ rest

-- The fields of a text whose first one begins with the characters `w`, the last one first.
unfoldable pub fields_from : Text → Text → List Text
unfolding is_space
fields_from w [] = close_word w []
fields_from w (c ∷ s) = elim (is_space c) [
  | true ↦ close_word w (fields_from [] s)
  | false ↦ fields_from (c ∷ w) s
]

-- `strings.Fields`
unfoldable pub fields : Text → List Text
unfolding fields_from
fields s = fields_from [] s

abbrev below_word : Option ℕ → Option ℕ
below_word none = none
below_word (some n) = if ltb n word then some n else none

-- `strconv.ParseUint(s, 10, 64)`
unfoldable pub parse_uint : Text → Option ℕ
unfolding digits_only
parse_uint s = below_word (digits_only s)

pub data MapError : Type 0 where
  unreadable : Text → MapError
  invalid_line : Text → MapError
  empty_map : MapError

abbrev entry_of : Option ℕ → Option ℕ → Option ℕ → Option IdMapEntry
entry_of (some c) (some h) (some zero) = none
entry_of (some c) (some h) (some (suc n)) =
    some (record { container_start = c; host_start = h; count = suc n })
entry_of c h n = none

-- A line of three fields is an entry or an error, another line is skipped.
abbrev line_entries : Text → List Text → Result MapError (List IdMapEntry)
line_entries line (c ∷ h ∷ n ∷ []) = elim (entry_of (parse_uint c) (parse_uint h) (parse_uint n)) [
  | some entry ↦ ok (entry ∷ [])
  | none ↦ err (invalid_line line)
]
line_entries line words = ok []

abbrev followed_by :
    Result MapError (List IdMapEntry)
    → Result MapError (List IdMapEntry)
    → Result MapError (List IdMapEntry)
followed_by (ok xs) (ok ys) = ok (xs ++ ys)
followed_by (ok xs) (err e) = err e
followed_by (err e) rest = err e

unfoldable pub parse_lines : List Text → Result MapError (List IdMapEntry)
unfolding fields parse_uint
parse_lines [] = ok []
parse_lines (line ∷ rest) = followed_by (line_entries line (fields line)) (parse_lines rest)

abbrev not_empty : Result MapError (List IdMapEntry) → Result MapError (List IdMapEntry)
not_empty (ok []) = err empty_map
not_empty r = r

-- `userNamespaceMap`, from what `podman unshare cat` answers
unfoldable pub user_namespace_map : Result Text Text → Result MapError (List IdMapEntry)
unfolding parse_lines lines trim_space
user_namespace_map (err e) = err (unreadable e)
user_namespace_map (ok out) = not_empty (parse_lines (lines (trim_space out)))
