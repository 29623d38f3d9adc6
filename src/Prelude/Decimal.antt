-- ===== src/Prelude/Decimal.antt =====
-- Decimal notation: `fmt.Sprintf("%d", n)` and `fmt.Sscanf(s, "%d", &n)`, with their round trip.
use Prim.Native.Nat.{ℕ, zero, suc, ◌+◌, ◌-◌, ◌*◌, ◌/◌, ◌%◌, ◌<◌}
use mathlib.Core.Path.{◌≡◌, ap, ◌∙◌}
use mathlib.Core.Bool.{Bool, true, false, ◌&&◌}
use mathlib.Core.Logic.{inl, inr}
use mathlib.Core.Option.{Option, none, some}
use mathlib.Core.List.{[], ◌∷◌}
use native.Mathlib.Omega.{arith}
use mathlib.Core.Option
use admiral_fleet.Prelude.Lists.{all_of, All}
use admiral_fleet.Prelude.Int.{ℤ, pos, negsuc}
use admiral_fleet.Prelude.Tests.{ltb, leb, ◌==◌, if◌then◌else◌, Bool-cases}
use admiral_fleet.Prelude.Strings.{Text}

-- The digits of `n` in front of `rest`, with fuel for one more digit than `n` has.
digits_before : ℕ → ℕ → Text → Text
digits_before zero n rest = rest
digits_before (suc f) n rest =
    let more = digits_before f (n / 10) ((48 + n % 10) ∷ rest) in
    if ltb n 10 then (48 + n) ∷ rest else more

-- `fmt.Sprintf("%d", n)` for a number that is not negative
unfoldable pub decimal : ℕ → Text
unfolding digits_before
decimal n = digits_before (suc n) n []

abbrev pub is_digit : ℕ → Bool
is_digit c = leb 48 c && leb c 57

-- The number that the leading digits of a text spell, in front of which `acc` was read.
read_digits : ℕ → Text → ℕ
read_digits acc [] = acc
read_digits acc (c ∷ s) =
    let more = read_digits (acc * 10 + (c - 48)) s in if is_digit c then more else acc

-- The leading digits of a text, as `%d` scans them: `none` if there is no digit.
unfoldable pub scan_digits : Text → Option ℕ
unfolding read_digits
scan_digits [] = none
scan_digits (c ∷ s) = if is_digit c then some (read_digits 0 (c ∷ s)) else none

-- Reading the digits of `n` after `acc`: the place value is what `acc` is multiplied by.
place : ℕ → ℕ → ℕ
place zero n = 1
place (suc f) n = let more = 10 * place f (n / 10) in if ltb n 10 then 10 else more

read-digit :
    (d acc : ℕ) (s : Text) → d < 10 → read_digits acc ((48 + d) ∷ s) ≡ read_digits (acc * 10 + d) s
unfolding read_digits
read-digit d acc s h = ground arith

place-small : (f n : ℕ) → ltb n 10 ≡ true → place (suc f) n ≡ 10
unfolding place
place-small f n h = rw h

place-large : (f n : ℕ) → ltb n 10 ≡ false → place (suc f) n ≡ 10 * place f (n / 10)
unfolding place
place-large f n h = rw h

read-digits_before :
    (f n acc : ℕ) (rest : Text)
    → n < f
    → read_digits acc (digits_before f n rest) ≡ read_digits (acc * place f n + n) rest
unfolding digits_before
read-digits_before zero n acc rest h = elim h [ ]
read-digits_before (suc f) n acc rest h = elim (Bool-cases (ltb n 10)) [
  | inl small ↦ rw (small, place-small f n small) (read-digit n acc rest (ground arith))
  | inr large ↦
      rw (large, place-large f n large)
        (read-digits_before f (n / 10) acc ((48 + n % 10) ∷ rest) (ground arith)
          ∙ read-digit (n % 10) (acc * place f (n / 10) + n / 10) rest (omega arith)
          ∙ ap (λ (k : ℕ). read_digits k rest) (omega arith))
]

-- The first character of the digits of a number is a digit.
digits_before-cons :
    (f n : ℕ) (rest : Text)
    → n < f
    → (c : ℕ) × (s : Text) × (digits_before f n rest ≡ c ∷ s) × (is_digit c ≡ true)
unfolding digits_before
digits_before-cons zero n rest h = elim h [ ]
digits_before-cons (suc f) n rest h = elim (Bool-cases (ltb n 10)) [
  | inl small ↦ (48 + n, rest, rw small, ground arith)
  | inr large ↦ rw large (digits_before-cons f (n / 10) ((48 + n % 10) ∷ rest) (ground arith))
]

scan-digit :
    (s : Text) (c : ℕ) (t : Text)
    → s ≡ c ∷ t
    → is_digit c ≡ true
    → scan_digits s ≡ some (read_digits 0 s)
unfolding scan_digits
scan-digit s c t e d = rw e (rw d)

digits_before-digits :
    (f n : ℕ) (rest : Text)
    → All (λ c. is_digit c ≡ true) rest
    → All (λ c. is_digit c ≡ true) (digits_before f n rest)
unfolding digits_before
digits_before-digits zero n rest h = h
digits_before-digits (suc f) n rest h = elim (Bool-cases (ltb n 10)) [
  | inl small ↦ rw small (ground arith, h)
  | inr large ↦ rw large (digits_before-digits f (n / 10) ((48 + n % 10) ∷ rest) (ground arith, h))
]

-- Decimal notation has digits only, and at least one.
pub decimal-digits : (n : ℕ) → All (λ c. is_digit c ≡ true) (decimal n)
unfolding decimal
decimal-digits n = digits_before-digits (suc n) n [] tt

-- What `%d` prints, `%d` scans.
pub scan_digits-decimal : (n : ℕ) → scan_digits (decimal n) ≡ some n
unfolding decimal
scan_digits-decimal n =
    let (c, s, e, d) = digits_before-cons (suc n) n [] (omega arith) in
    scan-digit (digits_before (suc n) n []) c s e d
    ∙ ap some
        (read-digits_before (suc n) n 0 [] (omega arith) ∙ (unfold read_digits in omega arith))

abbrev negated : ℕ → ℤ
negated zero = pos zero
negated (suc n) = negsuc n

-- The number of a text of digits, and at least one.
unfoldable pub digits_only : Text → Option ℕ
unfolding read_digits
digits_only [] = none
digits_only (c ∷ s) = if all_of is_digit (c ∷ s) then some (read_digits 0 (c ∷ s)) else none

-- `strconv.Atoi`, with no bound on the size
unfoldable pub atoi : Text → Option ℤ
unfolding digits_only
atoi [] = none
atoi (c ∷ s) =
    if c == b'+'
    then Option.map pos (digits_only s)
    else if c == b'-'
    then Option.map negated (digits_only s)
    else Option.map pos (digits_only (c ∷ s))
