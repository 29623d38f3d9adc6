-- ===== src/Executor/Ports/Counter.antt =====
-- The counter file between two allocations.
use admiral_fleet.Prelude.{
  Text, ℕ, ◌^◌, ◌≤◌, ◌<◌, ◌≡◌, refl, [], ◌∷◌, true, false, All, arith, is_digit, is_space,
  trim_space-id, decimal, decimal-digits, scan_digits-decimal,
}
use admiral_fleet.Executor.Ports.{next_port, skip_plus, min_host_port}

digit_not_space : (c : ℕ) → is_digit c ≡ true → is_space c ≡ false
unfolding is_space
digit_not_space c h = ground arith

digits_no_space : (s : Text) → All (λ c. is_digit c ≡ true) s → All (λ c. is_space c ≡ false) s
digits_no_space [] h = tt
digits_no_space (c ∷ s) h = (digit_not_space c h.0, digits_no_space s h.1)

skip_plus-digits : (s : Text) → All (λ c. is_digit c ≡ true) s → skip_plus s ≡ s
skip_plus-digits [] h = refl
skip_plus-digits (c ∷ s) h = let d = h.0 in ground arith

-- The counter that an allocation writes is the one that the next allocation reads.
pub next_port-decimal : (n : ℕ) → min_host_port ≤ n → n < 2 ^ 63 → next_port (decimal n) ≡ n
unfolding next_port
next_port-decimal n h k =
    rw (trim_space-id (decimal n) (digits_no_space (decimal n) (decimal-digits n)))
      (rw (skip_plus-digits (decimal n) (decimal-digits n)) (rw scan_digits-decimal (ground arith)))
