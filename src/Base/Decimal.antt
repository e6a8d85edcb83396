-- ===== src/Base/Decimal.antt =====
-- `std::to_string` and `operator<<` of a number: its decimal digits.
use Prim.Native.Nat.{ℕ, zero, suc, ◌+◌, ◌-◌, ◌*◌, ◌/◌, ◌%◌, ◌<◌}
use mathlib.Core.Path.{◌≡◌, ap, ◌∙◌}
use mathlib.Core.List.{[], ◌∷◌}
use native.Mathlib.Omega.{arith}
use tool_smith.Base.Tests.{ltb, if◌then◌else◌, Bool-cases}
use tool_smith.Base.Str.{Bytes}
use mathlib.Core.Logic.{inl, inr}

-- The fuel bounds the number of digits; n digits are enough for n.
unfoldable pub digits_from : ℕ → ℕ → Bytes → Bytes
digits_from zero n acc = acc
digits_from (suc fuel) n acc =
    let more = digits_from fuel (n / 10) ((n % 10 + 48) ∷ acc) in
    if ltb n 10 then (n % 10 + 48) ∷ acc else more

unfoldable pub decimal : ℕ → Bytes
unfolding digits_from
decimal n = digits_from (suc n) n []

-- The number that a row of digits stands for, after those that gave `acc`.
abbrev pub read_digits : ℕ → Bytes → ℕ
read_digits acc [] = acc
read_digits acc (d ∷ ds) = read_digits (acc * 10 + (d - 48)) ds

read-digits_from :
    (fuel n : ℕ) (acc : Bytes)
    → n < fuel
    → read_digits 0 (digits_from fuel n acc) ≡ read_digits n acc
unfolding digits_from
read-digits_from zero n acc h = absurd (omega arith)
read-digits_from (suc fuel) n acc h = elim (Bool-cases (ltb n 10)) [
  | inl small ↦
      let last : 0 * 10 + (n % 10 + 48 - 48) ≡ n = ground arith in
      rw small (ap (λ (t : ℕ). read_digits t acc) last)
  | inr large ↦
      let back : n / 10 * 10 + (n % 10 + 48 - 48) ≡ n = omega arith in
      rw large (
        read-digits_from fuel (n / 10) ((n % 10 + 48) ∷ acc) (ground arith)
        ∙ ap (λ (t : ℕ). read_digits t acc) back)
]

-- The digits read back as the number, so the fuel is enough.
pub read-decimal : (n : ℕ) → read_digits 0 (decimal n) ≡ n
unfolding decimal
read-decimal n = read-digits_from (suc n) n [] (omega arith)
