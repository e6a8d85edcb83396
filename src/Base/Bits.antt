-- ===== src/Base/Bits.antt =====
-- When the bitwise operations give zero, by recursion on the binary digits.
use Prim.Native.Nat.{
  ℕ, zero, suc, ◌/◌, ◌%◌, ◌≤◌, max, bit_or, bit_xor, digits, differ, bit_or-bitwise,
  bit_xor-bitwise,
}
use mathlib.Core.Path.{◌≡◌, refl, sym, ◌∙◌}
use native.Mathlib.Omega.{arith}

differ_sound : (x y : ℕ) → differ x y ≡ 0 → x ≡ y
differ_sound zero y h = omega arith
differ_sound (suc x) zero h = h
differ_sound (suc x) (suc y) h = omega (arith, differ_sound x y h)

differ_self : (x : ℕ) → differ x x ≡ 0
differ_self zero = refl
differ_self (suc x) = differ_self x

-- The bits of `max` and of `differ`, from the lowest; `n` is at least the number of digits of `a`.
or_digits-zero : (a b n : ℕ) → a ≤ n → digits (λ rest. rest) max n a b ≡ 0 → (a ≡ 0) × (b ≡ 0)
or_digits-zero zero b zero fits none_set = (refl, none_set)
or_digits-zero zero b (suc n) fits none_set = (refl, none_set)
or_digits-zero (suc a) b zero fits none_set = absurd (omega arith)
or_digits-zero (suc a) b (suc n) fits none_set =
    let above = or_digits-zero (suc a / 2) (b / 2) n (omega arith) (omega arith) in
    omega (arith, above.0, above.1)

xor_digits-zero : (a b n : ℕ) → a ≤ n → digits (λ rest. rest) differ n a b ≡ 0 → a ≡ b
xor_digits-zero zero b zero fits none_set = sym none_set
xor_digits-zero zero b (suc n) fits none_set = sym none_set
xor_digits-zero (suc a) b zero fits none_set = absurd (omega arith)
xor_digits-zero (suc a) b (suc n) fits none_set =
    let above = xor_digits-zero (suc a / 2) (b / 2) n (omega arith) (omega arith) in
    let lowest = differ_sound (suc a % 2) (b % 2) (omega arith) in omega (arith, above, lowest)

xor_digits_self : (a n : ℕ) → a ≤ n → digits (λ rest. rest) differ n a a ≡ 0
xor_digits_self zero zero fits = refl
xor_digits_self zero (suc n) fits = refl
xor_digits_self (suc a) zero fits = absurd (omega arith)
xor_digits_self (suc a) (suc n) fits =
    omega (arith, xor_digits_self (suc a / 2) n (omega arith), differ_self (suc a % 2))

pub bit_or-zero : (a b : ℕ) → bit_or a b ≡ 0 → (a ≡ 0) × (b ≡ 0)
bit_or-zero a b h = or_digits-zero a b a (omega arith) (sym (bit_or-bitwise a b) ∙ h)

pub bit_xor-zero : (a b : ℕ) → bit_xor a b ≡ 0 → a ≡ b
bit_xor-zero a b h = xor_digits-zero a b a (omega arith) (sym (bit_xor-bitwise a b) ∙ h)

pub bit_xor_self : (a : ℕ) → bit_xor a a ≡ 0
bit_xor_self a = bit_xor-bitwise a a ∙ xor_digits_self a a (omega arith)
