-- ===== src/Word/Bits.antt =====
-- Widths of the bitwise operations.
use Prim.Native.Nat.{
  bit_and, bit_or, bit_xor, digits, differ, min, max, bit_and-bitwise, bit_or-bitwise,
  bit_xor-bitwise,
}
use native.Mathlib.Nat.{pow-suc}
use nasm.Prelude.{ℕ, zero, suc, ◌/◌, ◌%◌, ◌^◌, ◌≤◌, ◌<◌, arith}

-- An operation on binary digits keeps to the width of its operands.
digits-lt :
    (z : ℕ → ℕ) (f : ℕ → ℕ → ℕ)
    → ((b : ℕ) → z b ≤ b)
    → ((x y : ℕ) → x ≤ 1 → y ≤ 1 → f x y ≤ 1)
    → (n a b m : ℕ) → a < 2 ^ m
    → b < 2 ^ m
    → digits z f n a b < 2 ^ m
digits-lt z f hz hf zero a b m ha hb = omega (arith, hz b)
digits-lt z f hz hf (suc n) zero b m ha hb = omega (arith, hz b)
digits-lt z f hz hf (suc n) (suc a) b zero ha hb = absurd (omega arith)
digits-lt z f hz hf (suc n) (suc a) b (suc m) ha hb = omega (
  arith,
  pow-suc 2 m,
  hf (suc a % 2) (b % 2) (omega arith) (omega arith),
  digits-lt z f hz hf n (suc a / 2) (b / 2) m (omega (arith, pow-suc 2 m))
      (omega (arith, pow-suc 2 m)),
)

differ-le : (x y : ℕ) → x ≤ 1 → y ≤ 1 → differ x y ≤ 1
differ-le zero y hx hy = hy
differ-le (suc x) zero hx hy = hx
differ-le (suc zero) (suc zero) hx hy = omega arith
differ-le (suc zero) (suc (suc y)) hx hy = absurd (omega arith)
differ-le (suc (suc x)) (suc y) hx hy = absurd (omega arith)

module _ (a b m : ℕ) (ha : a < 2 ^ m) (hb : b < 2 ^ m) where
  pub bit_and-lt : bit_and a b < 2 ^ m
  bit_and-lt =
      rw (bit_and-bitwise a b)
        (digits-lt (λ b. zero) min (λ b. omega arith) (λ x y hx hy. omega arith) a a b m ha hb)

  pub bit_or-lt : bit_or a b < 2 ^ m
  bit_or-lt =
      rw (bit_or-bitwise a b)
        (digits-lt (λ b. b) max (λ b. omega arith) (λ x y hx hy. omega arith) a a b m ha hb)

  pub bit_xor-lt : bit_xor a b < 2 ^ m
  bit_xor-lt =
      rw (bit_xor-bitwise a b)
        (digits-lt (λ b. b) differ (λ b. omega arith) differ-le a a b m ha hb)
