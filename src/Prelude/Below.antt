-- ===== src/Prelude/Below.antt =====
-- Functions that agree on all numbers below a bound, by a test that computes.
use Prim.Native.Nat.{ℕ, zero, suc, ◌<◌}
use mathlib.Core.Path.{◌≡◌}
use mathlib.Core.Bool.{Bool, true, ◌&&◌}
use mathlib.Core.Logic.{◌⊎◌, inl, inr}
use native.Mathlib.Omega.{arith}
use nasm.Prelude.Tests.{◌==◌}

-- Whether the functions agree on the numbers below `n`.
unfoldable pub agrees : (ℕ → ℕ) → (ℕ → ℕ) → ℕ → Bool
agrees f g zero = true
agrees f g (suc n) = f n == g n && agrees f g n

pub agrees-below : (f g : ℕ → ℕ) (n i : ℕ) → agrees f g n ≡ true → i < n → f i ≡ g i
unfolding agrees
agrees-below f g zero i h hi = absurd (omega arith)
agrees-below f g (suc n) i h hi = elim (last_or_below n i hi) [
  | inl same ↦ ground (arith, same)
  | inr below ↦ agrees-below f g n i (both (f n == g n) (agrees f g n) h) below
]
  where
    last_or_below : (n i : ℕ) → i < suc n → (i ≡ n) ⊎ (i < n)
    last_or_below n i h = ground arith

    both : (a b : Bool) → (a && b) ≡ true → b ≡ true
    both a b h = ground arith
