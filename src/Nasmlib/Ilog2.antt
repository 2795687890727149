-- ===== src/Nasmlib/Ilog2.antt =====
-- include/ilog2.h: the portable versions of `ilog2_32` and `ilog2_64`, and nasmlib.h's `is_power2`.
pub mod Bounds
use Prim.Native.Nat.{bit_and}
use nasm.Prelude.{
  ℕ, ◌+◌, ◌-◌, ◌*◌, ◌/◌, ◌%◌, ◌^◌, ◌≤◌, ◌<◌, ◌≡◌, refl, Bool, true, false, ◌&&◌, not, ltb, ◌==◌,
  if◌then◌else◌, arith,
}

-- The macro ROUND: the variables are `v` and `p`. The test `v & (((1 << w) - 1) << w)` reads the
-- bits w to 2w - 1.
abbrev pub round : ℕ → ℕ × ℕ → ℕ × ℕ
round w (v, p) = if v / 2 ^ w % 2 ^ w == 0 then (v, p) else (v / 2 ^ w, p + w)

unfoldable pub ilog2_32 : ℕ → ℕ
ilog2_32 v = (round 1 (round 2 (round 4 (round 8 (round 16 (v, 0)))))).1

unfoldable pub ilog2_64 : ℕ → ℕ
unfolding ilog2_32
ilog2_64 vv = let v = vv / 2 ^ 32 in if v == 0 then ilog2_32 (vv % 2 ^ 32) else 32 + ilog2_32 v

-- `(v) && ((v) & ((v) - 1)) == 0`
unfoldable pub is_power2 : ℕ → Bool
is_power2 v = not (v == 0) && bit_and v (v - 1) == 0
