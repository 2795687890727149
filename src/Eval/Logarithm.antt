-- ===== src/Eval/Logarithm.antt =====
-- The integer functions of asm/eval.c as logarithms.
use nasm.Prelude.{ℕ, ◌+◌, ◌-◌, ◌^◌, ◌≤◌, ◌<◌, ◌≡◌, refl, false, ltb, arith}
use nasm.Nasmlib.Ilog2.{ilog2_64}
use nasm.Nasmlib.Ilog2.Bounds.{ilog2_64-bounds}
use nasm.Eval.State.{State}
use nasm.Eval.State.Outcome.{ok}
use nasm.Eval.State.Ifunc.{ilog2c}
use nasm.Eval.Operators.{eval_ifunc}

-- The function ilog2c returns the logarithm to base 2, rounded up, of a number from 2 on.
eval_ifunc-ilog2c :
    (v : ℕ) (s : State)
    → 2 ≤ v
    → v < 2 ^ 64
    → (c : ℕ) × (eval_ifunc ilog2c v s ≡ ok c s) × (2 ^ (c - 1) < v) × (v ≤ 2 ^ c)
unfolding eval_ifunc
eval_ifunc-ilog2c v s h₂ h =
    let (low, high) = ilog2_64-bounds (v - 1) (omega arith) (omega arith) in
    let c = ilog2_64 (v - 1) in
    let test : ltb v 2 ≡ false = ground arith in
    let e : c + 1 - 1 ≡ c = omega arith in
    (c + 1, rw test refl, rw e (omega (arith, low)), omega (arith, high))
