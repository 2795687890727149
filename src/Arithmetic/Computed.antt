-- ===== src/Arithmetic/Computed.antt =====
-- What asm/eval.c computes of two numbers, and that it is what the operators mean.
use nasm.Prelude.{
  ℕ, ◌+◌, ◌/◌, ◌%◌, ◌≡◌, refl, sym, ap, ◌∙◌, not, ◌||◌, Option, none, some, ltb, ◌==◌,
  if◌then◌else◌, arith,
}
use nasm.Word.{word, IsWord, mul64, is_neg, of_bool, sdiv64, smod64, shl64, shr64, sar64}
use nasm.Word.Signed.{sdiv64-quotient, smod64-remainder, sar64-shifted}
use nasm.Eval.Operators.{RelOp, ShiftOp, AddOp, MulOp, ScalarOp, scalar_value, division_overflows}
use nasm.Arithmetic.{
  Binop, scalar, rel, shift, add, mul, sub64, meaning, rel_meaning, scalar_meaning, shift_meaning,
  mul_meaning,
}

-- A comparison, by the sign of the 64-bit difference; nothing is said of `<=>` of a smaller number.
abbrev pub rel_computed : RelOp → ℕ → Option ℕ
rel_computed RelOp.eq d = some (of_bool (d == 0))
rel_computed RelOp.ne d = some (of_bool (not (d == 0)))
rel_computed RelOp.lt d = some (of_bool (is_neg d))
rel_computed RelOp.ge d = some (of_bool (not (is_neg d)))
rel_computed RelOp.gt d = some (of_bool (not (is_neg d || d == 0)))
rel_computed RelOp.le d = some (of_bool (is_neg d || d == 0))
rel_computed RelOp.leg d = if is_neg d then none else some (of_bool (not (d == 0)))

abbrev pub shift_computed : ShiftOp → ℕ → ℕ → ℕ
shift_computed ShiftOp.shl a b = shl64 a b
shift_computed ShiftOp.shr a b = shr64 a b
shift_computed ShiftOp.sar a b = sar64 a b

abbrev pub mul_computed : MulOp → ℕ → ℕ → Option ℕ
mul_computed MulOp.mult a b = some (mul64 a b)
mul_computed MulOp.div a b = if b == 0 then none else some (a / b)
mul_computed MulOp.mod_ a b = if b == 0 then none else some (a % b)
mul_computed MulOp.sdiv a b =
    if b == 0 || division_overflows MulOp.sdiv a b then none else some (sdiv64 a b)
mul_computed MulOp.smod a b =
    if b == 0 || division_overflows MulOp.smod a b then none else some (smod64 a b)

-- The number that the evaluator computes of two.
abbrev pub computed : Binop → ℕ → ℕ → Option ℕ
computed (scalar op) a b = some (scalar_value op a b)
computed (rel op) a b = rel_computed op (sub64 a b)
computed (shift op) a b = if ltb b 64 then some (shift_computed op a b) else none
computed (add AddOp.plus) a b = some ((a + b) % word)
computed (add AddOp.minus) a b = some (sub64 a b)
computed (mul op) a b = mul_computed op a b

scalar-computed : (op : ScalarOp) (a b : ℕ) → scalar_meaning op a b ≡ scalar_value op a b
scalar-computed ScalarOp.dbl_or a b = ground arith
scalar-computed ScalarOp.dbl_xor a b = ground arith
scalar-computed ScalarOp.dbl_and a b = ground arith
scalar-computed ScalarOp.bit_or a b = refl
scalar-computed ScalarOp.bit_xor a b = refl
scalar-computed ScalarOp.bit_and a b = refl

shift-computed : (op : ShiftOp) (a b : ℕ) → IsWord a → shift_meaning op a b ≡ shift_computed op a b
shift-computed ShiftOp.shl a b wa = refl
shift-computed ShiftOp.shr a b wa = refl
shift-computed ShiftOp.sar a b wa = sym (sar64-shifted a b wa)

mul-computed :
    (op : MulOp) (a b : ℕ) → IsWord a → IsWord b → mul_meaning op a b ≡ mul_computed op a b
mul-computed MulOp.mult a b wa wb = refl
mul-computed MulOp.div a b wa wb = refl
mul-computed MulOp.mod_ a b wa wb = refl
mul-computed MulOp.sdiv a b wa wb =
    ap (λ q. if b == 0 || division_overflows MulOp.sdiv a b then none else some q)
      (sym (sdiv64-quotient a b wa wb))
mul-computed MulOp.smod a b wa wb =
    ap (λ q. if b == 0 || division_overflows MulOp.smod a b then none else some q)
      (sym (smod64-remainder a b wa wb))

rel-computed :
    (op : RelOp) (a b v : ℕ)
    → IsWord a
    → IsWord b
    → rel_meaning op a b ≡ some v
    → rel_computed op (sub64 a b) ≡ some v
rel-computed RelOp.eq a b v wa wb h = ground arith
rel-computed RelOp.ne a b v wa wb h = ground arith
rel-computed RelOp.leg a b v wa wb h = ground arith
rel-computed op a b v wa wb h = ground arith

-- What an operator means is what is computed.
pub meaning-computed :
    (op : Binop) (a b v : ℕ)
    → IsWord a
    → IsWord b
    → meaning op a b ≡ some v
    → computed op a b ≡ some v
meaning-computed (scalar op) a b v wa wb h = ap some (sym (scalar-computed op a b)) ∙ h
meaning-computed (rel op) a b v wa wb h = rel-computed op a b v wa wb h
meaning-computed (shift op) a b v wa wb h =
    ap (λ x. if ltb b 64 then some x else none) (sym (shift-computed op a b wa)) ∙ h
meaning-computed (add AddOp.plus) a b v wa wb h = h
meaning-computed (add AddOp.minus) a b v wa wb h = h
meaning-computed (mul op) a b v wa wb h = sym (mul-computed op a b wa wb) ∙ h
