-- ===== src/Eval/Operators.antt =====
-- asm/eval.c: what the evaluator does once an operator has its operands.
use Prim.Native.Nat
use nasm.Prelude.{
  ℕ, ◌+◌, ◌-◌, ◌/◌, ◌%◌, ◌^◌, Bool, true, false, not, ◌&&◌, ◌||◌, [], ◌∷◌, ltb, ◌==◌, if◌then◌else◌,
}
use nasm.Word.{minus_one, mul64, sdiv64, smod64, shl64, shr64, sar64, is_neg, of_bool}
use nasm.Expr.{
  Expr, Context, is_simple, is_really_simple, is_unknown, is_just_unknown, is_reloc, reloc_value,
  reloc_seg, no_seg, seg_abs, expr_segbase, expr_unknown,
}
use nasm.Vector.{add_vectors, scalar_mult, scalarvect, unknown_expr}
use nasm.Nasmlib.Ilog2.{is_power2, ilog2_64}
use nasm.Eval.State.{Message, Ifunc, Env, M, ◌>>=◌, ◌>>◌, pure, report, fail, with_hint}
use nasm.Eval.State.Ifunc.{ilog2e, ilog2w, ilog2f, ilog2c}
use nasm.Eval.State.Outcome.{undefined}

-- The operators of each level of the grammar that has more than one.
pub data RelOp : Type 0 where
  eq lt gt ne le ge leg : RelOp

pub data ShiftOp : Type 0 where
  shl shr sar : ShiftOp

pub data AddOp : Type 0 where
  plus minus : AddOp

pub data MulOp : Type 0 where
  mult div mod_ sdiv smod : MulOp

-- The logical and the bitwise operators on two scalars.
pub data ScalarOp : Type 0 where
  dbl_or dbl_xor dbl_and bit_or bit_xor bit_and : ScalarOp

abbrev truth : ℕ → Bool
truth v = not (v == 0)

abbrev pub scalar_value : ScalarOp → ℕ → ℕ → ℕ
scalar_value ScalarOp.dbl_or a b = of_bool (truth a || truth b)
scalar_value ScalarOp.dbl_xor a b = of_bool (if truth a then not (truth b) else truth b)
scalar_value ScalarOp.dbl_and a b = of_bool (truth a && truth b)
scalar_value ScalarOp.bit_or a b = Nat.bit_or a b
scalar_value ScalarOp.bit_xor a b = Nat.bit_xor a b
scalar_value ScalarOp.bit_and a b = Nat.bit_and a b

-- A signed number is above 0 as an int64_t.
abbrev is_pos : ℕ → Bool
is_pos v = not (is_neg v) && truth v

-- What `<`, `<=` and the like say of a difference that is 0, above 0 or below 0.
abbrev holds_at_zero : RelOp → Bool
holds_at_zero RelOp.le = true
holds_at_zero RelOp.ge = true
holds_at_zero _ = false

abbrev holds_above : RelOp → Bool
holds_above RelOp.ge = true
holds_above RelOp.gt = true
holds_above _ = false

abbrev holds_below : RelOp → Bool
holds_below RelOp.le = true
holds_below RelOp.lt = true
holds_below _ = false

-- The branches of `rexp3` on `vv`, the scalar difference.
abbrev pub rel_of_difference : RelOp → ℕ → ℕ
rel_of_difference RelOp.leg vv = if is_neg vv then minus_one else of_bool (is_pos vv)
rel_of_difference op vv =
    if vv == 0
    then of_bool (holds_at_zero op)
    else if is_pos vv
    then of_bool (holds_above op)
    else of_bool (holds_below op)

-- `(vv < 0) ? -1 : ...` and the other 64-bit results, by operator. Division by zero is excluded by
-- the caller; INT64_MIN / -1 and a shift count outside 0 to 63 are undefined.
abbrev pub shift_value : ShiftOp → ℕ → ℕ → ℕ
shift_value ShiftOp.shl a b = shl64 a b
shift_value ShiftOp.shr a b = shr64 a b
shift_value ShiftOp.sar a b = sar64 a b

abbrev pub division_overflows : MulOp → ℕ → ℕ → Bool
division_overflows MulOp.sdiv a b = a == 2 ^ 63 && b == minus_one
division_overflows MulOp.smod a b = a == 2 ^ 63 && b == minus_one
division_overflows _ a b = false

abbrev pub division_value : MulOp → ℕ → ℕ → ℕ
division_value MulOp.div a b = a / b
division_value MulOp.mod_ a b = a % b
division_value MulOp.sdiv a b = sdiv64 a b
division_value MulOp.smod a b = smod64 a b
division_value MulOp.mult a b = mul64 a b

abbrev pub undefined_behaviour {ℓ} : {A : Type ℓ} → M A
undefined_behaviour s = undefined

module _ (cx : Context) where
  abbrev pub add : Expr → Expr → M Expr
  add e f = with_hint (λ h. add_vectors cx h e f)

  abbrev pub mult_by : Bool → ℕ → Expr → M Expr
  mult_by affect_hints scalar e = with_hint (λ h. scalar_mult cx affect_hints scalar h e)

  -- `add_vectors(e, scalar_mult(f, -1L, false))`
  abbrev pub subtract : Expr → Expr → M Expr
  subtract e f = do g ← mult_by false minus_one f; add e g

  abbrev pub scalar_or_unknown : Expr → Bool
  scalar_or_unknown e = is_simple cx e || is_just_unknown cx e

  -- The bodies of the loops of `rexp0`, `rexp1`, `rexp2`, `expr0`, `expr1` and `expr2`, which differ
  -- in the operator alone. The message does not stop them.
  unfoldable pub scalar_step : ScalarOp → Expr → Expr → M Expr
  scalar_step op e f = do
    (if scalar_or_unknown e && scalar_or_unknown f
        then pure tt
        else report Message.operator_not_scalar)
    if is_just_unknown cx e || is_just_unknown cx f
        then pure (unknown_expr cx)
        else pure (scalarvect cx (scalar_value op (reloc_value cx e) (reloc_value cx f)))

  -- The `switch` of `rexp3`: the number `v`, on the difference `e`.
  abbrev pub rel_value : RelOp → Expr → M ℕ
  rel_value RelOp.eq e =
      if is_unknown cx e
      then pure minus_one
      else pure (of_bool (is_really_simple cx e && reloc_value cx e == 0))
  rel_value RelOp.ne e =
      if is_unknown cx e
      then pure minus_one
      else pure (of_bool (not (is_really_simple cx e && reloc_value cx e == 0)))
  rel_value op e =
      if is_unknown cx e
      then pure minus_one
      else if is_really_simple cx e
      then pure (rel_of_difference op (reloc_value cx e))
      else do report Message.non_scalar_difference; pure 0

  unfoldable pub rel_step : RelOp → Expr → Expr → M Expr
  rel_step op e f = do
    d ← subtract e f
    v ← rel_value op d
    if v == minus_one then pure (unknown_expr cx) else pure (scalarvect cx v)

  -- The message does not stop the loop of `expr3`, and leaves `e` as it was.
  unfoldable pub shift_step : ShiftOp → Expr → Expr → M Expr
  shift_step op e f =
      if not (scalar_or_unknown e && scalar_or_unknown f)
      then (do report Message.shift_not_scalar; pure e)
      else if is_just_unknown cx e || is_just_unknown cx f
      then pure (unknown_expr cx)
      else if ltb (reloc_value cx f) 64
      then pure (scalarvect cx (shift_value op (reloc_value cx e) (reloc_value cx f)))
      else undefined_behaviour

  unfoldable pub add_step : AddOp → Expr → Expr → M Expr
  add_step AddOp.plus e f = add e f
  add_step AddOp.minus e f = subtract e f

  abbrev multiply : Expr → Expr → M Expr
  multiply e f =
      if is_simple cx e
      then mult_by true (reloc_value cx e) f
      else if is_simple cx f
      then mult_by true (reloc_value cx f) e
      else if is_just_unknown cx e && is_just_unknown cx f
      then pure (unknown_expr cx)
      else fail Message.multiply_non_scalars

  abbrev divide : MulOp → Expr → Expr → M Expr
  divide op e f =
      if not (scalar_or_unknown e && scalar_or_unknown f)
      then fail Message.division_not_scalar
      else if not (is_just_unknown cx f) && reloc_value cx f == 0
      then fail Message.division_by_zero
      else if is_just_unknown cx e || is_just_unknown cx f
      then pure (unknown_expr cx)
      else if division_overflows op (reloc_value cx e) (reloc_value cx f)
      then undefined_behaviour
      else pure (scalarvect cx (division_value op (reloc_value cx e) (reloc_value cx f)))

  unfoldable pub mul_step : MulOp → Expr → Expr → M Expr
  mul_step MulOp.mult e f = multiply e f
  mul_step op e f = divide op e f

  -- `~`, `!` and the integer functions, on an operand that must be a scalar.
  abbrev pub unary_step : Message → (ℕ → M ℕ) → Expr → M Expr
  unary_step m value e =
      if is_just_unknown cx e
      then pure (unknown_expr cx)
      else if not (is_simple cx e)
      then fail m
      else do v ← value (reloc_value cx e); pure (scalarvect cx v)

-- The message is an error for ILOG2E and a warning for ILOG2W.
unfoldable pub eval_ifunc : Ifunc → ℕ → M ℕ
eval_ifunc ilog2e v = do
  (if is_power2 v then pure tt else report Message.ilog2_not_power2_error)
  pure (ilog2_64 v)
eval_ifunc ilog2w v = do
  (if is_power2 v then pure tt else report Message.ilog2_not_power2_warning)
  pure (ilog2_64 v)
eval_ifunc ilog2f v = pure (ilog2_64 v)
eval_ifunc ilog2c v = pure (if ltb v 2 then 0 else ilog2_64 (v - 1) + 1)

-- The SEG operator. `seg` is not negative where it is not NO_SEG.
unfoldable pub segment_part : Env → Expr → M Expr
segment_part env e =
    let cx = env.context in
    let seg = reloc_seg cx e in
    if is_unknown cx e
    then pure (unknown_expr cx)
    else if not (is_reloc cx e)
    then fail Message.seg_not_relocatable
    else if seg == no_seg
    then fail Message.seg_not_relocatable
    else if not (Nat.bit_and seg seg_abs == 0)
    then pure (scalarvect cx (Nat.bit_and seg 0xbfff_ffff))
    else if seg % 2 == 1
    then fail Message.seg_of_segment_base
    else let base = env.segbase (seg + 1) in
      pure (
        record {
          type = if base == no_seg then expr_unknown cx else (expr_segbase cx + base) % 2 ^ 32;
          value = 1;
        }
        ∷ [])
