-- ===== src/Eval/Parser.antt =====
-- asm/eval.c: the levels of the grammar between `cexpr` and `expr6`, all of left-associative operators.
--
-- Each level is given the parser of `expr6`, and `n` bounds the rounds of its loop.
pub mod Rounds
use Prim.Native.Nat
use nasm.Prelude.{
  ℕ, zero, suc, ◌+◌, ◌*◌, ◌%◌, ◌^◌, Bool, true, false, not, ◌&&◌, ◌||◌, List, [], ◌∷◌, Option, none,
  some, ltb, ◌==◌, if◌then◌else◌, length, take, drop,
}
use nasm.Word.{add64, not64, of_bool, minus_one, shl64}
use nasm.Expr.{
  Term, Expr, Context, is_simple, is_unknown, is_just_unknown, is_reloc, reloc_value, reloc_seg,
  no_seg, seg_abs, expr_simple, expr_unknown, expr_segbase, expr_rdsae, expr_wrt,
}
use nasm.Vector.{EvalHints, Hint, eah_nohint, eah_makebase, set_hint_type, unknown_expr, scalarvect}
use nasm.Nasmlib.Rdstrnum.{readstrnum}
use nasm.Eval.State.{
  Bytes, Floatize, Strfunc, Ifunc, Token, Message, LabelLookup, undefined_label, label, Env, State,
  Outcome, M, bind, ◌>>=◌, ◌>>◌, pure, get_tt, report, fail, scan, set_opflag,
}
use nasm.Eval.State.Outcome.{ok, stuck}
use nasm.Eval.Operators.{
  RelOp, ShiftOp, AddOp, MulOp, ScalarOp, scalar_step, rel_step, shift_step, add_step, mul_step,
  mult_by, add, unary_step, eval_ifunc, segment_part,
}

-- Which tokens each loop goes on for.
abbrev pub is_scalar_op : ScalarOp → Token → Option ScalarOp
is_scalar_op ScalarOp.dbl_or Token.dbl_or = some ScalarOp.dbl_or
is_scalar_op ScalarOp.dbl_xor Token.dbl_xor = some ScalarOp.dbl_xor
is_scalar_op ScalarOp.dbl_and Token.dbl_and = some ScalarOp.dbl_and
is_scalar_op ScalarOp.bit_or Token.bit_or = some ScalarOp.bit_or
is_scalar_op ScalarOp.bit_xor Token.bit_xor = some ScalarOp.bit_xor
is_scalar_op ScalarOp.bit_and Token.bit_and = some ScalarOp.bit_and
is_scalar_op _ _ = none

abbrev pub is_rel_op : Token → Option RelOp
is_rel_op Token.eq = some RelOp.eq
is_rel_op Token.lt = some RelOp.lt
is_rel_op Token.gt = some RelOp.gt
is_rel_op Token.ne = some RelOp.ne
is_rel_op Token.le = some RelOp.le
is_rel_op Token.ge = some RelOp.ge
is_rel_op Token.leg = some RelOp.leg
is_rel_op _ = none

abbrev pub is_shift_op : Token → Option ShiftOp
is_shift_op Token.shl = some ShiftOp.shl
is_shift_op Token.shr = some ShiftOp.shr
is_shift_op Token.sar = some ShiftOp.sar
is_shift_op _ = none

abbrev pub is_add_op : Token → Option AddOp
is_add_op Token.plus = some AddOp.plus
is_add_op Token.minus = some AddOp.minus
is_add_op _ = none

abbrev pub is_mul_op : Token → Option MulOp
is_mul_op Token.mult = some MulOp.mult
is_mul_op Token.div = some MulOp.div
is_mul_op Token.mod_ = some MulOp.mod_
is_mul_op Token.sdiv = some MulOp.sdiv
is_mul_op Token.smod = some MulOp.smod
is_mul_op _ = none

-- `while (tt is an operator) { scan(); f = next(); if (!f) return NULL; e = step(e, f); }`
unfoldable pub chain :
    {Op : Type 0} → ℕ → (Token → Option Op) → M Expr → (Op → Expr → Expr → M Expr) → Expr → M Expr
chain zero op_of next step e s = stuck
chain (suc n) op_of next step e s = elim (op_of s.tt) [
  | none ↦ ok e s
  | some op ↦ (do scan; f ← next; e' ← step op e f; chain n op_of next step e') s
]

unfoldable pub level :
    {Op : Type 0} → ℕ → (Token → Option Op) → M Expr → (Op → Expr → Expr → M Expr) → M Expr
unfolding chain
level n op_of next step = do e ← next; chain n op_of next step e

module _ (cx : Context) (n : ℕ) (expr6 : M Expr) where
  unfoldable pub expr5 : M Expr
  expr5 = level n is_mul_op expr6 (mul_step cx)

  unfoldable pub expr4 : M Expr
  expr4 = level n is_add_op expr5 (add_step cx)

  unfoldable pub expr3 : M Expr
  expr3 = level n is_shift_op expr4 (shift_step cx)

  unfoldable pub expr2 : M Expr
  expr2 = level n (is_scalar_op ScalarOp.bit_and) expr3 (scalar_step cx)

  unfoldable pub expr1 : M Expr
  expr1 = level n (is_scalar_op ScalarOp.bit_xor) expr2 (scalar_step cx)

  unfoldable pub expr0 : M Expr
  expr0 = level n (is_scalar_op ScalarOp.bit_or) expr1 (scalar_step cx)

  unfoldable pub rexp3 : M Expr
  rexp3 = level n is_rel_op expr0 (rel_step cx)

  unfoldable pub rexp2 : M Expr
  rexp2 = level n (is_scalar_op ScalarOp.dbl_and) rexp3 (scalar_step cx)

  unfoldable pub rexp1 : M Expr
  rexp1 = level n (is_scalar_op ScalarOp.dbl_xor) rexp2 (scalar_step cx)

  unfoldable pub rexp0 : M Expr
  rexp0 = level n (is_scalar_op ScalarOp.dbl_or) rexp1 (scalar_step cx)
