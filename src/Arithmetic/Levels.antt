-- ===== src/Arithmetic/Levels.antt =====
-- The levels of asm/eval.c's grammar as one family, so that a proof can go up and down them.
use nasm.Prelude.{ℕ, zero, suc, ◌<◌, ◌≡◌, refl, Option, none, some, arith, ◌==◌, if◌then◌else◌}
use nasm.Expr.{Expr, Context}
use nasm.Eval.State.{Token, M}
use nasm.Eval.Operators.{
  RelOp, ShiftOp, AddOp, MulOp, ScalarOp, scalar_step, rel_step, shift_step, add_step, mul_step,
}
use nasm.Eval.Parser.{
  rexp0, rexp1, rexp2, rexp3, expr0, expr1, expr2, expr3, expr4, expr5, level, is_scalar_op,
  is_rel_op, is_shift_op, is_add_op, is_mul_op,
}
use nasm.Arithmetic.{Binop, scalar, rel, shift, add, mul, scalar_inner, binop_inner, binop_token}

-- The loops, one for each level between `expr6` and `cexpr`.
pub data Loop : Type 0 where
  mul_loop add_loop shift_loop rel_loop : Loop
  scalar_loop : ScalarOp → Loop

abbrev pub LoopOp : Loop → Type 0
LoopOp mul_loop = MulOp
LoopOp add_loop = AddOp
LoopOp shift_loop = ShiftOp
LoopOp rel_loop = RelOp
LoopOp (scalar_loop _) = ScalarOp

abbrev pub op_of : (l : Loop) → Token → Option (LoopOp l)
op_of mul_loop = is_mul_op
op_of add_loop = is_add_op
op_of shift_loop = is_shift_op
op_of rel_loop = is_rel_op
op_of (scalar_loop op) = is_scalar_op op

abbrev pub step_of : Context → (l : Loop) → LoopOp l → Expr → Expr → M Expr
step_of cx mul_loop = mul_step cx
step_of cx add_loop = add_step cx
step_of cx shift_loop = shift_step cx
step_of cx rel_loop = rel_step cx
step_of cx (scalar_loop _) = scalar_step cx

-- The loop `k` levels above `expr5`.
abbrev pub loop_at : ℕ → Loop
loop_at k =
    if k == 0
    then mul_loop
    else if k == 1
    then add_loop
    else if k == 2
    then shift_loop
    else if k == 3
    then scalar_loop ScalarOp.bit_and
    else if k == 4
    then scalar_loop ScalarOp.bit_xor
    else if k == 5
    then scalar_loop ScalarOp.bit_or
    else if k == 6
    then rel_loop
    else if k == 7
    then scalar_loop ScalarOp.dbl_and
    else if k == 8
    then scalar_loop ScalarOp.dbl_xor
    else scalar_loop ScalarOp.dbl_or

-- The parser `k` levels above `expr6`.
unfoldable pub parser : Context → ℕ → M Expr → ℕ → M Expr
parser cx n expr6 zero = expr6
parser cx n expr6 (suc k) =
    level n (op_of (loop_at k)) (parser cx n expr6 k) (step_of cx (loop_at k))

pub rexp0-parser : (cx : Context) (n : ℕ) (expr6 : M Expr) → rexp0 cx n expr6 ≡ parser cx n expr6 10
unfolding parser rexp0 rexp1 rexp2 rexp3 expr0 expr1 expr2 expr3 expr4 expr5
rexp0-parser cx n expr6 = refl

-- How far above `expr6` the function stands whose loop takes the token; a token that no loop takes
-- stops them all.
abbrev pub token_depth : Token → ℕ
token_depth Token.mult = 1
token_depth Token.div = 1
token_depth Token.mod_ = 1
token_depth Token.sdiv = 1
token_depth Token.smod = 1
token_depth Token.plus = 2
token_depth Token.minus = 2
token_depth Token.shl = 3
token_depth Token.shr = 3
token_depth Token.sar = 3
token_depth Token.bit_and = 4
token_depth Token.bit_xor = 5
token_depth Token.bit_or = 6
token_depth Token.eq = 7
token_depth Token.lt = 7
token_depth Token.gt = 7
token_depth Token.ne = 7
token_depth Token.le = 7
token_depth Token.ge = 7
token_depth Token.leg = 7
token_depth Token.dbl_and = 8
token_depth Token.dbl_xor = 9
token_depth Token.dbl_or = 10
token_depth Token.qmark = 11
token_depth _ = 12

pub token_depth-binop : (op : Binop) → token_depth (binop_token op) ≡ suc (binop_inner op)
token_depth-binop op = ground arith

-- The operator as its own loop sees it.
abbrev pub loop_op : (op : Binop) → LoopOp (loop_at (binop_inner op))
loop_op (mul op) = op
loop_op (add op) = op
loop_op (shift op) = op
loop_op (rel op) = op
loop_op (scalar ScalarOp.bit_and) = ScalarOp.bit_and
loop_op (scalar ScalarOp.bit_xor) = ScalarOp.bit_xor
loop_op (scalar ScalarOp.bit_or) = ScalarOp.bit_or
loop_op (scalar ScalarOp.dbl_and) = ScalarOp.dbl_and
loop_op (scalar ScalarOp.dbl_xor) = ScalarOp.dbl_xor
loop_op (scalar ScalarOp.dbl_or) = ScalarOp.dbl_or

pub op_of-binop :
    (op : Binop) → op_of (loop_at (binop_inner op)) (binop_token op) ≡ some (loop_op op)
op_of-binop (mul op) = ground arith
op_of-binop (add op) = ground arith
op_of-binop (shift op) = ground arith
op_of-binop (rel op) = ground arith
op_of-binop (scalar ScalarOp.dbl_or) = refl
op_of-binop (scalar _) = refl

abbrev loop_index : Loop → ℕ
loop_index mul_loop = 0
loop_index add_loop = 1
loop_index shift_loop = 2
loop_index rel_loop = 6
loop_index (scalar_loop op) = scalar_inner op

loop_index-loop_at : (k : ℕ) → k < 10 → loop_index (loop_at k) ≡ k
loop_index-loop_at k h = ground arith

op_of-none_loop : (l : Loop) (t : Token) → suc (loop_index l) < token_depth t → op_of l t ≡ none
op_of-none_loop mul_loop t h = ground arith
op_of-none_loop add_loop t h = ground arith
op_of-none_loop shift_loop t h = ground arith
op_of-none_loop rel_loop t h = ground arith
op_of-none_loop (scalar_loop op) t h = ground arith

-- No loop takes a token that belongs to a level further up.
pub op_of-none : (k : ℕ) (t : Token) → k < 10 → suc k < token_depth t → op_of (loop_at k) t ≡ none
op_of-none k t hk h = op_of-none_loop (loop_at k) t (rw (loop_index-loop_at k hk) h)
