-- ===== src/Eval/Tests.antt =====
-- Runs of the evaluator on concrete input.
use nasm.Prelude.{ℕ, true, false, List, [], ◌∷◌, Option, none, some, ◌≡◌, refl, ◌-◌, ◌^◌}
use nasm.Expr.{Expr}
use nasm.Eval.State.{Token, scan, undefined_label, Env, Outcome}
use nasm.Eval.State.Outcome.{ok}
use nasm.Eval.State.Ifunc.{ilog2c}
use nasm.Eval.Evaluate.{evaluate, cexpr, expr6, expr6_at}
use nasm.Eval.Operand.{operand, eval_strfunc}
use nasm.Eval.Parser.{
  rexp0, rexp1, rexp2, rexp3, expr0, expr1, expr2, expr3, expr4, expr5, level, chain,
}
use nasm.Eval.Operators.{
  scalar_step, rel_step, shift_step, add_step, mul_step, eval_ifunc, segment_part,
}
use nasm.Expr.{
  is_simple, is_really_simple, is_unknown, is_just_unknown, is_reloc, expr_class, classify_all,
  reloc_value, reloc_seg,
}
use nasm.Vector.{add_vectors, add_loop, keep, scalar_mult, scalarvect, unknown_expr}
use nasm.Nasmlib.Ilog2.{ilog2_64, ilog2_32, is_power2}
use nasm.Nasmlib.Rdstrnum.{readstrnum, readstrnum_loop}

-- Fifty registers, no labels, no segments.
abbrev pub plain_env : Env
plain_env = record {
  context = record { reg_end = 50; here_segment = 2 };
  critical = false;
  limit = 1000;
  known = true;
  offset = 0x20;
  in_absolute = false;
  absolute_segment = 0;
  absolute_offset = 0;
  lookup_label = λ _. undefined_label;
  segbase = λ s. s;
  float_const = λ _ _ _. none;
  string_transform = λ _ _. none;
}

abbrev value_of : Outcome Expr → Option Expr
value_of (ok e s) = some e
value_of _ = none

abbrev run : List Token → Option Expr
run ts = value_of (evaluate plain_env Token.invalid ts none none)

abbrev simple : ℕ → Option Expr
simple v = some (record { type = 52; value = v } ∷ [])

-- What a run computes with.
program : Unit {0}
unfolding scan evaluate cexpr expr6 expr6_at operand eval_strfunc rexp0 rexp1 rexp2 rexp3 expr0
    expr1 expr2 expr3 expr4 expr5 level chain scalar_step rel_step shift_step add_step mul_step
    eval_ifunc segment_part is_simple is_really_simple is_unknown is_just_unknown is_reloc
    expr_class classify_all reloc_value reloc_seg add_vectors add_loop keep scalar_mult scalarvect
    unknown_expr ilog2_64 ilog2_32 is_power2 readstrnum readstrnum_loop
program = tt

-- 2 + 3 * 4
sum_of_product :
    run (Token.num 2 ∷ Token.plus ∷ Token.num 3 ∷ Token.mult ∷ Token.num 4 ∷ []) ≡ simple 14
unfolding program
sum_of_product = refl

-- (2 + 3) * 4
parenthesised :
    run (
      Token.lpar
      ∷ Token.num 2
      ∷ Token.plus
      ∷ Token.num 3
      ∷ Token.rpar
      ∷ Token.mult
      ∷ Token.num 4
      ∷ [])
    ≡ simple 20
unfolding program
parenthesised = refl

-- 10 - 2 - 3, from the left
from_the_left :
    run (Token.num 10 ∷ Token.minus ∷ Token.num 2 ∷ Token.minus ∷ Token.num 3 ∷ []) ≡ simple 5
unfolding program
from_the_left = refl

-- 1 < 2 ? 7 : 8
conditional_run :
    run (
      Token.num 1
      ∷ Token.lt
      ∷ Token.num 2
      ∷ Token.qmark
      ∷ Token.num 7
      ∷ Token.colon
      ∷ Token.num 8
      ∷ [])
    ≡ simple 7
unfolding program
conditional_run = refl

-- -7 // 2 rounds towards zero
signed_division :
    run (Token.minus ∷ Token.num 7 ∷ Token.sdiv ∷ Token.num 2 ∷ []) ≡ simple (2 ^ 64 - 3)
unfolding program
signed_division = refl

-- eax + $, in the segment 2
register_and_here :
    run (Token.reg 3 ∷ Token.plus ∷ Token.here ∷ [])
    ≡ some (
        record { type = 3; value = 1 }
        ∷ record { type = 52; value = 0x20 }
        ∷ record { type = 57; value = 1 }
        ∷ [])
unfolding program
register_and_here = refl

-- 'ab' as a number
string_run : run (Token.str (0x61 ∷ 0x62 ∷ []) ∷ []) ≡ simple 0x6261
unfolding program
string_run = refl

-- ilog2c(9)
ilog2_run : run (Token.ifunc ilog2c ∷ Token.num 9 ∷ []) ≡ simple 4
unfolding program
ilog2_run = refl

-- 1 <=> 2 gives an unknown quantity.
three_way_less :
    run (Token.num 1 ∷ Token.leg ∷ Token.num 2 ∷ []) ≡ some (record { type = 51; value = 1 } ∷ [])
unfolding program
three_way_less = refl
