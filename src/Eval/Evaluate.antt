-- ===== src/Eval/Evaluate.antt =====
-- asm/eval.c: `cexpr`, `expr6` and `evaluate`.
--
-- A unit of fuel is spent where the source calls itself: `cexpr` on its branches, and `expr6` on an
-- operand. `evaluate` gives one unit for each token and two more.
use Prim.Native.Nat
use nasm.Prelude.{
  ℕ, zero, suc, ◌+◌, ◌%◌, false, not, ◌&&◌, List, [], ◌∷◌, Option, ltb, ◌==◌, if◌then◌else◌, length,
}
use nasm.Word.{not64, of_bool, minus_one}
use nasm.Expr.{
  Expr, is_simple, is_unknown, is_just_unknown, is_reloc, reloc_value, reloc_seg, no_seg, seg_abs,
  expr_wrt,
}
use nasm.Vector.{Hint, eah_nohint, set_hint_type, unknown_expr}
use nasm.Eval.State.{Token, Message, Env, Outcome, M, ◌>>=◌, ◌>>◌, pure, get_tt, report, fail, scan}
use nasm.Eval.State.Outcome.{ok, stuck}
use nasm.Eval.Operators.{mult_by, add, unary_step, eval_ifunc, segment_part}
use nasm.Eval.Operand.{need_rpar, eval_floatize, eval_strfunc, operand}
use nasm.Eval.Parser.{rexp0}

module _ (env : Env) where
  -- `e = reloc_value(e) ? f : g`, and the other cases of the left-hand side of `?`.
  abbrev pub choose : Expr → Expr → Expr → M Expr
  choose e f g =
      if is_simple env.context e
      then pure (if reloc_value env.context e == 0 then g else f)
      else if is_just_unknown env.context e
      then pure (unknown_expr env.context)
      else do report Message.qmark_not_scalar; pure e

  abbrev pub need_colon : Token → M (Unit {0})
  need_colon Token.colon = pure tt
  need_colon _ = fail Message.unmatched_qmark

  abbrev pub conditional : M Expr → Expr → Token → M Expr
  conditional again e Token.qmark = do
    scan
    f ← again
    need_colon (← get_tt)
    scan
    g ← again
    choose e f g
  conditional again e _ = pure e

  unfoldable pub cexpr : ℕ → M Expr → M Expr
  cexpr zero expr6 s = stuck
  cexpr (suc n) expr6 s =
      (do e ← rexp0 env.context (suc n) expr6; t ← get_tt; conditional (cexpr n expr6) e t) s

  abbrev pub seg_checked : Expr → M Expr
  seg_checked e =
      if is_unknown env.context e && env.critical then fail Message.segment_base_unknown else pure e

  -- `++deadman > nasm_limit[LIMIT_EVAL]`
  abbrev pub count_call : M (Unit {0})
  count_call s =
      let s' = record s { deadman = s.deadman + 1 } in
      if ltb env.limit s'.deadman then fail Message.expression_too_long s' else ok tt s'

  -- The `switch` of `expr6`, given itself and `bexpr`.
  unfoldable pub expr6_at : M Expr → M Expr → Token → M Expr
  expr6_at expr6 bexpr Token.minus = do scan; e ← expr6; mult_by env.context false minus_one e
  expr6_at expr6 bexpr Token.plus = do scan; expr6
  expr6_at expr6 bexpr Token.bit_not = do
    scan
    e ← expr6
    unary_step env.context Message.not_scalar (λ v. pure (not64 v)) e
  expr6_at expr6 bexpr Token.bool_not = do
    scan
    e ← expr6
    unary_step env.context Message.not_scalar (λ v. pure (of_bool (v == 0))) e
  expr6_at expr6 bexpr (Token.ifunc func) = do
    scan
    e ← expr6
    unary_step env.context Message.not_scalar (eval_ifunc func) e
  expr6_at expr6 bexpr Token.seg = do scan; e ← expr6; base ← segment_part env e; seg_checked base
  expr6_at expr6 bexpr (Token.floatize type) = eval_floatize env type
  expr6_at expr6 bexpr (Token.strfunc type) = eval_strfunc env type
  expr6_at expr6 bexpr Token.lpar = do scan; e ← bexpr; need_rpar (← get_tt); scan; pure e
  expr6_at expr6 bexpr t = operand env t

  unfoldable pub expr6 : ℕ → M Expr
  expr6 zero s = stuck
  expr6 (suc n) s = (do count_call; t ← get_tt; expr6_at (expr6 n) (cexpr n (expr6 n)) t) s

  -- The value of a WRT term, from the right-hand operand.
  abbrev wrt_term : ℕ → Expr
  wrt_term value = record { type = expr_wrt env.context; value = value } ∷ []

  abbrev pub wrt_vector : Expr → M Expr
  wrt_vector f =
      let value = reloc_seg env.context f in
      if is_just_unknown env.context f
      then pure (unknown_expr env.context)
      else if not (is_reloc env.context f)
      then fail Message.invalid_wrt
      else if value == no_seg
      then pure (wrt_term (Nat.bit_or (reloc_value env.context f) seg_abs))
      else if (Nat.bit_and value seg_abs == 0) && ((value % 2 == 0) && env.critical)
      then fail Message.invalid_wrt
      else pure (wrt_term value)

  -- The far-absolute part is stripped off the left-hand side in either case.
  abbrev pub with_wrt : ℕ → Expr → Token → M Expr
  with_wrt n e Token.wrt = do
    scan
    f ← expr6 n
    e' ← mult_by env.context false 1 e
    g ← wrt_vector f
    add env.context e' g
  with_wrt n e _ = mult_by env.context false 1 e

  abbrev pub first_scan : Token → M (Unit {0})
  first_scan Token.invalid = scan
  first_scan _ = pure tt

  unfoldable pub evaluate_fuel : ℕ → M Expr
  evaluate_fuel n = do first_scan (← get_tt); e ← cexpr n (expr6 n); t ← get_tt; with_wrt n e t

  -- `tt` is `tv->t_type`, TOKEN_INVALID for an evaluation that begins with a call of the scanner,
  -- and `input` is what the scanner will deliver.
  unfoldable pub evaluate : Token → List Token → Option ℕ → Hint → Outcome Expr
  unfolding evaluate_fuel
  evaluate tt input opflags hint = evaluate_fuel (length input + 3) (record {
    input = input;
    tt = tt;
    hint = set_hint_type eah_nohint hint;
    opflags = opflags;
    deadman = 0;
    log = [];
  })
