-- ===== src/Eval/Operand.antt =====
-- asm/eval.c: the operands that `expr6` reads without a call of itself.
use nasm.Prelude.{
  ℕ, ◌+◌, ◌-◌, ◌%◌, ◌^◌, Bool, true, false, [], ◌∷◌, none, some, ◌==◌, if◌then◌else◌, take, drop,
}
use Prim.Native.Nat.{min}
use nasm.Word.{add64, shl64}
use nasm.Expr.{Expr, no_seg, expr_simple, expr_unknown, expr_segbase, expr_rdsae}
use nasm.Vector.{Hint, eah_nohint, eah_makebase, unknown_expr, scalarvect}
use nasm.Nasmlib.Rdstrnum.{readstrnum}
use nasm.Eval.State.{
  Bytes, Floatize, Strfunc, Token, Message, LabelLookup, undefined_label, label, Env, M, ◌>>=◌,
  ◌>>◌, pure, get_tt, report, fail, scan, set_opflag,
}
use nasm.Eval.State.Outcome.{ok, null}
use nasm.Eval.State.Floatize.{
  float_8, float_16, float_b16, float_32, float_64, float_80m, float_80e, float_128l, float_128h,
}

-- `bytes` and `offset` of asm/floats.c's table `fp_formats`.
abbrev pub fp_bytes : Floatize → ℕ
fp_bytes float_8 = 1
fp_bytes float_16 = 2
fp_bytes float_b16 = 2
fp_bytes float_32 = 4
fp_bytes float_64 = 8
fp_bytes float_80m = 10
fp_bytes float_80e = 10
fp_bytes float_128l = 16
fp_bytes float_128h = 16

abbrev pub fp_offset : Floatize → ℕ
fp_offset float_80e = 8
fp_offset float_128h = 8
fp_offset _ = 0

-- `val = (val << 8) + *p`, from the last byte down to the first.
abbrev pub le_value : Bytes → ℕ
le_value [] = 0
le_value (b ∷ r) = add64 (shl64 (le_value r) 8) b

-- `if (tt != ')') { nasm_nonfatal("expecting `)'"); return NULL; }`
abbrev pub need_rpar : Token → M (Unit {0})
need_rpar Token.rpar = pure tt
need_rpar _ = fail Message.expecting_rpar

abbrev pub need_lpar : Token → M (Unit {0})
need_lpar Token.lpar = pure tt
need_lpar _ = fail Message.expecting_lpar

-- An optional sign; true for a minus.
abbrev pub read_sign : Token → M Bool
read_sign Token.minus = do scan; pure true
read_sign Token.plus = do scan; pure false
read_sign _ = pure false

-- `float_const` reports its own error.
abbrev pub float_bytes : Env → Bool → Floatize → Token → M Bytes
float_bytes env minus type (Token.float b) s = elim (env.float_const b minus type) [
  | none ↦ null s
  | some r ↦ ok r s
]
float_bytes env minus type _ s = fail Message.expecting_float s

unfoldable pub eval_floatize : Env → Floatize → M Expr
eval_floatize env type = do
  scan
  need_lpar (← get_tt)
  scan
  minus ← read_sign (← get_tt)
  result ← float_bytes env minus type (← get_tt)
  scan
  need_rpar (← get_tt)
  scan
  let len = min (fp_bytes type - fp_offset type) 8
  pure (scalarvect env.context (le_value (take len (drop (fp_offset type) result))))

abbrev pub open_paren : Token → M Bool
open_paren Token.lpar = do scan; pure true
open_paren _ = pure false

abbrev pub transformed : Env → Strfunc → Token → M Bytes
transformed env type (Token.str b) s = elim (env.string_transform b type) [
  | none ↦ fail Message.invalid_string s
  | some r ↦ ok r s
]
transformed env type _ s = fail Message.expecting_string s

abbrev pub close_paren : Bool → M (Unit {0})
close_paren true = do scan; need_rpar (← get_tt)
close_paren false = pure tt

abbrev pub warn_if : Bool → M (Unit {0})
warn_if true = report Message.character_constant_too_long
warn_if false = pure tt

unfoldable pub eval_strfunc : Env → Strfunc → M Expr
eval_strfunc env type = do
  scan
  parens ← open_paren (← get_tt)
  string ← transformed env type (← get_tt)
  let (val, rn_warn) = readstrnum string
  close_paren parens
  warn_if rn_warn
  scan
  pure (scalarvect env.context val)

-- The first register of an expression is hinted at as the base.
abbrev makebase : ℕ → Hint → Hint
makebase r none = none
makebase r (some h) = elim h.type [
  | eah_nohint ↦ some (record { base = r; type = eah_makebase })
  | _ ↦ some h
]

abbrev pub hint_base : ℕ → M (Unit {0})
hint_base r s = ok tt (record s { hint = makebase r s.hint })

module _ (env : Env) where
  abbrev pub finish : Expr → M Expr
  finish e = do scan; pure e

  -- `addtotemp(type, label_ofs); if (label_seg != NO_SEG) addtotemp(EXPR_SEGBASE + label_seg, 1L);`
  abbrev pub symbol : ℕ → ℕ → ℕ → Expr
  symbol type label_seg label_ofs =
      record { type = type; value = label_ofs }
      ∷ (if label_seg == no_seg
          then []
          else record { type = (expr_segbase env.context + label_seg) % 2 ^ 32; value = 1 } ∷ [])

  -- The flags are OPFLAG_FORWARD and OPFLAG_EXTERN.
  abbrev pub label_value : LabelLookup → M Expr
  label_value undefined_label =
      if env.critical
      then fail Message.symbol_undefined
      else do set_opflag 1; finish (symbol (expr_unknown env.context) no_seg 1)
  label_value (label is_extern seg ofs) = do
    (if is_extern then set_opflag 2 else pure tt)
    finish (symbol (expr_simple env.context) seg ofs)

  abbrev pub here_segment : ℕ
  here_segment = if env.in_absolute then env.absolute_segment else env.context.here_segment

  -- Without a location no symbol, `$` or `$$` is valid: the value is unknown.
  abbrev pub if_known : M Expr → M Expr
  if_known m =
      if env.known then m else do report Message.no_symbols_here; finish (unknown_expr env.context)

  unfoldable pub operand : Token → M Expr
  operand (Token.num v) = finish (scalarvect env.context v)
  operand (Token.brcconst v) = finish (scalarvect env.context v)
  operand (Token.str b) = do
    let (v, rn_warn) = readstrnum b
    warn_if rn_warn
    finish (scalarvect env.context v)
  operand (Token.reg r) = do hint_base r; finish (record { type = r; value = 1 } ∷ [])
  operand (Token.id b) = if_known (label_value (env.lookup_label b))
  operand (Token.insn b) = if_known (label_value (env.lookup_label b))
  operand Token.here = if_known (
      finish (
        symbol (expr_simple env.context) here_segment
          (if env.in_absolute then env.absolute_offset else env.offset)))
  operand Token.base = if_known (finish (symbol (expr_simple env.context) here_segment 0))
  operand (Token.decorator v) = finish (record { type = expr_rdsae env.context; value = v } ∷ [])
  operand _ = fail Message.syntax_error
