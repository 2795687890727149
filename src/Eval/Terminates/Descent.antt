-- ===== src/Eval/Terminates/Descent.antt =====
-- asm/eval.c: the tokens left by the operands of `expr6` and by `cexpr`.
use nasm.Prelude.{ℕ, zero, suc, ◌<◌, ◌≡◌, refl, sym, Bool, true, false, ◌∷◌, arith}
use native.Mathlib.Nat.{le_refl}
use nasm.Expr.{Expr}
use nasm.Vector.{unknown_expr}
use nasm.Eval.State.{
  Token, Env, State, M, ◌>>◌, pure, scan, Message, Floatize, Strfunc, LabelLookup, undefined_label,
  label,
}
use nasm.Eval.Operand.{
  need_rpar, need_lpar, read_sign, open_paren, close_paren, warn_if, float_bytes, transformed,
  label_value, if_known, finish, eval_floatize, eval_strfunc, operand,
}
use nasm.Eval.Evaluate.{cexpr, expr6, conditional, choose, need_colon}
use nasm.Eval.Parser.{rexp0}
use nasm.Eval.Within.{
  weight, left, Within, Consumes, Within-then, scan-then, scan-then_any, Within-if,
}
use nasm.Eval.Terminates.{rexp0-Consumes}

-- Functions that leave the tokens alone, or call the scanner.
pub need_rpar-Within : (t : Token) (s : State) → Within (left s) (need_rpar t s)
need_rpar-Within Token.rpar s = le_refl _
need_rpar-Within _ s = tt

warn_if-Within : (b : Bool) (s : State) → Within (left s) (warn_if b s)
warn_if-Within true s = le_refl _
warn_if-Within false s = le_refl _

need_lpar-Within : (t : Token) (s : State) → Within (left s) (need_lpar t s)
need_lpar-Within Token.lpar s = le_refl _
need_lpar-Within _ s = tt

scanned {ℓ} : {A : Type ℓ} (a : A) (s : State) → Within (left s) ((scan >> pure a) s)
scanned a s = scan-then_any (pure a) s (λ s' l. le_refl _)

read_sign-Within : (t : Token) (s : State) → Within (left s) (read_sign t s)
read_sign-Within Token.minus s = scanned true s
read_sign-Within Token.plus s = scanned false s
read_sign-Within _ s = le_refl _

open_paren-Within : (t : Token) (s : State) → Within (left s) (open_paren t s)
open_paren-Within Token.lpar s = scanned true s
open_paren-Within _ s = le_refl _

close_paren-Within : (b : Bool) (s : State) → Within (left s) (close_paren b s)
close_paren-Within true s = scan-then_any _ s λ s₁ l₁. need_rpar-Within s₁.tt s₁
close_paren-Within false s = le_refl _

module _ (env : Env) where
  choose-Within : (e f g : Expr) (s : State) → Within (left s) (choose env e f g s)
  choose-Within e f g s = ground arith

  need_colon-Within : (t : Token) (s : State) → Within (left s) (need_colon env t s)
  need_colon-Within Token.colon s = le_refl _
  need_colon-Within _ s = tt

  conditional-Within :
      (again : M Expr) (e : Expr) (t : Token) (s : State)
      → weight t ≡ weight s.tt
      → ((s' : State) → left s' < left s → Within (left s') (again s'))
      → Within (left s) (conditional env again e t s)
  conditional-Within again e Token.qmark s h go = scan-then _ s (sym h) λ s₁ l₁.
      Within-then (left s₁) (again s₁) _ (go s₁ l₁) λ f s₂ l₂.
        Within-then (left s₂) (need_colon env s₂.tt s₂) _ (need_colon-Within s₂.tt s₂) λ _ s₃ l₃.
          scan-then_any _ s₃ λ s₄ l₄.
            Within-then (left s₄) (again s₄) _ (go s₄ (omega arith))
              λ g s₅ l₅. choose-Within e f g s₅
  conditional-Within again e _ s h go = le_refl _

  pub cexpr-Within :
      (n bound : ℕ) (expr6 : M Expr)
      → bound < n
      → Consumes bound expr6
      → Consumes bound (cexpr env n expr6)
  unfolding cexpr
  cexpr-Within zero bound expr6 hn h s hb = absurd (omega arith)
  cexpr-Within (suc n) bound expr6 hn h s hb =
      Within-then (left s) (rexp0 env.context (suc n) expr6 s) _
        (rexp0-Consumes env.context (suc n) bound expr6 hn h s hb)
        λ e s₁ l₁. conditional-Within (cexpr env n expr6) e s₁.tt s₁ refl λ s₂ l₂.
          cexpr-Within n (left s₂) expr6 (omega arith) (λ s₃ l₃. h s₃ (omega arith)) s₂ (le_refl _)

  warned_operand :
      (b : Bool) (e : Expr) (s : State) → Within (left s) ((warn_if b >> finish env e) s)
  warned_operand b e s =
      Within-then (left s) (warn_if b s) _ (warn_if-Within b s) (λ _ s₁ l₁. scanned e s₁)

  if_known-Within :
      (m : M Expr) (s : State) → Within (left s) (m s) → Within (left s) (if_known env m s)
  if_known-Within m s h =
      Within-if (left s) env.known m _ s h
        (scanned (unknown_expr env.context) (record s { log = Message.no_symbols_here ∷ s.log }))

  label_value-Within : (l : LabelLookup) (s : State) → Within (left s) (label_value env l s)
  label_value-Within undefined_label s =
      Within-if (left s) env.critical _ _ s tt (scanned _ (record s { opflags = _ }))
  label_value-Within (label true seg ofs) s = scanned _ (record s { opflags = _ })
  label_value-Within (label false seg ofs) s = scanned _ s

  pub operand-Within : (t : Token) (s : State) → Within (left s) (operand env t s)
  unfolding operand
  operand-Within (Token.num v) s = scanned _ s
  operand-Within (Token.brcconst v) s = scanned _ s
  operand-Within (Token.str b) s = warned_operand _ _ s
  operand-Within (Token.reg r) s = scanned _ (record s { hint = _ })
  operand-Within (Token.id b) s = if_known-Within _ s (label_value-Within (env.lookup_label b) s)
  operand-Within (Token.insn b) s = if_known-Within _ s (label_value-Within (env.lookup_label b) s)
  operand-Within Token.here s = if_known-Within _ s (scanned _ s)
  operand-Within Token.base s = if_known-Within _ s (scanned _ s)
  operand-Within (Token.decorator v) s = scanned _ s
  operand-Within _ s = tt

  float_bytes-Within :
      (minus : Bool) (type : Floatize) (t : Token) (s : State)
      → Within (left s) (float_bytes env minus type t s)
  float_bytes-Within minus type (Token.float b) s = ground arith
  float_bytes-Within minus type _ s = tt

  transformed-Within :
      (type : Strfunc) (t : Token) (s : State) → Within (left s) (transformed env type t s)
  transformed-Within type (Token.str b) s = ground arith
  transformed-Within type _ s = tt

  pub eval_floatize-Within :
      (type : Floatize) (s : State) → Within (left s) (eval_floatize env type s)
  unfolding eval_floatize
  eval_floatize-Within type s = scan-then_any _ s λ s₁ l₁.
      Within-then (left s₁) (need_lpar s₁.tt s₁) _ (need_lpar-Within s₁.tt s₁) λ _ s₂ l₂.
        scan-then_any _ s₂ λ s₃ l₃.
          Within-then (left s₃) (read_sign s₃.tt s₃) _ (read_sign-Within s₃.tt s₃) λ minus s₄ l₄.
            Within-then (left s₄) (float_bytes env minus type s₄.tt s₄) _
              (float_bytes-Within minus type s₄.tt s₄)
              λ r s₅ l₅. scan-then_any _ s₅ λ s₆ l₆.
                Within-then (left s₆) (need_rpar s₆.tt s₆) _ (need_rpar-Within s₆.tt s₆)
                  λ _ s₇ l₇. scanned _ s₇

  pub eval_strfunc-Within : (type : Strfunc) (s : State) → Within (left s) (eval_strfunc env type s)
  unfolding eval_strfunc
  eval_strfunc-Within type s = scan-then_any _ s λ s₁ l₁.
      Within-then (left s₁) (open_paren s₁.tt s₁) _ (open_paren-Within s₁.tt s₁) λ parens s₂ l₂.
        Within-then (left s₂) (transformed env type s₂.tt s₂) _ (transformed-Within type s₂.tt s₂)
          λ string s₃ l₃.
            Within-then (left s₃) (close_paren parens s₃) _ (close_paren-Within parens s₃)
              λ _ s₄ l₄. warned_operand _ _ s₄
