-- ===== src/Eval/Terminates/Evaluate.antt =====
-- asm/eval.c: the tokens left by `expr6` and `evaluate`.
use nasm.Prelude.{ℕ, zero, suc, ◌<◌, ◌≡◌, ◌≢◌, refl, sym, false, List, Option, arith, not, ◌==◌}
use native.Mathlib.Nat.{le_refl}
use nasm.Word.{not64, of_bool}
use nasm.Expr.{Expr, Context, is_just_unknown, is_simple}
use nasm.Vector.{Hint}
use nasm.Eval.State.{Token, Env, State, Outcome, M, ◌>>=◌, pure, Message}
use nasm.Eval.State.Outcome.{ok, null, undefined, stuck}
use nasm.Eval.Operators.{add, mult_by, unary_step, eval_ifunc, segment_part}
use nasm.Eval.Operand.{need_rpar}
use nasm.Eval.Evaluate.{
  cexpr, expr6, expr6_at, seg_checked, count_call, with_wrt, wrt_vector, first_scan, evaluate_fuel,
  evaluate,
}
use nasm.Eval.Within.{
  weight, weight-le, left, Within, scan_any, Within-then, scan-then, scan-then_any, Within-if,
  eval_ifunc-Within, segment_part-Within,
}
use nasm.Eval.Terminates.Descent.{
  need_rpar-Within, cexpr-Within, operand-Within, eval_floatize-Within, eval_strfunc-Within,
}

unary_step-Within :
    (cx : Context) (m : Message) (value : ℕ → M ℕ) (e : Expr) (s : State)
    → ((v : ℕ) → Within (left s) (value v s))
    → Within (left s) (unary_step cx m value e s)
unary_step-Within cx m value e s h = Within-if (left s) (is_just_unknown cx e) _ _ s (le_refl _) (
    Within-if (left s) (not (is_simple cx e)) _ _ s tt
      (Within-then (left s) (value _ s) _ (h _) (λ v s₁ l₁. le_refl _)))

module _ (env : Env) where
  seg_checked-Within : (e : Expr) (s : State) → Within (left s) (seg_checked env e s)
  seg_checked-Within e s = ground arith

  -- `expr6_at` ends if the two parsers do on less input.
  expr6_at-Within :
      (expr6 bexpr : M Expr) (t : Token) (s : State)
      → weight t ≡ weight s.tt
      → ((s' : State) → left s' < left s → Within (left s') (expr6 s'))
      → ((s' : State) → left s' < left s → Within (left s') (bexpr s'))
      → Within (left s) (expr6_at env expr6 bexpr t s)
  unfolding expr6_at
  expr6_at-Within expr6 bexpr Token.minus s w h6 hb =
      scan-then _ s (sym w)
        λ s₁ l₁. Within-then (left s₁) (expr6 s₁) _ (h6 s₁ l₁) (λ e s₂ l₂. le_refl _)
  expr6_at-Within expr6 bexpr Token.plus s w h6 hb = scan-then expr6 s (sym w) h6
  expr6_at-Within expr6 bexpr Token.bit_not s w h6 hb = scan-then _ s (sym w) λ s₁ l₁.
      Within-then (left s₁) (expr6 s₁) _ (h6 s₁ l₁) λ e s₂ l₂.
        unary_step-Within env.context _ (λ v. pure (not64 v)) e s₂ (λ v. le_refl (left s₂))
  expr6_at-Within expr6 bexpr Token.bool_not s w h6 hb = scan-then _ s (sym w) λ s₁ l₁.
      Within-then (left s₁) (expr6 s₁) _ (h6 s₁ l₁) λ e s₂ l₂.
        unary_step-Within env.context _ (λ v. pure (of_bool (v == 0))) e s₂ (λ v. le_refl (left s₂))
  expr6_at-Within expr6 bexpr (Token.ifunc func) s w h6 hb = scan-then _ s (sym w) λ s₁ l₁.
      Within-then (left s₁) (expr6 s₁) _ (h6 s₁ l₁) λ e s₂ l₂.
        unary_step-Within env.context _ (eval_ifunc func) e s₂ (λ v. eval_ifunc-Within func v s₂)
  expr6_at-Within expr6 bexpr Token.seg s w h6 hb = scan-then _ s (sym w) λ s₁ l₁.
      Within-then (left s₁) (expr6 s₁) _ (h6 s₁ l₁) λ e s₂ l₂.
        Within-then (left s₂) (segment_part env e s₂) _ (segment_part-Within env e s₂)
          λ e' s₃ l₃. seg_checked-Within e' s₃
  expr6_at-Within expr6 bexpr (Token.floatize type) s w h6 hb = eval_floatize-Within env type s
  expr6_at-Within expr6 bexpr (Token.strfunc type) s w h6 hb = eval_strfunc-Within env type s
  expr6_at-Within expr6 bexpr Token.lpar s w h6 hb = scan-then _ s (sym w) λ s₁ l₁.
      Within-then (left s₁) (bexpr s₁) _ (hb s₁ l₁) λ e s₂ l₂.
        Within-then (left s₂) (need_rpar s₂.tt s₂) _ (need_rpar-Within s₂.tt s₂)
          λ _ s₃ l₃. scan-then_any _ s₃ (λ s₄ l₄. le_refl _)
  expr6_at-Within expr6 bexpr t s w h6 hb = operand-Within env t s

  count_call-Within : (s : State) → Within (left s) (count_call env s)
  count_call-Within s = ground arith

  expr6-Within : (n : ℕ) (s : State) → left s < n → Within (left s) (expr6 env n s)
  unfolding expr6
  expr6-Within zero s hn = absurd (omega arith)
  expr6-Within (suc n) s hn =
      Within-then (left s) (count_call env s) _ (count_call-Within s) λ _ s₁ l₁.
        expr6_at-Within (expr6 env n) (cexpr env n (expr6 env n)) s₁.tt s₁ refl
          (λ s₂ l₂. expr6-Within n s₂ (omega arith))
          λ s₂ l₂.
            cexpr-Within env n (left s₂) (expr6 env n) (omega arith)
              (λ s₃ l₃. expr6-Within n s₃ (omega arith)) s₂ (le_refl _)

  wrt_rest :
      (e f : Expr) (s : State)
      → Within
          (left s)
          ((do e' ← mult_by env.context false 1 e; g ← wrt_vector env f; add env.context e' g) s)
  wrt_rest e f s = ground arith

  with_wrt-Within :
      (n : ℕ) (e : Expr) (t : Token) (s : State)
      → left s < n
      → Within (left s) (with_wrt env n e t s)
  with_wrt-Within n e Token.wrt s hn = scan-then_any _ s λ s₁ l₁.
      Within-then (left s₁) (expr6 env n s₁) _ (expr6-Within n s₁ (omega arith))
        λ f s₂ l₂. wrt_rest e f s₂
  with_wrt-Within n e _ s hn = le_refl _

  first_scan-Within : (t : Token) (s : State) → Within (left s) (first_scan env t s)
  first_scan-Within Token.invalid s = scan_any s
  first_scan-Within _ s = le_refl _

  -- With more fuel than there are tokens the evaluator returns a vector or NULL, or runs into
  -- undefined behaviour.
  evaluate_fuel-Within : (n : ℕ) (s : State) → left s < n → Within (left s) (evaluate_fuel env n s)
  unfolding evaluate_fuel
  evaluate_fuel-Within n s hn =
      Within-then (left s) (first_scan env s.tt s) _ (first_scan-Within s.tt s) λ _ s₁ l₁.
        Within-then (left s₁) (cexpr env n (expr6 env n) s₁) _
          (cexpr-Within env n (left s₁) (expr6 env n) (omega arith)
            (λ s₂ l₂. expr6-Within n s₂ (omega arith)) s₁ (le_refl _))
          λ e s₂ l₂. with_wrt-Within n e s₂.tt s₂ (omega arith)

Within-ne-stuck {ℓ} : {A : Type ℓ} (b : ℕ) (r : Outcome A) → Within b r → r ≢ stuck
Within-ne-stuck b (ok a s) h e = cc
Within-ne-stuck b (null s) h e = cc
Within-ne-stuck b undefined h e = cc
Within-ne-stuck b stuck h e = absurd h

-- The evaluator ends on every input: the fuel that `evaluate` starts with never runs out, whatever
-- the tokens, the labels, and the other parts of the assembler answer.
pub evaluate_terminates :
    (env : Env) (tt' : Token) (input : List Token) (opflags : Option ℕ) (hint : Hint)
    → evaluate env tt' input opflags hint ≢ stuck
unfolding evaluate
evaluate_terminates env tt' input opflags hint =
    Within-ne-stuck _ _ (evaluate_fuel-Within env _ _ (omega (arith, weight-le tt')))
