-- ===== src/Eval/Terminates.antt =====
-- The recursion of asm/eval.c, measured by the tokens that are left.
pub mod Descent
pub mod Evaluate
use nasm.Prelude.{
  ℕ, zero, suc, ◌+◌, ◌≤◌, ◌<◌, ◌≡◌, ◌≢◌, refl, sym, Bool, true, false, List, [], ◌∷◌, Option, none,
  some, length, arith, Option-cases, inl, inr,
}
use native.Mathlib.Nat.{le_refl, le_trans}
use nasm.Expr.{Expr, Context}
use nasm.Vector.{Hint}
use nasm.Eval.State.{
  Token, Env, State, Outcome, M, bind, ◌>>=◌, ◌>>◌, pure, report, fail, scan, Message, Ifunc,
  Floatize, Strfunc,
}
use nasm.Eval.State.Outcome.{ok, null, undefined, stuck}
use nasm.Eval.State.Token.{eos}
use nasm.Eval.Operators.{
  ScalarOp, RelOp, ShiftOp, AddOp, MulOp, scalar_step, rel_step, shift_step, add_step, mul_step,
}
use mathlib.Core.Path.{subst}
use nasm.Eval.Parser.Rounds.{chain-none, chain-some}
use nasm.Eval.Parser.{
  rexp0, rexp1, rexp2, rexp3, expr0, expr1, expr2, expr3, expr4, expr5, level, chain, is_scalar_op,
  is_rel_op, is_shift_op, is_add_op, is_mul_op,
}
use nasm.Eval.Within.{
  weight, left, Within, Consumes, scan-Within, scan_any, Within-weaken, Within-bind,
  scalar_step-Within, rel_step-Within, shift_step-Within, add_step-Within, mul_step-Within,
  eval_ifunc-Within, segment_part-Within,
}

module _ {Op : Type 0} (op_of : Token → Option Op) (next : M Expr)
    (step : Op → Expr → Expr → M Expr)
    (is_op : (t : Token) (op : Op) → op_of t ≡ some op → weight t ≡ 1)
    (step_within : (op : Op) (e f : Expr) (s : State) → Within (left s) (step op e f s)) where
  chain-Within :
      (n bound : ℕ) (e : Expr) (s : State)
      → Consumes bound next
      → left s ≤ bound
      → left s < n
      → Within (left s) (chain n op_of next step e s)
  chain-Within zero bound e s hnext hb hn = absurd (omega arith)
  chain-Within (suc n) bound e s hnext hb hn = elim (Option-cases (op_of s.tt)) [
    | inl h ↦ subst (Within (left s)) (sym (chain-none op_of next step n e s h)) (le_refl (left s))
    | inr (op, h) ↦ subst (Within (left s)) (sym (chain-some op_of next step n op e s h)) (
        Within-bind (left s) (scan s) _ (scan-Within s (is_op s.tt op h)) λ _ s₁ h₁.
          Within-bind (left s) (next s₁) _ (hnext s₁ (omega arith)) λ f s₂ h₂.
            Within-bind (left s) (step op e f s₂) _ (step_within op e f s₂) λ e' s₃ h₃.
              Within-weaken (chain n op_of next step e' s₃) (omega (arith, is_op s.tt op h)) (
                chain-Within n bound e' s₃ hnext (omega (arith, is_op s.tt op h))
                  (omega (arith, is_op s.tt op h))))
  ]

  level-Within :
      (n bound : ℕ) → bound < n → Consumes bound next → Consumes bound (level n op_of next step)
  unfolding level
  level-Within n bound hn hnext s hb = Within-bind (left s) (next s) _ (hnext s hb) λ e s₁ h₁.
      Within-weaken (chain n op_of next step e s₁) (omega arith)
        (chain-Within n bound e s₁ hnext (omega arith) (omega arith))

-- Every operator of a loop is a token that can be used up.
is_scalar_op-weight :
    (op : ScalarOp) (t : Token) (found : ScalarOp) → is_scalar_op op t ≡ some found → weight t ≡ 1
is_scalar_op-weight op t found h = ground arith

is_rel_op-weight : (t : Token) (op : RelOp) → is_rel_op t ≡ some op → weight t ≡ 1
is_rel_op-weight t op h = ground arith

is_shift_op-weight : (t : Token) (op : ShiftOp) → is_shift_op t ≡ some op → weight t ≡ 1
is_shift_op-weight t op h = ground arith

is_add_op-weight : (t : Token) (op : AddOp) → is_add_op t ≡ some op → weight t ≡ 1
is_add_op-weight t op h = ground arith

is_mul_op-weight : (t : Token) (op : MulOp) → is_mul_op t ≡ some op → weight t ≡ 1
is_mul_op-weight t op h = ground arith

module _ (cx : Context) where
  scalar_level :
      (op : ScalarOp) (n bound : ℕ) (next : M Expr)
      → bound < n
      → Consumes bound next
      → Consumes bound (level n (is_scalar_op op) next (scalar_step cx))
  scalar_level op n bound next =
      level-Within (is_scalar_op op) next (scalar_step cx) (is_scalar_op-weight op)
        (λ o e f s. scalar_step-Within cx e f s o) n bound

  -- A parser that leaves no more than it finds makes every level one.
  pub rexp0-Consumes :
      (n bound : ℕ) (expr6 : M Expr)
      → bound < n
      → Consumes bound expr6
      → Consumes bound (rexp0 cx n expr6)
  unfolding rexp0 rexp1 rexp2 rexp3 expr0 expr1 expr2 expr3 expr4 expr5
  rexp0-Consumes n bound expr6 hn h = scalar_level ScalarOp.dbl_or n bound _ hn (
      scalar_level ScalarOp.dbl_xor n bound _ hn (
        scalar_level ScalarOp.dbl_and n bound _ hn (
          level-Within is_rel_op _ (rel_step cx) is_rel_op-weight
            (λ o e f s. rel_step-Within cx e f s o) n bound hn
            (scalar_level ScalarOp.bit_or n bound _ hn (
              scalar_level ScalarOp.bit_xor n bound _ hn (
                scalar_level ScalarOp.bit_and n bound _ hn (
                  level-Within is_shift_op _ (shift_step cx) is_shift_op-weight
                    (λ o e f s. shift_step-Within cx e f s o) n bound hn
                    (level-Within is_add_op _ (add_step cx) is_add_op-weight
                      (λ o e f s. add_step-Within cx e f s o) n bound hn
                      (level-Within is_mul_op expr6 (mul_step cx) is_mul_op-weight
                        (λ o e f s. mul_step-Within cx e f s o) n bound hn h)))))))))
