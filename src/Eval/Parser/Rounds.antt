-- ===== src/Eval/Parser/Rounds.antt =====
-- One round of the loops of asm/eval.c's grammar levels, as equations.
use nasm.Prelude.{ℕ, zero, suc, ◌-◌, ◌<◌, arith, ◌≡◌, ◌∙◌, Option, none, some}
use nasm.Expr.{Expr}
use nasm.Eval.State.{Token, State, M, ◌>>=◌, ◌>>◌, scan}
use nasm.Eval.State.Outcome.{ok}
use nasm.Eval.Parser.{chain}

module _ {Op : Type 0} (op_of : Token → Option Op) (next : M Expr)
    (step : Op → Expr → Expr → M Expr) where
  pub chain-none :
      (n : ℕ) (e : Expr) (s : State)
      → op_of s.tt ≡ none
      → chain (suc n) op_of next step e s ≡ ok e s
  unfolding chain
  chain-none n e s h = rw (h, chain)

  pub chain-some :
      (n : ℕ) (op : Op) (e : Expr) (s : State)
      → op_of s.tt ≡ some op
      → chain (suc n) op_of next step e s
        ≡ (do scan; f ← next; e' ← step op e f; chain n op_of next step e') s
  unfolding chain
  chain-some n op e s h = rw (h, chain)

  pub chain_stop :
      (n : ℕ) (e : Expr) (s : State)
      → 0 < n
      → op_of s.tt ≡ none
      → chain n op_of next step e s ≡ ok e s
  chain_stop zero e s pos h = absurd (omega arith)
  chain_stop (suc n) e s pos h = chain-none n e s h

  -- A round in which the scanner, the next level and the operator all succeed.
  pub chain_round :
      (n : ℕ) (op : Op) (e f e' : Expr) (s₁ s₂ s₃ s₄ : State)
      → 0 < n
      → op_of s₁.tt ≡ some op
      → scan s₁ ≡ ok tt s₂
      → next s₂ ≡ ok f s₃
      → step op e f s₃ ≡ ok e' s₄
      → chain n op_of next step e s₁ ≡ chain (n - 1) op_of next step e' s₄
  chain_round zero op e f e' s₁ s₂ s₃ s₄ pos h r₁ r₂ r₃ = absurd (omega arith)
  chain_round (suc n) op e f e' s₁ s₂ s₃ s₄ pos h r₁ r₂ r₃ =
      let one : suc n - 1 ≡ n = omega arith in
      rw one (chain-some n op e s₁ h ∙ rw (◌>>=◌, ◌>>◌, r₁, r₂, r₃))
