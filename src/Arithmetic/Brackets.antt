-- ===== src/Arithmetic/Brackets.antt =====
-- Reading a parenthesis and a conditional in asm/eval.c.
use nasm.Prelude.{
  ℕ, suc, ◌≡◌, ap, ◌∙◌, List, [], ◌∷◌, ◌++◌, arith, length-append, append_assoc, Bool, true, false,
  ◌==◌, if◌then◌else◌,
}
use nasm.Expr.{Expr}
use nasm.Expr.Scalars.{Shows, Shows-Reads}
use nasm.Eval.State.{Token, Env, State, M, ◌>>=◌, ◌>>◌, scan}
use nasm.Eval.State.Outcome.{ok}
use nasm.Eval.Operand.{need_rpar}
use nasm.Eval.Evaluate.{cexpr, expr6, expr6_at, conditional, choose, need_colon}
use nasm.Arithmetic.Levels.{parser, rexp0-parser}
use nasm.Arithmetic.Climb.{scan_lem, Parses}
use nasm.Arithmetic.Operands.{called, enter}

module _ (env : Env) where
  need_rpar_lem : (t : Token) (s : State) → t ≡ Token.rpar → need_rpar t s ≡ ok tt s
  need_rpar_lem t s h = ground arith

  need_colon_lem : (t : Token) (s : State) → t ≡ Token.colon → need_colon env t s ≡ ok tt s
  need_colon_lem t s h = ground arith

  pub paren-Parses :
      (m : ℕ) (ts : List Token) (v : ℕ)
      → Parses env (cexpr env m (expr6 env m)) 11 ts v
      → Parses env (expr6 env (suc m)) 0 (Token.lpar ∷ ts ++ Token.rpar ∷ []) v
  unfolding expr6_at
  paren-Parses m ts v h rest s p stop lim =
      let len = length-append ts (Token.rpar ∷ []) in
      let (s₁, run₁, pres₁, same₁) =
        scan_lem (called env s) Token.lpar (ts ++ (Token.rpar ∷ rest)) (rw append_assoc at p) in
      let (e, s₂, run₂, ends₂) = h (Token.rpar ∷ rest) s₁ pres₁ (omega arith) (omega arith) in
      let (s₃, run₃, pres₃, same₃) = scan_lem s₂ Token.rpar rest ends₂.presents in
      (
        e,
        s₃,
        enter env m s Token.lpar p.0 (omega arith)
            ∙ rw (◌>>=◌, ◌>>◌, run₁, run₂, need_rpar_lem s₂.tt s₂ ends₂.presents.0, run₃),
        record {
          shows = ends₂.shows;
          presents = pres₃;
          calls = omega (arith, same₁, ends₂.calls, same₃);
        },
      )

  choose_lem :
      (x y z : ℕ) (e f g : Expr) (s : State)
      → Shows env.context x e
      → Shows env.context y f
      → Shows env.context z g
      → (r : Expr) × (choose env e f g s ≡ ok r s) × Shows env.context (if x == 0 then z else y) r
  choose_lem x y z e f g s he hf hg =
      let r = Shows-Reads env.context x e he in
      ((if x == 0 then g else f), rw (choose, r.simple, r.value), pick (x == 0))
    where
      pick : (b : Bool) → Shows env.context (if b then z else y) (if b then g else f)
      pick true = hg
      pick false = hf

  -- The calls that `cexpr` makes on a conditional, one after the other.
  cond_run :
      (n : ℕ) (x6 : M Expr) (e f g r : Expr) (s s₁ s₂ s₃ s₄ s₅ : State)
      → parser env.context (suc n) x6 10 s ≡ ok e s₁
      → s₁.tt ≡ Token.qmark
      → scan s₁ ≡ ok tt s₂
      → cexpr env n x6 s₂ ≡ ok f s₃
      → s₃.tt ≡ Token.colon
      → scan s₃ ≡ ok tt s₄
      → cexpr env n x6 s₄ ≡ ok g s₅
      → choose env e f g s₅ ≡ ok r s₅
      → cexpr env (suc n) x6 s ≡ ok r s₅
  unfolding cexpr
  cond_run n x6 e f g r s s₁ s₂ s₃ s₄ s₅ run₁ q run₂ run₃ c run₄ run₅ run₆ =
      rw (◌>>=◌, rexp0-parser, run₁)
        (ap (λ (t : Token). conditional env (cexpr env n x6) e t s₁) q
          ∙ rw (◌>>=◌, ◌>>◌, run₂, run₃, need_colon_lem s₃.tt s₃ c, run₄, run₅, run₆))

  pub cond-Parses :
      (n : ℕ) (x6 : M Expr) (ta tb tc : List Token) (x y z : ℕ)
      → Parses env (parser env.context (suc n) x6 10) 10 ta x
      → Parses env (cexpr env n x6) 11 tb y
      → Parses env (cexpr env n x6) 11 tc z
      → Parses env
          (cexpr env (suc n) x6)
          11
          (ta ++ Token.qmark ∷ (tb ++ Token.colon ∷ tc))
          (if x == 0 then z else y)
  cond-Parses n x6 ta tb tc x y z ha hb hc rest s p stop lim =
      let len = length-append ta (Token.qmark ∷ (tb ++ Token.colon ∷ tc)) in
      let len' = length-append tb (Token.colon ∷ tc) in
      let (e, s₁, run₁, ends₁) =
        ha (Token.qmark ∷ (tb ++ (Token.colon ∷ (tc ++ rest)))) s
          (rw (append_assoc, append_assoc) at p) (omega arith) (omega arith) in
      let (s₂, run₂, pres₂, same₂) = scan_lem s₁ Token.qmark _ ends₁.presents in
      let (f, s₃, run₃, ends₃) =
        hb (Token.colon ∷ (tc ++ rest)) s₂ pres₂ (omega arith) (omega (arith, ends₁.calls)) in
      let (s₄, run₄, pres₄, same₄) = scan_lem s₃ Token.colon (tc ++ rest) ends₃.presents in
      let (g, s₅, run₅, ends₅) = hc rest s₄ pres₄ stop (omega (arith, ends₁.calls, ends₃.calls)) in
      let (r, run₆, shows) = choose_lem x y z e f g s₅ ends₁.shows ends₃.shows ends₅.shows in
      (
        r,
        s₅,
        cond_run n x6 e f g r s s₁ s₂ s₃ s₄ s₅ run₁ ends₁.presents.0 run₂ run₃ ends₃.presents.0 run₄
            run₅ run₆,
        record {
          shows = shows;
          presents = ends₅.presents;
          calls = omega (arith, ends₁.calls, ends₃.calls, ends₅.calls);
        },
      )
