-- ===== src/Arithmetic/Operands.antt =====
-- Reading a number and a unary operator in asm/eval.c, and a level's text by `cexpr`.
use nasm.Prelude.{ℕ, suc, ◌+◌, ◌<◌, ◌≡◌, refl, ◌∙◌, List, [], ◌∷◌, ◌++◌, arith, false, ◌==◌, inr}
use nasm.Word.{IsWord, not64, of_bool, minus_one, mul64}
use nasm.Expr.{Expr}
use nasm.Expr.Scalars.{Shows, Shows-Reads}
use nasm.Vector.{scalarvect}
use nasm.Eval.State.{Token, Message, Env, State, M, ◌>>=◌, ◌>>◌, pure, scan}
use nasm.Eval.State.Outcome.{ok}
use nasm.Eval.Operators.{mult_by, unary_step}
use nasm.Eval.Operand.{operand}
use nasm.Eval.Evaluate.{cexpr, expr6, expr6_at, conditional}
use nasm.Arithmetic.{sub64}
use nasm.Arithmetic.Steps.{Gives, Gives-inv, scalar_mult-Shows}
use nasm.Arithmetic.Levels.{parser, token_depth, rexp0-parser}
use nasm.Arithmetic.Climb.{scan_lem, Parses}

module _ (env : Env) where
  abbrev pub called : State → State
  called s = record s { deadman = s.deadman + 1 }

  -- A call of `expr6` within the limit looks at the current token.
  pub enter :
      (m : ℕ) (s : State) (t : Token)
      → s.tt ≡ t
      → s.deadman < env.limit
      → expr6 env (suc m) s ≡ expr6_at env (expr6 env m) (cexpr env m (expr6 env m)) t (called s)
  unfolding expr6
  enter m s t e h = rw (← e) (ground arith)

  pub num-Parses : (m v : ℕ) → Parses env (expr6 env (suc m)) 0 (Token.num v ∷ []) v
  unfolding expr6_at operand scalarvect
  num-Parses m v rest s p stop lim =
      let (s', run, pres, same) = scan_lem (called s) (Token.num v) rest p in
      (
        _,
        s',
        enter m s (Token.num v) p.0 (omega arith) ∙ rw (◌>>◌, run),
        record { shows = inr refl; presents = pres; calls = omega (arith, same) },
      )

  -- A prefix operator, whose case of the `switch` reads an operand and goes on with `k`.
  prefix-Parses :
      (m : ℕ) (t : Token) (ts : List Token) (x v : ℕ) (k : Expr → M Expr)
      → ((s : State)
          → expr6_at env (expr6 env m) (cexpr env m (expr6 env m)) t s
            ≡ (do scan; e ← expr6 env m; k e) s)
      → ((e : Expr) (s : State) → Shows env.context x e → Gives env.context v s (k e s))
      → Parses env (expr6 env m) 0 ts x
      → Parses env (expr6 env (suc m)) 0 (t ∷ ts) v
  prefix-Parses m t ts x v k at gives h rest s p stop lim =
      let (s₁, run₁, pres₁, same₁) = scan_lem (called s) t (ts ++ rest) p in
      let (e, s₂, run₂, ends₂) = h rest s₁ pres₁ stop (omega arith) in
      let (e', s₃, run₃, shows, same₃) =
        Gives-inv env.context v s₂ (k e s₂) (gives e s₂ ends₂.shows) in
      (
        e',
        s₃,
        enter m s t p.0 (omega arith) ∙ at (called s) ∙ rw (◌>>=◌, ◌>>◌, run₁, run₂, run₃),
        record {
          shows = shows;
          presents = (same₃.0 ∙ ends₂.presents.0, same₃.1 ∙ ends₂.presents.1);
          calls = omega (arith, same₁, ends₂.calls, same₃.2);
        },
      )

  pub neg-Parses :
      (m : ℕ) (ts : List Token) (x : ℕ)
      → IsWord x
      → Parses env (expr6 env m) 0 ts x
      → Parses env (expr6 env (suc m)) 0 (Token.minus ∷ ts) (sub64 0 x)
  unfolding expr6_at
  neg-Parses m ts x wx =
      prefix-Parses m Token.minus ts x (sub64 0 x) (mult_by env.context false minus_one) (λ s. refl)
        λ e s h.
          let e' : sub64 0 x ≡ mul64 minus_one x = omega arith in
          (rw e' (scalar_mult-Shows env.context false s.hint minus_one x e h), (refl, refl, refl))

  unary-Gives :
      (m : Message) (f : ℕ → ℕ) (x : ℕ) (e : Expr) (s : State)
      → Shows env.context x e
      → Gives env.context (f x) s (unary_step env.context m (λ v. pure (f v)) e s)
  unfolding scalarvect
  unary-Gives m f x e s h =
      let r = Shows-Reads env.context x e h in
      rw (unary_step, r.not_just_unknown, r.simple, r.value) (inr refl, (refl, refl, refl))

  pub bit_not-Parses :
      (m : ℕ) (ts : List Token) (x : ℕ)
      → Parses env (expr6 env m) 0 ts x
      → Parses env (expr6 env (suc m)) 0 (Token.bit_not ∷ ts) (not64 x)
  unfolding expr6_at
  bit_not-Parses m ts x =
      prefix-Parses m Token.bit_not ts x (not64 x) _ (λ s. refl)
        (unary-Gives Message.not_scalar not64 x)

  pub bool_not-Parses :
      (m : ℕ) (ts : List Token) (x : ℕ)
      → Parses env (expr6 env m) 0 ts x
      → Parses env (expr6 env (suc m)) 0 (Token.bool_not ∷ ts) (of_bool (x == 0))
  unfolding expr6_at
  bool_not-Parses m ts x =
      prefix-Parses m Token.bool_not ts x (of_bool (x == 0)) _ (λ s. refl)
        (unary-Gives Message.not_scalar (λ v. of_bool (v == 0)) x)

  -- `cexpr` reads what `rexp0` reads, where no conditional follows.
  conditional_stop :
      (again : M Expr) (e : Expr) (t : Token) (s : State)
      → 11 < token_depth t
      → conditional env again e t s ≡ ok e s
  conditional_stop again e t s h = ground arith

  pub cexpr-Parses :
      (n : ℕ) (expr6 : M Expr) (ts : List Token) (v : ℕ)
      → Parses env (parser env.context (suc n) expr6 10) 10 ts v
      → Parses env (cexpr env (suc n) expr6) 11 ts v
  unfolding cexpr
  cexpr-Parses n expr6 ts v h rest s p stop lim =
      let (e, s', run, ends) = h rest s p (omega arith) lim in
      (
        e,
        s',
        rw (◌>>=◌, rexp0-parser, run)
            (conditional_stop (cexpr env n expr6) e s'.tt s' (rw ends.presents.0 stop)),
        ends,
      )
