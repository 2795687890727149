-- ===== src/Arithmetic/Value.antt =====
-- `evaluate` of asm/eval.c on the text of a tree.
use nasm.Prelude.{
  ℕ, ◌+◌, ◌≤◌, ◌≡◌, refl, sym, ap, ◌∙◌, List, [], arith, length, append-nil, true, false, Option,
  some,
}
use mathlib.Core.Path.{subst}
use nasm.Word.{IsWord, mul64}
use nasm.Expr.{Expr, is_really_simple, reloc_value}
use nasm.Expr.Scalars.{Shows, Shows-Reads}
use nasm.Vector.{Hint, set_hint_type, eah_nohint, scalar_mult}
use nasm.Eval.State.{Token, Env, State, ◌>>=◌, ◌>>◌, scan}
use nasm.Eval.State.Outcome.{ok}
use nasm.Eval.Evaluate.{cexpr, expr6, evaluate, evaluate_fuel, first_scan, with_wrt}
use nasm.Arithmetic.{Ast, denote, tokens}
use nasm.Arithmetic.Steps.{scalar_mult-Shows}
use nasm.Arithmetic.Climb.{Presents}
use nasm.Arithmetic.Reads.{denote-IsWord}
use nasm.Arithmetic.Correct.{cexpr-denote}

module _ (env : Env) where
  -- At the end of the input only the far-absolute part is stripped off.
  strip :
      (n v : ℕ) (e : Expr) (t : Token) (s : State)
      → IsWord v
      → t ≡ Token.eos
      → Shows env.context v e
      → (e' : Expr) × (s' : State) × (with_wrt env n e t s ≡ ok e' s')
        × Shows env.context v e'
        × (s'.tt ≡ s.tt)
        × (s'.input ≡ s.input)
  strip n v e t s wv h shows =
      let same : mul64 1 v ≡ v = omega arith in
      (
        (scalar_mult env.context false 1 s.hint e).0,
        _,
        ap (λ t. with_wrt env n e t s) h,
        subst (λ v. Shows env.context v (scalar_mult env.context false 1 s.hint e).0) same
            (scalar_mult-Shows env.context false s.hint 1 v e shows),
        refl,
        refl,
      )

  evaluate_run :
      (n : ℕ) (e e' : Expr) (s s₁ s₂ s₃ : State)
      → first_scan env s.tt s ≡ ok tt s₁
      → cexpr env n (expr6 env n) s₁ ≡ ok e s₂
      → with_wrt env n e s₂.tt s₂ ≡ ok e' s₃
      → evaluate_fuel env n s ≡ ok e' s₃
  unfolding evaluate_fuel
  evaluate_run n e e' s s₁ s₂ s₃ run₁ run₂ run₃ = rw (◌>>=◌, ◌>>◌, run₁, run₂, run₃)

  first_token :
      (ts : List Token) (s : State)
      → s.tt ≡ Token.invalid
      → s.input ≡ ts
      → (s' : State) × (first_scan env s.tt s ≡ ok tt s')
        × Presents s' ts
        × (s'.deadman ≡ s.deadman)
  unfolding scan
  first_token ts s h h' = (_, ap (λ t. first_scan env t s) h, rw (sym h') (refl, refl), refl)

  -- If a tree has a value, and the limit on the calls of `expr6` allows one for each token of its text,
  -- then the text is evaluated to that value, as a pure scalar, and no token of it is left.
  pub evaluate-denote :
      (a : Ast) (v : ℕ) (opflags : Option ℕ) (hint : Hint)
      → denote a ≡ some v
      → length (tokens 11 a) ≤ env.limit
      → (e : Expr) × (s : State) × (evaluate env Token.invalid (tokens 11 a) opflags hint ≡ ok e s)
        × (is_really_simple env.context e ≡ true)
        × (reloc_value env.context e ≡ v)
        × (s.tt ≡ Token.eos)
        × (s.input ≡ [])
  unfolding evaluate
  evaluate-denote a v opflags hint h lim =
      let ts = tokens 11 a in
      let n = length ts + 3 in
      let s : State = record {
        input = ts;
        tt = Token.invalid;
        hint = set_hint_type eah_nohint hint;
        opflags = opflags;
        deadman = 0;
        log = [];
      } in
      let (s₁, run₁, pres, same) = first_token ts s refl refl in
      let (e, s₂, run₂, ends) =
        cexpr-denote env a v h n n (omega arith) (omega arith) [] s₁ (rw append-nil pres)
          (omega arith) (omega (arith, same)) in
      let (e', s₃, run₃, shows, same_token, same_input) =
        strip n v e s₂.tt s₂ (denote-IsWord a v h) ends.presents.0 ends.shows in
      let r = Shows-Reads env.context v e' shows in
      (
        e',
        s₃,
        evaluate_run n e e' s s₁ s₂ s₃ run₁ run₂ run₃,
        r.really_simple,
        r.value,
        same_token ∙ ends.presents.0,
        same_input ∙ ends.presents.1,
      )
