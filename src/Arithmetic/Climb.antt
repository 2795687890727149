-- ===== src/Arithmetic/Climb.antt =====
-- Reading a tree's tokens at one level of asm/eval.c's grammar, and going up to the next level.
use nasm.Prelude.{
  ℕ, suc, ◌+◌, ◌-◌, ◌≤◌, ◌<◌, ◌≡◌, refl, ◌∙◌, List, ◌∷◌, ◌++◌, some, arith, length, length-append,
  append_assoc,
}
use mathlib.Core.Path.{subst}
use nasm.Word.{IsWord}
use nasm.Word.Bits.{bit_and-lt, bit_or-lt, bit_xor-lt}
use nasm.Expr.{Expr, Context}
use nasm.Expr.Scalars.{Shows}
use nasm.Eval.State.{Token, Env, State, M, ◌>>=◌, scan, next_input}
use nasm.Eval.State.Outcome.{ok}
use mathlib.Core.Option.{some-injective}
use nasm.Eval.Operators.{ShiftOp, MulOp, ScalarOp, shift_step, scalar_step}
use nasm.Eval.Parser.{level, chain}
use nasm.Eval.Parser.Rounds.{chain_stop, chain_round}
use nasm.Arithmetic.{Binop, meaning, scalar, rel, shift, add, mul, binop_inner, binop_token}
use nasm.Arithmetic.Computed.{computed, shift_computed, meaning-computed}
use nasm.Arithmetic.Steps.{
  Gives, Gives-inv, scalar_step-Gives, shift_step-Gives, add_step-Gives, mul_step-Gives,
  rel_step-Gives,
}
use nasm.Arithmetic.Levels.{
  loop_at, step_of, op_of, loop_op, parser, token_depth, token_depth-binop, op_of-binop, op_of-none,
}

-- The current token and those to come are `ts`.
abbrev pub Presents : State → List Token → Type 0
Presents s ts = (s.tt ≡ (next_input ts).0) × (s.input ≡ (next_input ts).1)

pub scan_lem :
    (s : State) (t : Token) (ts : List Token)
    → Presents s (t ∷ ts)
    → (s' : State) × (scan s ≡ ok tt s') × Presents s' ts × (s'.deadman ≡ s.deadman)
unfolding scan
scan_lem s t ts (e, e') =
    (record s { tt = (next_input ts).0; input = (next_input ts).1 }, rw e', (refl, refl), refl)

shift_in_range :
    (op : ShiftOp) (a b v : ℕ)
    → computed (shift op) a b ≡ some v
    → (b < 64) × (shift_computed op a b ≡ v)
shift_in_range op a b v h = ground arith

-- The step of a loop on two numbers.
computed-Gives :
    (cx : Context) (op : Binop) (e f : Expr) (a b v : ℕ) (s : State)
    → IsWord a
    → IsWord b
    → Shows cx a e
    → Shows cx b f
    → computed op a b ≡ some v
    → Gives cx v s (step_of cx (loop_at (binop_inner op)) (loop_op op) e f s)
computed-Gives cx (mul op) e f a b v s wa wb pa pb h = mul_step-Gives cx e f a b s wa wb pa pb op h
computed-Gives cx (add op) e f a b v s wa wb pa pb h = add_step-Gives cx e f a b s wa wb pa pb op h
computed-Gives cx (rel op) e f a b v s wa wb pa pb h = rel_step-Gives cx e f a b s wa wb pa pb op h
computed-Gives cx (shift op) e f a b v s wa wb pa pb h =
    let (lt, e') = shift_in_range op a b v h in
    subst (λ x. Gives cx x s (shift_step cx op e f s)) e'
      (shift_step-Gives cx e f a b s wa wb pa pb op lt)
computed-Gives cx (scalar ScalarOp.dbl_or) e f a b v s wa wb pa pb h =
    subst (λ x. Gives cx x s (scalar_step cx ScalarOp.dbl_or e f s)) (some-injective _ _ h)
      (scalar_step-Gives cx e f a b s wa wb pa pb ScalarOp.dbl_or)
computed-Gives cx (scalar op) e f a b v s wa wb pa pb h =
    subst (λ x. Gives cx x s (scalar_step cx op e f s)) (some-injective _ _ h)
      (scalar_step-Gives cx e f a b s wa wb pa pb op)

-- Each operator of a tree is the step of its loop.
binop-Gives :
    (cx : Context) (op : Binop) (e f : Expr) (a b v : ℕ) (s : State)
    → IsWord a
    → IsWord b
    → Shows cx a e
    → Shows cx b f
    → meaning op a b ≡ some v
    → Gives cx v s (step_of cx (loop_at (binop_inner op)) (loop_op op) e f s)
binop-Gives cx op e f a b v s wa wb pa pb h =
    computed-Gives cx op e f a b v s wa wb pa pb (meaning-computed op a b v wa wb h)

computed-IsWord :
    (op : Binop) (a b v : ℕ) → IsWord a → IsWord b → computed op a b ≡ some v → IsWord v
computed-IsWord (scalar ScalarOp.bit_and) a b v wa wb h = ground (arith, bit_and-lt a b 64 wa wb)
computed-IsWord (scalar ScalarOp.bit_or) a b v wa wb h = ground (arith, bit_or-lt a b 64 wa wb)
computed-IsWord (scalar ScalarOp.bit_xor) a b v wa wb h = ground (arith, bit_xor-lt a b 64 wa wb)
computed-IsWord (scalar op) a b v wa wb h = ground arith
computed-IsWord (rel op) a b v wa wb h = ground arith
computed-IsWord (shift ShiftOp.shl) a b v wa wb h = ground arith
computed-IsWord (shift op) a b v wa wb h = ground arith
computed-IsWord (add op) a b v wa wb h = ground arith
computed-IsWord (mul MulOp.mult) a b v wa wb h = ground arith
computed-IsWord (mul op) a b v wa wb h = ground arith

pub meaning-IsWord :
    (op : Binop) (a b v : ℕ) → IsWord a → IsWord b → meaning op a b ≡ some v → IsWord v
meaning-IsWord op a b v wa wb h = computed-IsWord op a b v wa wb (meaning-computed op a b v wa wb h)

module _ (env : Env) where
  -- A run that has read a number `v`: its vector, the tokens left, and the calls of `expr6`.
  pub record Ends (v bound : ℕ) (rest : List Token) (e : Expr) (s : State) : Type 0 where
    pub shows : Shows env.context v e
    pub presents : Presents s rest
    pub calls : s.deadman ≤ bound

  -- From a state that presents `ts` before a token that stops the level `k`, the parser reads `ts`
  -- off as the number `v`, if the limit on calls allows one for each token.
  abbrev pub Parses : M Expr → ℕ → List Token → ℕ → Type 0
  Parses p k ts v =
      (rest : List Token) (s : State)
      → Presents s (ts ++ rest)
      → k < token_depth (next_input rest).0
      → s.deadman + length ts ≤ env.limit
      → (e : Expr) × (s' : State) × (p s ≡ ok e s') × Ends v (s.deadman + length ts) rest e s'

  -- The same for a level that has read `ts` as its left operand, and goes on with its loop.
  abbrev pub Chains : ℕ → M Expr → ℕ → List Token → ℕ → Type 0
  Chains n expr6 k ts v =
      (rest : List Token) (s : State)
      → Presents s (ts ++ rest)
      → k < token_depth (next_input rest).0
      → s.deadman + length ts ≤ env.limit
      → (e : Expr) × (s' : State) × (fuel : ℕ) × (parser env.context n expr6 (suc k) s
          ≡ chain fuel (op_of (loop_at k)) (parser env.context n expr6 k)
              (step_of env.context (loop_at k)) e s')
        × Ends v (s.deadman + length ts) rest e s'
        × (n ≤ fuel + length ts)

  module _ (n : ℕ) (expr6 : M Expr) where
    abbrev level_parser : ℕ → M Expr
    level_parser = parser env.context n expr6

    -- What the next level reads is the left operand of this one.
    pub Parses-Chains :
        (k : ℕ) (ts : List Token) (v : ℕ) → Parses (level_parser k) k ts v → Chains n expr6 k ts v
    unfolding parser level
    Parses-Chains k ts v h rest s p stop lim =
        let (e, s', run, ends) = h rest s p stop lim in
        (e, s', n, rw (◌>>=◌, run), ends, omega arith)

    -- A left operand at a token that stops the level is all that the level reads.
    pub Chains-Parses :
        (k : ℕ) (ts : List Token) (v : ℕ)
        → k < 10
        → length ts < n
        → Chains n expr6 k ts v
        → Parses (level_parser (suc k)) (suc k) ts v
    Chains-Parses k ts v hk hn h rest s p stop lim =
        let (e, s', fuel, run, ends, enough) = h rest s p (omega arith) lim in
        let none_here = op_of-none k s'.tt hk (rw ends.presents.0 stop) in
        (e, s', run ∙ chain_stop _ _ _ fuel e s' (omega arith) none_here, ends)

    -- A left operand, an operator of the level, and a right operand for the next level.
    pub Chains-bin :
        (op : Binop) (ta tb : List Token) (a b v : ℕ)
        → IsWord a
        → IsWord b
        → meaning op a b ≡ some v
        → length (ta ++ binop_token op ∷ tb) < n
        → Chains n expr6 (binop_inner op) ta a
        → Parses (level_parser (binop_inner op)) (binop_inner op) tb b
        → Chains n expr6 (binop_inner op) (ta ++ binop_token op ∷ tb) v
    Chains-bin op ta tb a b v wa wb h hn ha hb rest s p stop lim =
        let len = length-append ta (binop_token op ∷ tb) in
        let (e₁, s₁, fuel, run₁, ends₁, enough) =
          ha (binop_token op ∷ (tb ++ rest)) s (rw append_assoc at p)
            (omega (arith, token_depth-binop op)) (omega arith) in
        let (s₂, run₂, pres₂, same₂) = scan_lem s₁ (binop_token op) (tb ++ rest) ends₁.presents in
        let (f, s₃, run₃, ends₃) = hb rest s₂ pres₂ stop (omega (arith, ends₁.calls)) in
        let (e', s₄, run₄, shows, same) =
          Gives-inv env.context v s₃ _
            (binop-Gives env.context op e₁ f a b v s₃ wa wb ends₁.shows ends₃.shows h) in
        (
          e',
          s₄,
          fuel - 1,
          run₁
              ∙ chain_round _ _ _ fuel (loop_op op) e₁ f e' s₁ s₂ s₃ s₄ (omega arith)
                  (rw ends₁.presents.0 (op_of-binop op)) run₂ run₃ run₄,
          record {
            shows = shows;
            presents = (same.0 ∙ ends₃.presents.0, same.1 ∙ ends₃.presents.1);
            calls = omega (arith, ends₁.calls, ends₃.calls, same.2);
          },
          omega arith,
        )
