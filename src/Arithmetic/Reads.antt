-- ===== src/Arithmetic/Reads.antt =====
-- Reading a text at one level of asm/eval.c's grammar, at every higher level, and in parentheses.
use nasm.Prelude.{
  ℕ, zero, suc, ◌-◌, ◌≤◌, ◌<◌, ◌≡◌, ◌⊎◌, refl, List, [], ◌∷◌, ◌++◌, arith, length, length-append,
  ◌==◌, inl, inr, Option, none, some,
}
use mathlib.Core.Path.{subst}
use nasm.Word.{word, IsWord, of_bool}
use nasm.Expr.{Expr}
use nasm.Eval.State.{Token, Env, M}
use nasm.Eval.Evaluate.{cexpr, expr6}
use nasm.Arithmetic.{Ast, num, neg, bit_not, bool_not, bin, cond, denote, option_bind, sub64}
use nasm.Arithmetic.Levels.{parser}
use nasm.Arithmetic.Climb.{Parses, Chains, Parses-Chains, Chains-Parses, meaning-IsWord}
use nasm.Arithmetic.Operands.{cexpr-Parses}
use nasm.Arithmetic.Brackets.{paren-Parses}

pub bind_inv :
    (o : Option ℕ) (f : ℕ → Option ℕ) (v : ℕ)
    → option_bind o f ≡ some v
    → (x : ℕ) × (o ≡ some x) × (f x ≡ some v)
bind_inv none f v h = cc
bind_inv (some x) f v h = (x, refl, h)

-- The value of a tree is a 64-bit integer.
pub denote-IsWord : (a : Ast) (v : ℕ) → denote a ≡ some v → IsWord v
unfolding denote
denote-IsWord (num x) v h = ground arith
denote-IsWord (neg a) v h = ground (arith, bind_inv (denote a) (λ x. some (sub64 0 x)) v h)
denote-IsWord (bit_not a) v h = ground (arith, bind_inv (denote a) (λ x. some (word - 1 - x)) v h)
denote-IsWord (bool_not a) v h =
    ground (arith, bind_inv (denote a) (λ x. some (of_bool (x == 0))) v h)
denote-IsWord (bin op a b) v h =
    let (x, ha, h₁) = bind_inv (denote a) _ v h in
    let (y, hb, h₂) = bind_inv (denote b) _ v h₁ in
    meaning-IsWord op x y v (denote-IsWord a x ha) (denote-IsWord b y hb) h₂
denote-IsWord (cond a b c) v h =
    let (x, ha, h₁) = bind_inv (denote a) _ v h in
    let (y, hb, h₂) = bind_inv (denote b) _ v h₁ in
    let (z, hc, h₃) = bind_inv (denote c) _ v h₂ in
    let wy = denote-IsWord b y hb in let wz = denote-IsWord c z hc in ground (arith, wy, wz, h₃)

module _ (env : Env) where
  climb_one :
      (n : ℕ) (x6 : M Expr) (k : ℕ) (ts : List Token) (v : ℕ)
      → k < 10
      → length ts < n
      → Parses env (parser env.context n x6 k) k ts v
      → Parses env (parser env.context n x6 (suc k)) (suc k) ts v
  climb_one n x6 k ts v hk hn h =
      Chains-Parses env n x6 k ts v hk hn (Parses-Chains env n x6 k ts v h)

  last_or_below : (d k : ℕ) → d ≤ suc k → (d ≤ k) ⊎ (d ≡ suc k)
  last_or_below d k h = ground arith

  -- What a level reads, all levels above it read.
  pub climb :
      (n : ℕ) (x6 : M Expr) (d k : ℕ) (ts : List Token) (v : ℕ)
      → d ≤ k
      → k ≤ 10
      → length ts < n
      → Parses env (parser env.context n x6 d) d ts v
      → Parses env (parser env.context n x6 k) k ts v
  climb n x6 d zero ts v hd hk hn h =
      subst (λ (i : ℕ). Parses env (parser env.context n x6 i) i ts v) (omega arith) h
  climb n x6 d (suc k) ts v hd hk hn h = elim (last_or_below d k hd) [
    | inl below ↦
        climb_one n x6 k ts v (omega arith) hn (climb n x6 d k ts v below (omega arith) hn h)
    | inr same ↦ subst (λ (i : ℕ). Parses env (parser env.context n x6 i) i ts v) same h
  ]

  -- The number `v` is read off `ts` by the parser `d` levels up, on any fuel above the length.
  abbrev pub ReadsAt : ℕ → List Token → ℕ → Type 0
  ReadsAt d ts v =
      (n m : ℕ)
      → length ts < n
      → length ts < m
      → Parses env (parser env.context n (expr6 env m) d) d ts v

  abbrev pub ReadsTop : List Token → ℕ → Type 0
  ReadsTop ts v =
      (n m : ℕ) → length ts < n → length ts < m → Parses env (cexpr env n (expr6 env m)) 11 ts v

  pub ReadsAt-climb :
      (d k : ℕ) (ts : List Token) (v : ℕ) → d ≤ k → k ≤ 10 → ReadsAt d ts v → ReadsAt k ts v
  ReadsAt-climb d k ts v hd hk h n m hn hm = climb n (expr6 env m) d k ts v hd hk hn (h n m hn hm)

  pub ReadsAt-top : (ts : List Token) (v : ℕ) → ReadsAt 10 ts v → ReadsTop ts v
  ReadsAt-top ts v h zero m hn hm = absurd (omega arith)
  ReadsAt-top ts v h (suc n) m hn hm = cexpr-Parses env n (expr6 env m) ts v (h (suc n) m hn hm)

  -- In parentheses a text is read at every level.
  pub ReadsTop-paren :
      (ts : List Token) (v : ℕ) → ReadsTop ts v → ReadsAt 0 (Token.lpar ∷ ts ++ Token.rpar ∷ []) v
  unfolding parser
  ReadsTop-paren ts v h n zero hn hm = absurd (omega arith)
  ReadsTop-paren ts v h n (suc m) hn hm =
      let len = length-append ts (Token.rpar ∷ []) in
      paren-Parses env m ts v (h m m (omega arith) (omega arith))

  -- The same for the left operand of the level's loop.
  abbrev pub ReadsChain : ℕ → List Token → ℕ → Type 0
  ReadsChain k ts v = (n m : ℕ) → length ts < n → length ts < m → Chains env n (expr6 env m) k ts v

  pub ReadsAt-chain : (k : ℕ) (ts : List Token) (v : ℕ) → ReadsAt k ts v → ReadsChain k ts v
  ReadsAt-chain k ts v h n m hn hm = Parses-Chains env n (expr6 env m) k ts v (h n m hn hm)

  pub ReadsChain-at :
      (k : ℕ) (ts : List Token) (v : ℕ) → k < 10 → ReadsChain k ts v → ReadsAt (suc k) ts v
  ReadsChain-at k ts v hk h n m hn hm = Chains-Parses env n (expr6 env m) k ts v hk hn (h n m hn hm)
