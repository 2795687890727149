-- ===== src/Arithmetic/Correct.antt =====
-- The trees of numbers and operators in the functions of asm/eval.c, by induction on the tree.
use nasm.Prelude.{
  ℕ, zero, suc, ◌-◌, ◌≤◌, ◌<◌, ◌≡◌, ◌⊎◌, sym, List, [], ◌∷◌, ◌++◌, arith, length, length-append,
  true, ◌==◌, leb, if◌then◌else◌, inl, inr, some,
}
use mathlib.Core.Path.{subst}
use mathlib.Core.Option.{some-injective}
use nasm.Word.{word, IsWord, not64, of_bool}
use nasm.Eval.State.{Token, Env}
use nasm.Eval.Evaluate.{expr6}
use nasm.Eval.Operators.{ScalarOp}
use nasm.Arithmetic.{
  Binop, scalar, rel, shift, add, mul, Ast, num, neg, bit_not, bool_not, bin, cond, denote, meaning,
  tokens, wrap, binop_inner, binop_token, sub64,
}
use nasm.Arithmetic.Levels.{parser}
use nasm.Arithmetic.Climb.{Parses, Chains-bin}
use nasm.Arithmetic.Operands.{num-Parses, neg-Parses, bit_not-Parses, bool_not-Parses}
use nasm.Arithmetic.Brackets.{cond-Parses}
use nasm.Arithmetic.Reads.{
  bind_inv, denote-IsWord, ReadsAt, ReadsTop, ReadsChain, ReadsAt-climb, ReadsAt-top,
  ReadsTop-paren, ReadsAt-chain, ReadsChain-at,
}

-- Whether a text of the depth `d` is put in parentheses at the level `k`.
wrap_cases :
    (k d : ℕ) (ts : List Token)
    → (wrap (leb k d) ts ≡ wrap true ts) ⊎ ((wrap (leb k d) ts ≡ ts) × (suc d ≤ k))
wrap_cases k d ts = ground arith

module _ (env : Env) where
  -- A family of texts, one for each level, that are read as `v` there.
  record ReadsAll (f : ℕ → List Token) (v : ℕ) : Type 0 where
    at : (k : ℕ) → k ≤ 10 → ReadsAt env k (f k) v
    chained : (k : ℕ) → k < 10 → ReadsChain env k (f (suc k)) v
    top : ReadsTop env (f 11) v

  -- A text that `expr6` reads is read at every level.
  primary : (ts : List Token) (v : ℕ) → ReadsAt env 0 ts v → ReadsAll (λ _. ts) v
  primary ts v h = record {
    at = λ k hk. ReadsAt-climb env 0 k ts v (omega arith) hk h;
    chained =
        λ k hk. ReadsAt-chain env k ts v (ReadsAt-climb env 0 k ts v (omega arith) (omega arith) h);
    top = ReadsAt-top env ts v (ReadsAt-climb env 0 10 ts v (omega arith) (omega arith) h);
  }

  parens : (ts : List Token) (v : ℕ) → ReadsTop env ts v → ReadsAll (λ _. wrap true ts) v
  parens ts v h = primary (wrap true ts) v (ReadsTop-paren env ts v h)

  wrapped_at :
      (d k : ℕ) (ts : List Token) (v : ℕ)
      → k ≤ 10
      → ReadsTop env ts v
      → ReadsAt env (suc d) ts v
      → ReadsAt env k (wrap (leb k d) ts) v
  wrapped_at d k ts v hk top h = elim (wrap_cases k d ts) [
    | inl e ↦ subst (λ t. ReadsAt env k t v) (sym e) ((parens ts v top).at k hk)
    | inr (e, le) ↦
        subst (λ t. ReadsAt env k t v) (sym e) (ReadsAt-climb env (suc d) k ts v le hk h)
  ]

  at_or_above : (d k : ℕ) → suc d ≤ suc k → (d ≡ k) ⊎ (suc d ≤ k)
  at_or_above d k h = ground arith

  unwrapped_chain :
      (d k : ℕ) (ts : List Token) (v : ℕ)
      → suc d ≤ suc k
      → k < 10
      → ReadsChain env d ts v
      → ReadsAt env (suc d) ts v
      → ReadsChain env k ts v
  unwrapped_chain d k ts v le hk c h = elim (at_or_above d k le) [
    | inl e ↦ subst (λ i. ReadsChain env i ts v) e c
    | inr above ↦ ReadsAt-chain env k ts v (ReadsAt-climb env (suc d) k ts v above (omega arith) h)
  ]

  wrapped_chain :
      (d k : ℕ) (ts : List Token) (v : ℕ)
      → k < 10
      → ReadsTop env ts v
      → ReadsChain env d ts v
      → ReadsAt env (suc d) ts v
      → ReadsChain env k (wrap (leb (suc k) d) ts) v
  wrapped_chain d k ts v hk top c h = elim (wrap_cases (suc k) d ts) [
    | inl e ↦ subst (λ t. ReadsChain env k t v) (sym e) ((parens ts v top).chained k hk)
    | inr (e, le) ↦ subst (λ t. ReadsChain env k t v) (sym e) (unwrapped_chain d k ts v le hk c h)
  ]

  not_wrapped : (d : ℕ) (ts : List Token) → d < 11 → wrap (leb 11 d) ts ≡ ts
  not_wrapped d ts hd = ground arith

  binary :
      (d : ℕ) (ts : List Token) (v : ℕ)
      → d < 10
      → ReadsChain env d ts v
      → ReadsAll (λ k. wrap (leb k d) ts) v
  binary d ts v hd c =
      let h = ReadsChain-at env d ts v hd c in
      let top =
        ReadsAt-top env ts v (ReadsAt-climb env (suc d) 10 ts v (omega arith) (omega arith) h) in
      record {
        at = λ k hk. wrapped_at d k ts v hk top h;
        chained = λ k hk. wrapped_chain d k ts v hk top c h;
        top = subst (λ t. ReadsTop env t v) (sym (not_wrapped d ts (omega arith))) top;
      }

  ternary : (ts : List Token) (v : ℕ) → ReadsTop env ts v → ReadsAll (λ k. wrap (leb k 10) ts) v
  ternary ts v top = record {
    at = λ k hk. subst (λ t. ReadsAt env k t v) (wrapped k ts hk) ((parens ts v top).at k hk);
    chained = λ k hk.
        subst (λ t. ReadsChain env k t v) (wrapped (suc k) ts (omega arith))
          ((parens ts v top).chained k hk);
    top = top;
  }
    where
      wrapped : (k : ℕ) (ts : List Token) → k ≤ 10 → wrap true ts ≡ wrap (leb k 10) ts
      wrapped k ts hk = ground arith

  prefixed :
      (t : Token) (ts : List Token) (v : ℕ)
      → ((m : ℕ) → length ts < m → Parses env (expr6 env (suc m)) 0 (t ∷ ts) v)
      → ReadsAll (λ _. t ∷ ts) v
  unfolding parser
  prefixed t ts v h = primary (t ∷ ts) v λ n m hn hm.
      (elim m as (λ (m : ℕ). length (t ∷ ts) < m → Parses env (expr6 env m) 0 (t ∷ ts) v) [
        | zero ↦ λ hm. absurd (omega arith)
        | suc m ↦ λ hm. h m (omega arith)
      ])
        hm

  binop_below : (op : Binop) → binop_inner op < 10
  binop_below (scalar ScalarOp.bit_and) = omega arith
  binop_below (scalar ScalarOp.bit_xor) = omega arith
  binop_below (scalar ScalarOp.bit_or) = omega arith
  binop_below (scalar ScalarOp.dbl_and) = omega arith
  binop_below (scalar ScalarOp.dbl_xor) = omega arith
  binop_below (scalar ScalarOp.dbl_or) = omega arith
  binop_below (rel op) = omega arith
  binop_below (shift op) = omega arith
  binop_below (add op) = omega arith
  binop_below (mul op) = omega arith

  two_operands :
      (op : Binop) (ta : ℕ → List Token) (tb : ℕ → List Token) (a b v : ℕ)
      → IsWord a
      → IsWord b
      → meaning op a b ≡ some v
      → ReadsAll ta a
      → ReadsAll tb b
      → ReadsChain env
          (binop_inner op)
          (ta (suc (binop_inner op)) ++ binop_token op ∷ tb (binop_inner op))
          v
  two_operands op ta tb a b v wa wb h ha hb n m hn hm =
      let below = binop_below op in
      let len = length-append (ta (suc (binop_inner op))) (binop_token op ∷ tb (binop_inner op)) in
      Chains-bin env n (expr6 env m) op (ta (suc (binop_inner op))) (tb (binop_inner op)) a b v wa
        wb h hn (ha.chained (binop_inner op) below n m (omega arith) (omega arith))
        (hb.at (binop_inner op) (omega arith) n m (omega arith) (omega arith))

  three_operands :
      (ta tb tc : List Token) (x y z : ℕ)
      → ReadsAt env 10 ta x
      → ReadsTop env tb y
      → ReadsTop env tc z
      → ReadsTop env (ta ++ Token.qmark ∷ (tb ++ Token.colon ∷ tc)) (if x == 0 then z else y)
  three_operands ta tb tc x y z ha hb hc zero m hn hm = absurd (omega arith)
  three_operands ta tb tc x y z ha hb hc (suc n) m hn hm =
      let len = length-append ta (Token.qmark ∷ (tb ++ Token.colon ∷ tc)) in
      let len' = length-append tb (Token.colon ∷ tc) in
      cond-Parses env n (expr6 env m) ta tb tc x y z (ha (suc n) m (omega arith) (omega arith))
        (hb n m (omega arith) (omega arith)) (hc n m (omega arith) (omega arith))

  after_prefix :
      (ts : List Token) (m x : ℕ)
      → ReadsAt env 0 ts x
      → length ts < m
      → Parses env (expr6 env m) 0 ts x
  unfolding parser
  after_prefix ts m x r hm = r m m hm hm

  reads : (a : Ast) (v : ℕ) → denote a ≡ some v → ReadsAll (λ k. tokens k a) v
  unfolding denote tokens
  reads (num x) v h =
      let e : x ≡ v = ground arith in
      subst (λ v. ReadsAll (λ k. Token.num x ∷ []) v) e
        (prefixed (Token.num x) [] x λ m hm. num-Parses env m x)
  reads (neg a) v h =
      let (x, ha, e) = bind_inv (denote a) (λ x. some (sub64 0 x)) v h in
      let r = (reads a x ha).at 0 (omega arith) in
      subst (λ v. ReadsAll (λ k. Token.minus ∷ tokens 0 a) v) (some-injective _ _ e)
        (prefixed Token.minus (tokens 0 a) (sub64 0 x) λ m hm.
          neg-Parses env m (tokens 0 a) x (denote-IsWord a x ha)
            (after_prefix (tokens 0 a) m x r hm))
  reads (bit_not a) v h =
      let (x, ha, e) = bind_inv (denote a) (λ x. some (word - 1 - x)) v h in
      let r = (reads a x ha).at 0 (omega arith) in
      subst (λ v. ReadsAll (λ k. Token.bit_not ∷ tokens 0 a) v) (some-injective _ _ e)
        (prefixed Token.bit_not (tokens 0 a) (not64 x)
          λ m hm. bit_not-Parses env m (tokens 0 a) x (after_prefix (tokens 0 a) m x r hm))
  reads (bool_not a) v h =
      let (x, ha, e) = bind_inv (denote a) (λ x. some (of_bool (x == 0))) v h in
      let r = (reads a x ha).at 0 (omega arith) in
      subst (λ v. ReadsAll (λ k. Token.bool_not ∷ tokens 0 a) v) (some-injective _ _ e)
        (prefixed Token.bool_not (tokens 0 a) (of_bool (x == 0))
          λ m hm. bool_not-Parses env m (tokens 0 a) x (after_prefix (tokens 0 a) m x r hm))
  reads (bin op a b) v h =
      let (x, ha, h₁) = bind_inv (denote a) _ v h in
      let (y, hb, h₂) = bind_inv (denote b) _ v h₁ in
      binary (binop_inner op) _ v (binop_below op) (
        two_operands op (λ k. tokens k a) (λ k. tokens k b) x y v (denote-IsWord a x ha)
          (denote-IsWord b y hb) h₂ (reads a x ha) (reads b y hb))
  reads (cond a b c) v h =
      let (x, ha, h₁) = bind_inv (denote a) _ v h in
      let (y, hb, h₂) = bind_inv (denote b) _ v h₁ in
      let (z, hc, h₃) = bind_inv (denote c) _ v h₂ in
      subst (λ v. ReadsAll (λ k. tokens k (cond a b c)) v) (some-injective _ _ h₃)
        (ternary _ _ (
          three_operands (tokens 10 a) (tokens 11 b) (tokens 11 c) x y z
            ((reads a x ha).at 10 (omega arith)) (reads b y hb).top (reads c z hc).top))

-- A text of numbers and operators is read to its end as the value of its tree.
pub cexpr-denote : (env : Env) (a : Ast) (v : ℕ) → denote a ≡ some v → ReadsTop env (tokens 11 a) v
cexpr-denote env a v h = (reads env a v h).top
