-- ===== src/Expr/Scalars.antt =====
-- asm/exprlib.c: the vectors of pure scalars, and what the tests say of them.
use nasm.Prelude.{ℕ, ◌≡◌, ◌⊎◌, inl, inr, true, false, [], ◌∷◌, arith}
use nasm.Expr.{
  Expr, Context, expr_simple, is_simple, is_really_simple, is_unknown, is_just_unknown, is_reloc,
  expr_class, classify_all, reloc_value,
}

module _ (cx : Context) where
  -- The vector stands for the number `v`: one term of type EXPR_SIMPLE, or none at all for 0.
  abbrev pub Shows : ℕ → Expr → Type 0
  Shows v e = ((e ≡ []) × (v ≡ 0)) ⊎ (e ≡ record { type = expr_simple cx; value = v } ∷ [])

  -- What the tests of exprlib.c say of the vectors of a pure scalar.
  pub record Reads (v : ℕ) (e : Expr) : Type 0 where
    pub simple : is_simple cx e ≡ true
    pub really_simple : is_really_simple cx e ≡ true
    pub known : is_unknown cx e ≡ false
    pub not_just_unknown : is_just_unknown cx e ≡ false
    pub reloc : is_reloc cx e ≡ true
    pub value : reloc_value cx e ≡ v

  Reads-nil : Reads 0 []
  unfolding is_simple is_really_simple is_unknown is_just_unknown is_reloc expr_class classify_all
      reloc_value
  Reads-nil = ground arith

  Reads-one : (v : ℕ) → Reads v (record { type = expr_simple cx; value = v } ∷ [])
  unfolding is_simple is_really_simple is_unknown is_just_unknown is_reloc expr_class classify_all
      reloc_value
  Reads-one v = ground arith

  pub Shows-Reads : (v : ℕ) (e : Expr) → Shows v e → Reads v e
  Shows-Reads v e (inl (empty, zero)) = rw (empty, zero) Reads-nil
  Shows-Reads v e (inr one) = rw one (Reads-one v)
