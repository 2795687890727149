-- ===== src/Vector/Order.antt =====
-- The order that expression vectors are kept in: types ascend, and far-absolute segments are gone.
use nasm.Prelude.{ℕ, ◌+◌, ◌≤◌, ◌<◌, ◌≡◌, refl, ap, Bool, false, ◌||◌, [], ◌∷◌, map, arith}
use nasm.Word.{IsWord, mul64}
use nasm.Expr.{Term, Expr, is_far, Context, expr_segbase, seg_abs, is_really_simple}
use nasm.Vector.{Hint, keep, add_loop, add_vectors, scalar_mult, mult_hint}

module _ (cx : Context) where
  -- Types ascend strictly from above `lo`, none is a far-absolute segment, and values are words.
  abbrev pub IsAscending : ℕ → Expr → Type 0
  IsAscending lo [] = Unit
  IsAscending lo (t ∷ v) =
      (lo < t.type) × (t.type < expr_segbase cx + seg_abs) × IsWord t.value × IsAscending t.type v

  pub IsAscending-weaken : (hi lo : ℕ) (v : Expr) → lo ≤ hi → IsAscending hi v → IsAscending lo v
  IsAscending-weaken hi lo [] le h = tt
  IsAscending-weaken hi lo (t ∷ v) le h = (omega arith, h.1, h.2, h.3)

  keep-IsAscending :
      (preserve : Bool) (lo : ℕ) (v : Expr) → IsAscending lo v → keep cx preserve v ≡ v
  unfolding keep
  keep-IsAscending preserve lo [] h = refl
  keep-IsAscending preserve lo (t ∷ v) h = ground (arith, keep-IsAscending preserve t.type v)

  add_loop-IsAscending :
      (preserve : Bool) (lo : ℕ) (p q : Expr)
      → IsAscending lo p
      → IsAscending lo q
      → IsAscending lo (add_loop cx preserve p q).0
  unfolding add_loop
  add_loop-IsAscending preserve lo [] q hp hq = rw (keep-IsAscending preserve lo q hq) hq
  add_loop-IsAscending preserve lo (s ∷ p) [] hp hq =
      rw (keep-IsAscending preserve lo (s ∷ p) hp) hp
  add_loop-IsAscending preserve lo (s ∷ p) (t ∷ q) hp hq = ground (
    arith,
    add_loop-IsAscending preserve s.type p (t ∷ q),
    add_loop-IsAscending preserve t.type (s ∷ p) q,
    add_loop-IsAscending preserve s.type p q,
    IsAscending-weaken s.type lo (add_loop cx preserve p q).0,
  )

  -- The sum of two ascending vectors, which have no far-absolute terms, is an ascending vector.
  pub add_vectors-IsAscending :
      (hint : Hint) (lo : ℕ) (p q : Expr)
      → IsAscending lo p
      → IsAscending lo q
      → IsAscending lo (add_vectors cx hint p q).0
  unfolding add_vectors
  add_vectors-IsAscending hint lo p q =
      add_loop-IsAscending (is_really_simple cx p || is_really_simple cx q) lo p q

  -- A term with its value multiplied, as int64_t.
  abbrev pub scaled : ℕ → Term → Term
  scaled scalar t = record t { value = mul64 scalar t.value }

  -- A multiple of an ascending vector, which has no far-absolute term, is an ascending vector: it has a
  -- term for each of its terms, in order and of the same type, with the value multiplied as int64_t.
  pub scalar_mult-IsAscending :
      (affect_hints : Bool) (scalar : ℕ) (hint : Hint) (lo : ℕ) (v : Expr)
      → IsAscending lo v
      → ((scalar_mult cx affect_hints scalar hint v).0 ≡ map (scaled scalar) v)
        × IsAscending lo (scalar_mult cx affect_hints scalar hint v).0
  unfolding scalar_mult
  scalar_mult-IsAscending affect_hints scalar hint lo [] h = (refl, tt)
  scalar_mult-IsAscending affect_hints scalar hint lo (t ∷ v) h =
      let (same, rest) =
        scalar_mult-IsAscending affect_hints scalar (mult_hint affect_hints t hint) t.type v h.3 in
      let near : is_far cx t ≡ false = ground (arith, h) in
      rw (near) (ap (λ r. scaled scalar t ∷ r) same, (h.0, h.1, omega arith, rest))
