-- ===== src/Vector/Coeff.antt =====
-- What the sums and multiples of asm/eval.c do to the multiple of each component.
use nasm.Prelude.{
  ℕ, ◌+◌, ◌%◌, ◌^◌, ◌<◌, ◌≡◌, ◌≢◌, refl, Bool, true, false, not, ◌||◌, [], ◌∷◌, ◌++◌, ◌==◌,
  if◌then◌else◌, arith, All, sym, ap, ◌∙◌, ◌*◌, ◌/◌,
}
use native.Mathlib.Nat.{div-add-mod, mul-add-mod_self_left}
use nasm.Word.{word, add64, mul64}
use nasm.Expr.{Expr, Context, expr_unknown, is_far, is_really_simple}
use nasm.Vector.{Hint, keep, add_loop, add_vectors, scalar_mult, mult_hint}

-- The multiple of the component `k` in a vector: the sum of the values of the terms of that type.
unfoldable pub coeff : ℕ → Expr → ℕ
coeff k [] = 0
coeff k (t ∷ v) = add64 (if t.type == k then t.value else 0) (coeff k v)

pub coeff-lt : (k : ℕ) (v : Expr) → coeff k v < 2 ^ 64
unfolding coeff
coeff-lt k [] = omega arith
coeff-lt k (t ∷ v) = omega arith

pub coeff-append : (k : ℕ) (p q : Expr) → coeff k (p ++ q) ≡ add64 (coeff k p) (coeff k q)
unfolding coeff
coeff-append k [] q = omega (arith, coeff-lt k q)
coeff-append k (t ∷ p) q = omega (arith, coeff-append k p q)

module _ (cx : Context) where
  -- No term of a vector is an unknown quantity.
  abbrev pub IsKnown : Expr → Type 0
  IsKnown = All (λ t. t.type ≢ expr_unknown cx)

  -- No term of a vector is cut off by the loops that look for far-absolute segments.
  abbrev pub IsKept : Bool → Expr → Type 0
  IsKept preserve = All (λ t. (preserve || not (is_far cx t)) ≡ true)

  pub keep_all : (preserve : Bool) (v : Expr) → IsKept preserve v → keep cx preserve v ≡ v
  unfolding keep
  keep_all preserve [] h = refl
  keep_all preserve (t ∷ v) h = ground (arith, keep_all preserve v)

  coeff-add_loop :
      (preserve : Bool) (k : ℕ) (p q : Expr)
      → IsKnown p
      → IsKnown q
      → IsKept preserve p
      → IsKept preserve q
      → coeff k (add_loop cx preserve p q).0 ≡ add64 (coeff k p) (coeff k q)
  unfolding add_loop coeff
  coeff-add_loop preserve k [] q kp kq hp hq =
      rw (keep_all preserve q hq) (omega (arith, coeff-lt k q))
  coeff-add_loop preserve k (s ∷ p) [] kp kq hp hq =
      rw (keep_all preserve (s ∷ p) hp) (omega (arith, coeff-lt k p))
  coeff-add_loop preserve k (s ∷ p) (t ∷ q) kp kq hp hq = ground (
    arith,
    coeff-add_loop preserve k p (t ∷ q),
    coeff-add_loop preserve k (s ∷ p) q,
    coeff-add_loop preserve k p q,
    keep_all preserve (s ∷ p),
    keep_all preserve (t ∷ q),
    coeff-append k (s ∷ p) (t ∷ q),
  )

  module _ (hint : Hint) where
    -- The multiple of every component of a sum is the sum of the multiples, as int64_t, where no
    -- term is unknown and the loops drop nothing: both vectors are free of far-absolute segments,
    -- or one of them is a pure scalar.
    pub coeff-add_vectors :
        (k : ℕ) (p q : Expr)
        → IsKnown p
        → IsKnown q
        → IsKept (is_really_simple cx p || is_really_simple cx q) p
        → IsKept (is_really_simple cx p || is_really_simple cx q) q
        → coeff k (add_vectors cx hint p q).0 ≡ add64 (coeff k p) (coeff k q)
    unfolding add_vectors
    coeff-add_vectors k p q = coeff-add_loop (is_really_simple cx p || is_really_simple cx q) k p q

mul-mod : (m s x : ℕ) → s * (x % m) % m ≡ s * x % m
mul-mod m s x =
    sym (ap (λ (t : ℕ). t % m) split ∙ mul-add-mod_self_left m (s * (x / m)) (s * (x % m)))
  where
    split : s * x ≡ m * (s * (x / m)) + s * (x % m)
    split = omega (arith, ap (λ (t : ℕ). s * t) (div-add-mod x m))

scale-add64 : (s a c : ℕ) → add64 (mul64 s a) (mul64 s c) ≡ mul64 s (add64 a c)
scale-add64 s a c = omega (arith, mul-mod word s (a + c))

module _ (cx : Context) (affect_hints : Bool) where
  -- Every multiple of a vector free of far-absolute segments is scaled by `scalar`, as int64_t.
  pub coeff-scalar_mult :
      (scalar : ℕ) (hint : Hint) (k : ℕ) (v : Expr)
      → IsKept cx false v
      → coeff k (scalar_mult cx affect_hints scalar hint v).0 ≡ mul64 scalar (coeff k v)
  unfolding scalar_mult coeff
  coeff-scalar_mult scalar hint k [] h = omega arith
  coeff-scalar_mult scalar hint k (t ∷ v) h = ground (
    arith,
    coeff-scalar_mult scalar (mult_hint affect_hints t hint) k v,
    scale-add64 scalar t.value (coeff k v),
    scale-add64 scalar 0 (coeff k v),
  )
