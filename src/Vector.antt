-- ===== src/Vector.antt =====
-- asm/eval.c: the arithmetic of expression vectors, `add_vectors` to `segment_part`.
--
-- The temporary that `begintemp`, `addtotemp` and `finishtemp` build up is the list returned; each
-- is fresh, so that the writes of `scalar_mult` into its argument are seen by its result alone.
-- The hint record is an argument and a result, `none` where the caller passed no pointer.
pub mod Coeff
pub mod Order
pub mod FarAbsolute
use nasm.Prelude.{
  ℕ, ◌+◌, Bool, true, false, ◌&&◌, ◌||◌, not, List, [], ◌∷◌, Option, none, some, ltb, ◌==◌,
  if◌then◌else◌,
}
use mathlib.Core.List.{◌++◌}
use Prim.Native.Nat.{compare, Ordering}
use nasm.Word.{add64, mul64}
use nasm.Expr.{
  Term, Expr, Context, expr_unknown, expr_simple, expr_segbase, is_far, is_really_simple,
}

pub data HintType : Type 0 where
  eah_nohint eah_makebase eah_notbase eah_summed : HintType

pub record EvalHints : Type 0 where
  pub base : ℕ
  pub type : HintType

abbrev pub Hint : Type 0
Hint = Option EvalHints

abbrev pub set_hint_type : HintType → Hint → Hint
set_hint_type t none = none
set_hint_type t (some h) = some (record h { type = t })

-- What a loop has appended, and whether it took the branch that sets EAH_SUMMED.
abbrev pub Appended : Type 0
Appended = Expr × Bool

abbrev pub addtotemp : Term → Appended → Appended
addtotemp t (e, summed) = (t ∷ e, summed)

-- Both terms have the type of `s`: a sum of zero is left out.
abbrev pub add_sum : Term → ℕ → Appended → Appended
add_sum s sum (e, summed) = if sum == 0 then (e, summed) else (record s { value = sum } ∷ e, true)

abbrev is_makebase : HintType → Bool
is_makebase eah_makebase = true
is_makebase _ = false

-- The test of the hint in the loop of `scalar_mult`.
abbrev pub mult_hint : Bool → Term → Hint → Hint
mult_hint affect_hints t none = none
mult_hint affect_hints t (some h) =
    if is_makebase h.type && (t.type == h.base && affect_hints)
    then some (record h { type = eah_notbase })
    else some h

module _ (cx : Context) where
  -- `while (p->type && (preserve || p->type < EXPR_SEGBASE + SEG_ABS)) addtotemp(...), p++`
  unfoldable pub keep : Bool → Expr → Expr
  keep preserve [] = []
  keep preserve (t ∷ p) = if preserve || not (is_far cx t) then t ∷ keep preserve p else []

  -- After a term of type `t`: `finishtemp` at EXPR_UNKNOWN, and the rest of the loop otherwise.
  abbrev pub unless_unknown : ℕ → Appended → Appended
  unless_unknown t rest = if t == expr_unknown cx then ([], false) else rest

  unfoldable pub add_loop : Bool → Expr → Expr → Appended
  add_loop preserve [] q = (keep preserve q, false)
  add_loop preserve (s ∷ p) [] = (keep preserve (s ∷ p), false)
  add_loop preserve (s ∷ p) (t ∷ q) = elim (is_far cx s || is_far cx t) [
    | true ↦ (keep preserve (s ∷ p) ++ keep preserve (t ∷ q), false)
    | false ↦ elim (compare s.type t.type) [
      | Ordering.gt ↦ addtotemp t (unless_unknown t.type (add_loop preserve (s ∷ p) q))
      | Ordering.lt ↦ addtotemp s (unless_unknown s.type (add_loop preserve p (t ∷ q)))
      | Ordering.eq ↦
          add_sum s (add64 s.value t.value) (unless_unknown s.type (add_loop preserve p q))
    ]
  ]

  unfoldable pub add_vectors : Hint → Expr → Expr → Expr × Hint
  add_vectors hint p q =
      let preserve = is_really_simple cx p || is_really_simple cx q in
      let (e, summed) = add_loop preserve p q in
      (e, if summed then set_hint_type eah_summed hint else hint)

  unfoldable pub scalar_mult : Bool → ℕ → Hint → Expr → Expr × Hint
  scalar_mult affect_hints scalar hint [] = ([], hint)
  scalar_mult affect_hints scalar hint (t ∷ v) =
      let rest = scalar_mult affect_hints scalar (mult_hint affect_hints t hint) v in
      if is_far cx t
      then ([], hint)
      else (record t { value = mul64 scalar t.value } ∷ rest.0, rest.1)

  unfoldable pub scalarvect : ℕ → Expr
  scalarvect scalar = record { type = expr_simple cx; value = scalar } ∷ []

  unfoldable pub unknown_expr : Expr
  unknown_expr = record { type = expr_unknown cx; value = 1 } ∷ []
