-- ===== src/Eval/Comparison.antt =====
-- The comparisons of asm/eval.c against the order of the signed numbers.
use nasm.Prelude.{ℕ, ◌+◌, ◌^◌, ◌≤◌, ◌<◌, ◌≡◌, ◌≢◌, refl, true, ◌==◌, if◌then◌else◌, arith, some}
use nasm.Word.{IsWord, is_neg, minus_one}
use nasm.Expr.{Expr, Context}
use nasm.Expr.Scalars.{Shows, Shows-Reads, Reads}
use nasm.Vector.{unknown_expr, scalarvect}
use nasm.Eval.State.{State, ◌>>=◌, pure}
use nasm.Eval.State.Outcome.{ok}
use nasm.Eval.Operators.{RelOp, rel_step, rel_value, rel_of_difference}
use nasm.Arithmetic.{sub64, biased, compare_signed}
use nasm.Arithmetic.Computed.{rel_computed}
use nasm.Arithmetic.Steps.{Gives, subtract-Gives, rel_step-Gives}

-- The difference of the numbers is one that an int64_t can hold.
abbrev pub DifferenceFits : ℕ → ℕ → Type 0
DifferenceFits a b = (biased a < biased b + 2 ^ 63) × (biased b ≤ biased a + 2 ^ 63)

difference_signed :
    (op : RelOp) (a b : ℕ)
    → IsWord a
    → IsWord b
    → op ≢ RelOp.leg
    → DifferenceFits a b
    → rel_computed op (sub64 a b) ≡ some (compare_signed op a b)
difference_signed op a b wa wb ne fits = ground arith

three_way_rest :
    (cx : Context) (d : ℕ) (g : Expr) (s : State)
    → Reads cx d g
    → is_neg d ≡ true
    → (do
      w ← rel_value cx RelOp.leg g
      if w == minus_one then pure (unknown_expr cx) else pure (scalarvect cx w))
        s
      ≡ ok (unknown_expr cx) s
three_way_rest cx d g s r neg =
    rw (◌>>=◌, rel_value, r.known, r.really_simple, r.value, rel_of_difference, neg) refl

module _ (cx : Context) (e f : Expr) (a b : ℕ) (s : State) where
  -- A comparison of numbers other than `<=>` is that of the signed numbers, if their difference does
  -- not overflow.
  pub rel_step-compare_signed :
      (op : RelOp)
      → IsWord a
      → IsWord b
      → Shows cx a e
      → Shows cx b f
      → op ≢ RelOp.leg
      → DifferenceFits a b
      → Gives cx (compare_signed op a b) s (rel_step cx op e f s)
  rel_step-compare_signed op wa wb pa pb ne fits =
      rel_step-Gives cx e f a b s wa wb pa pb op (difference_signed op a b wa wb ne fits)

  -- If the difference overflows upwards, the greater number compares as less.
  pub rel_step_overflow :
      IsWord a
      → IsWord b
      → Shows cx a e
      → Shows cx b f
      → biased b + 2 ^ 63 ≤ biased a
      → Gives cx 1 s (rel_step cx RelOp.lt e f s)
  rel_step_overflow wa wb pa pb h =
      let m : rel_computed RelOp.lt (sub64 a b) ≡ some 1 = ground arith in
      rel_step-Gives cx e f a b s wa wb pa pb RelOp.lt m

  -- A three-way comparison of a number with a greater one gives an unknown quantity, if their
  -- difference does not overflow.
  pub rel_step_three_way :
      IsWord a
      → IsWord b
      → Shows cx a e
      → Shows cx b f
      → DifferenceFits a b
      → biased a < biased b
      → (s' : State) × (rel_step cx RelOp.leg e f s ≡ ok (unknown_expr cx) s')
  unfolding rel_step
  rel_step_three_way wa wb pa pb fits h =
      let shows = (subtract-Gives cx a b e f s wa wb pa pb).0 in
      let neg : is_neg (sub64 a b) ≡ true = ground arith in
      (_, three_way_rest cx (sub64 a b) _ _ (Shows-Reads cx _ _ shows) neg)
