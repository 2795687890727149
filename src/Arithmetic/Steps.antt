-- ===== src/Arithmetic/Steps.antt =====
-- The operators of asm/eval.c on two numbers: each step gives the vector of the number that the
-- operator stands for, and touches neither the tokens nor the count of calls.
use nasm.Prelude.{
  ℕ, ◌+◌, ◌-◌, ◌%◌, ◌≡◌, refl, Bool, true, false, [], ◌∷◌, some, lt→ltb, ◌<◌, ◌≤◌, ◌==◌,
  if◌then◌else◌, arith, inl, inr,
}
use mathlib.Core.Path.{subst}
use mathlib.Core.Option.{some-injective}
use nasm.Word.{IsWord, word, minus_one, mul64}
use nasm.Expr.{Expr, Context, expr_simple}
use nasm.Expr.Scalars.{Shows, Reads, Shows-Reads}
use nasm.Vector.{Hint, add_vectors, add_loop, keep, scalar_mult, scalarvect, unknown_expr}
use nasm.Eval.State.{State, Outcome, ◌>>=◌, pure}
use nasm.Eval.State.Outcome.{ok, null, undefined, stuck}
use nasm.Eval.Operators.{
  RelOp, ShiftOp, AddOp, MulOp, ScalarOp, scalar_step, rel_step, shift_step, add_step, mul_step,
  scalar_value, subtract, rel_value,
}
use nasm.Arithmetic.{add, sub64}
use nasm.Arithmetic.Computed.{computed, shift_computed, mul_computed, rel_computed}

abbrev pub IsSame : State → State → Type 0
IsSame s s' = (s'.tt ≡ s.tt) × (s'.input ≡ s.input) × (s'.deadman ≡ s.deadman)

module _ (cx : Context) where
  -- The run returns a vector that stands for `v`, from `s`, and reads no token.
  abbrev pub Gives : ℕ → State → Outcome Expr → Type 0
  Gives v s (ok e s') = Shows cx v e × IsSame s s'
  Gives v s (null s') = ⊥
  Gives v s undefined = ⊥
  Gives v s stuck = ⊥

  pub Gives-inv :
      (v : ℕ) (s : State) (r : Outcome Expr)
      → Gives v s r
      → (e : Expr) × (s' : State) × (r ≡ ok e s') × Shows cx v e × IsSame s s'
  Gives-inv v s (ok e s') g = (e, s', refl, g.0, g.1)
  Gives-inv v s (null s') g = absurd g
  Gives-inv v s undefined g = absurd g
  Gives-inv v s stuck g = absurd g

  abbrev one : ℕ → Expr
  one v = record { type = expr_simple cx; value = v } ∷ []

  -- Sums and multiples of the vectors of numbers.
  add_vectors-Shows :
      (h : Hint) (a b : ℕ) (e f : Expr)
      → IsWord a
      → IsWord b
      → Shows cx a e
      → Shows cx b f
      → Shows cx ((a + b) % word) (add_vectors cx h e f).0
  unfolding add_vectors add_loop keep
  add_vectors-Shows h a b e f wa wb (inl (p, z)) (inl (q, y)) = rw (p, q, z, y) (inl (refl, refl))
  add_vectors-Shows h a b e f wa wb (inl (p, z)) (inr q) =
      let e' : (a + b) % word ≡ b = omega arith in rw (e', p, q) (ground arith)
  add_vectors-Shows h a b e f wa wb (inr p) (inl (q, y)) =
      let e' : (a + b) % word ≡ a = omega arith in rw (e', p, q) (ground arith)
  add_vectors-Shows h a b e f wa wb (inr p) (inr q) = rw (p, q) (ground arith)

  pub scalar_mult-Shows :
      (affect : Bool) (h : Hint) (k b : ℕ) (f : Expr)
      → Shows cx b f
      → Shows cx (mul64 k b) (scalar_mult cx affect k h f).0
  unfolding scalar_mult
  scalar_mult-Shows affect h k b f (inl (q, y)) = rw (q, y) (ground arith)
  scalar_mult-Shows affect h k b f (inr q) = rw q (ground arith)

  negated : (b : ℕ) → IsWord b → mul64 minus_one b ≡ (word - b) % word
  negated b wb = omega arith

  pub subtract-Gives :
      (a b : ℕ) (e f : Expr) (s : State)
      → IsWord a
      → IsWord b
      → Shows cx a e
      → Shows cx b f
      → Gives (sub64 a b) s (subtract cx e f s)
  subtract-Gives a b e f s wa wb pa pb =
      let g = scalar_mult cx false minus_one s.hint f in
      let e' : sub64 a b ≡ (a + mul64 minus_one b) % word = omega arith in
      (
        rw e' (
            add_vectors-Shows g.1 a (mul64 minus_one b) e g.0 wa (omega arith) pa
              (scalar_mult-Shows false s.hint minus_one b f pb)),
        (refl, refl, refl),
      )

  module _ (e f : Expr) (a b : ℕ) (s : State) (wa : IsWord a) (wb : IsWord b) (pa : Shows cx a e)
      (pb : Shows cx b f) where
    ra : Reads cx a e
    ra = Shows-Reads cx a e pa

    rb : Reads cx b f
    rb = Shows-Reads cx b f pb

    pub scalar_step-Gives :
        (op : ScalarOp) → Gives (scalar_value op a b) s (scalar_step cx op e f s)
    unfolding scalar_step scalarvect
    scalar_step-Gives op =
        rw
          (
            scalar_step, ra.simple, rb.simple, ra.not_just_unknown, rb.not_just_unknown, ra.value,
            rb.value,
          )
          (inr refl, (refl, refl, refl))

    pub shift_step-Gives :
        (op : ShiftOp) → b < 64 → Gives (shift_computed op a b) s (shift_step cx op e f s)
    unfolding shift_step scalarvect
    shift_step-Gives op lt =
        rw
          (
            shift_step,
            ra.simple,
            rb.simple,
            ra.not_just_unknown,
            rb.not_just_unknown,
            ra.value,
            rb.value,
            lt→ltb b 64 lt,
          )
          (ground arith)

    pub add_step-Gives :
        (op : AddOp) {v : ℕ} → computed (add op) a b ≡ some v → Gives v s (add_step cx op e f s)
    unfolding add_step
    add_step-Gives AddOp.plus h =
        subst (λ x. Gives x s (add_step cx AddOp.plus e f s)) (some-injective _ _ h)
          (add_vectors-Shows s.hint a b e f wa wb pa pb, (refl, refl, refl))
    add_step-Gives AddOp.minus h =
        subst (λ x. Gives x s (add_step cx AddOp.minus e f s)) (some-injective _ _ h)
          (subtract-Gives a b e f s wa wb pa pb)

    pub mul_step-Gives :
        (op : MulOp) {v : ℕ} → mul_computed op a b ≡ some v → Gives v s (mul_step cx op e f s)
    unfolding mul_step scalarvect
    mul_step-Gives MulOp.mult h =
        subst (λ x. Gives x s (mul_step cx MulOp.mult e f s)) (some-injective _ _ h)
          (rw (mul_step, ra.simple, ra.value)
            (scalar_mult-Shows true s.hint a b f pb, (refl, refl, refl)))
    mul_step-Gives op h =
        rw
          (
            mul_step, ra.simple, rb.simple, ra.not_just_unknown, rb.not_just_unknown, ra.value,
            rb.value,
          )
          (ground arith)

    rel_value-Reads :
        (op : RelOp) (d v : ℕ) (g : Expr) (s' : State)
        → Reads cx d g
        → rel_computed op d ≡ some v
        → (rel_value cx op g s' ≡ ok v s') × (v ≤ 1)
    rel_value-Reads RelOp.eq d v g s' r h =
        rw (rel_value, r.known, r.really_simple, r.value) (ground arith)
    rel_value-Reads op d v g s' r h =
        rw (rel_value, r.known, r.really_simple, r.value) (ground arith)

    rel_rest :
        (op : RelOp) (d v : ℕ) (g : Expr) (hint : Hint)
        → Reads cx d g
        → rel_computed op d ≡ some v
        → Gives v s (
            (do
              w ← rel_value cx op g
              if w == minus_one then pure (unknown_expr cx) else pure (scalarvect cx w))
              (record s { hint = hint }))
    unfolding scalarvect
    rel_rest op d v g hint r h =
        let (run, le) = rel_value-Reads op d v g (record s { hint = hint }) r h in
        rw (◌>>=◌, run) (ground arith)

    pub rel_step-Gives :
        (op : RelOp) {v : ℕ}
        → rel_computed op (sub64 a b) ≡ some v
        → Gives v s (rel_step cx op e f s)
    unfolding rel_step
    rel_step-Gives op {v} h =
        let (shows, same) = subtract-Gives a b e f s wa wb pa pb in
        rel_rest op (sub64 a b) v _ _ (Shows-Reads cx _ _ shows) h
