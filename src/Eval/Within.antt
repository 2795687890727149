-- ===== src/Eval/Within.antt =====
-- How much input the evaluator's functions leave: the measure by which its recursion ends, a
-- postcondition in its terms, and the operators and operands that meet it.
use nasm.Prelude.{
  if◌then◌else◌, ℕ, ◌+◌, ◌≤◌, ◌<◌, not, ◌&&◌, ◌||◌, ◌==◌, ◌≡◌, Bool, true, false, List, [], ◌∷◌,
  length, arith,
}
use native.Mathlib.Nat.{le_refl, le_trans}
use nasm.Expr.{Expr, Context, is_simple, is_just_unknown, is_unknown, is_really_simple, reloc_value}
use nasm.Vector.{unknown_expr, scalarvect}
use nasm.Word.{minus_one}
use nasm.Eval.State.{
  Token, Env, State, Outcome, M, bind, ◌>>◌, pure, fail, report, scan, Message, Ifunc,
}
use nasm.Eval.State.Outcome.{ok, null, undefined, stuck}
use nasm.Eval.State.Token.{eos}
use nasm.Eval.Operators.{
  ScalarOp, RelOp, ShiftOp, AddOp, MulOp, scalar_step, rel_step, shift_step, add_step, mul_step,
  eval_ifunc, segment_part, mult_by, rel_value, scalar_or_unknown, division_overflows,
  undefined_behaviour,
}

abbrev pub weight : Token → ℕ
weight eos = 0
weight _ = 1

-- The tokens not yet used up: those that the scanner has yet to deliver, and the current one.
abbrev pub left : State → ℕ
left s = length s.input + weight s.tt

-- The run ends, and where it returns a value it leaves `b` tokens at most.
abbrev pub Within {ℓ} : {A : Type ℓ} → ℕ → Outcome A → Type 0
Within b (ok a s) = left s ≤ b
Within b (null s) = Unit
Within b undefined = Unit
Within b stuck = ⊥

-- A function that leaves no more tokens than it finds, where it finds `n` at most.
abbrev pub Consumes {ℓ} : {A : Type ℓ} → ℕ → M A → Type 0
Consumes n m = (s : State) → left s ≤ n → Within (left s) (m s)

pub weight-le : (t : Token) → weight t ≤ 1
weight-le eos = omega arith
weight-le _ = omega arith

-- A call of the scanner at a token that is not TOKEN_EOS uses one up.
pub scan-Within : (s : State) → weight s.tt ≡ 1 → Within (length s.input) (scan s)
unfolding scan
scan-Within s h = go s.input
  where
    go : (l : List Token) → Within (length l) (scan (record s { input = l }))
    go [] = omega arith
    go (t ∷ r) = omega (arith, weight-le t)

pub scan_any : (s : State) → Within (left s) (scan s)
unfolding scan
scan_any s = go s.input
  where
    go : (l : List Token) → Within (length l + weight s.tt) (scan (record s { input = l }))
    go [] = omega arith
    go (t ∷ r) = omega (arith, weight-le t)

pub Within-weaken {ℓ} : {A : Type ℓ} {b c : ℕ} (r : Outcome A) → b ≤ c → Within b r → Within c r
Within-weaken (ok a s) le h = le_trans h le
Within-weaken (null s) le h = tt
Within-weaken undefined le h = tt
Within-weaken stuck le h = absurd h

pub Within-bind {ℓ κ} :
    {A : Type ℓ} {B : Type κ} {b : ℕ} (c : ℕ) (r : Outcome A) (f : A → M B)
    → Within b r
    → ((a : A) (s : State) → left s ≤ b → Within c (f a s))
    → Within c (bind r f)
Within-bind c (ok a s) f h k = k a s h
Within-bind c (null s) f h k = tt
Within-bind c undefined f h k = tt
Within-bind c stuck f h k = absurd h

-- The tests of `expr5` on two operands, as plain Booleans.
multiply_tests :
    (a b c : Bool) (s : State) (m k u : M Expr) (msg : Message)
    → Within (left s) (m s)
    → Within (left s) (k s)
    → Within (left s) (u s)
    → Within (left s) ((if a then m else if b then k else if c then u else fail msg) s)
multiply_tests true b c s m k u msg hm hk hu = hm
multiply_tests false true c s m k u msg hm hk hu = hk
multiply_tests false false true s m k u msg hm hk hu = hu
multiply_tests false false false s m k u msg hm hk hu = tt

divide_tests :
    (a b c d : Bool) (s : State) (e f : Expr) (m k : Message)
    → Within (left s) (
        (if a
            then fail m
            else if b
            then fail k
            else if c
            then pure e
            else if d
            then undefined_behaviour
            else pure f)
          s)
divide_tests true b c d s e f m k = tt
divide_tests false true c d s e f m k = tt
divide_tests false false true d s e f m k = le_refl _
divide_tests false false false true s e f m k = tt
divide_tests false false false false s e f m k = le_refl _

-- The tests of `rexp3` on the difference, and on the number that it makes of it.
equality_tests :
    (a : Bool) (v : ℕ) (s : State) → Within (left s) ((if a then pure minus_one else pure v) s)
equality_tests true v s = le_refl _
equality_tests false v s = le_refl _

order_tests :
    (a b : Bool) (v : ℕ) (msg : Message) (s : State)
    → Within
        (left s)
        ((if a then pure minus_one else if b then pure v else do report msg; pure 0) s)
order_tests true b v msg s = le_refl _
order_tests false true v msg s = le_refl _
order_tests false false v msg s = le_refl _

unknown_test :
    (a : Bool) (e f : Expr) (s : State) → Within (left s) ((if a then pure e else pure f) s)
unknown_test true e f s = le_refl _
unknown_test false e f s = le_refl _

rel_value-Within :
    (cx : Context) (op : RelOp) (e : Expr) (s : State) → Within (left s) (rel_value cx op e s)
rel_value-Within cx RelOp.eq e s = equality_tests (is_unknown cx e) _ s
rel_value-Within cx RelOp.ne e s = equality_tests (is_unknown cx e) _ s
rel_value-Within cx op e s = order_tests (is_unknown cx e) (is_really_simple cx e) _ _ s

module _ (cx : Context) (e f : Expr) (s : State) where
  pub scalar_step-Within : (op : ScalarOp) → Within (left s) (scalar_step cx op e f s)
  unfolding scalar_step
  scalar_step-Within op = ground arith

  pub rel_step-Within : (op : RelOp) → Within (left s) (rel_step cx op e f s)
  unfolding rel_step
  rel_step-Within op = Within-bind (left s) _ _ (rel_value-Within cx op _ _) λ v s' le.
      Within-weaken _ le (unknown_test (v == minus_one) (unknown_expr cx) (scalarvect cx v) s')

  pub shift_step-Within : (op : ShiftOp) → Within (left s) (shift_step cx op e f s)
  unfolding shift_step
  shift_step-Within op = ground arith

  pub add_step-Within : (op : AddOp) → Within (left s) (add_step cx op e f s)
  unfolding add_step
  add_step-Within op = ground arith

  pub mul_step-Within : (op : MulOp) → Within (left s) (mul_step cx op e f s)
  unfolding mul_step
  mul_step-Within MulOp.mult =
      multiply_tests (is_simple cx e) (is_simple cx f)
        (is_just_unknown cx e && is_just_unknown cx f) s (mult_by cx true (reloc_value cx e) f)
        (mult_by cx true (reloc_value cx f) e) (pure (unknown_expr cx)) _ (le_refl _) (le_refl _)
        (le_refl _)
  mul_step-Within op =
      divide_tests (not (scalar_or_unknown cx e && scalar_or_unknown cx f))
        (not (is_just_unknown cx f) && reloc_value cx f == 0)
        (is_just_unknown cx e || is_just_unknown cx f)
        (division_overflows op (reloc_value cx e) (reloc_value cx f)) s _ _ _ _

pub eval_ifunc-Within : (func : Ifunc) (v : ℕ) (s : State) → Within (left s) (eval_ifunc func v s)
unfolding eval_ifunc
eval_ifunc-Within func v s = ground arith

pub segment_part-Within :
    (env : Env) (e : Expr) (s : State) → Within (left s) (segment_part env e s)
unfolding segment_part
segment_part-Within env e s = ground arith

-- `m`, and then `f` on what it leaves.
pub Within-then {ℓ κ} :
    {A : Type ℓ} {B : Type κ} (b : ℕ) (r : Outcome A) (f : A → M B)
    → Within b r
    → ((a : A) (s : State) → left s ≤ b → Within (left s) (f a s))
    → Within b (bind r f)
Within-then b r f h k = Within-bind b r f h (λ a s le. Within-weaken (f a s) le (k a s le))

-- A call of the scanner that uses a token up, and then `k`.
pub scan-then {ℓ} :
    {A : Type ℓ} (k : M A) (s : State)
    → weight s.tt ≡ 1
    → ((s' : State) → left s' < left s → Within (left s') (k s'))
    → Within (left s) ((scan >> k) s)
scan-then k s h step =
    Within-bind (left s) (scan s) _ (scan-Within s h)
      λ _ s' le. Within-weaken (k s') (omega arith) (step s' (omega arith))

pub scan-then_any {ℓ} :
    {A : Type ℓ} (k : M A) (s : State)
    → ((s' : State) → left s' ≤ left s → Within (left s') (k s'))
    → Within (left s) ((scan >> k) s)
scan-then_any k s step = Within-then (left s) (scan s) (λ _. k) (scan_any s) (λ _. step)

pub Within-if {ℓ} :
    {A : Type ℓ} (b : ℕ) (test : Bool) (m k : M A) (s : State)
    → Within b (m s)
    → Within b (k s)
    → Within b ((if test then m else k) s)
Within-if b true m k s hm hk = hm
Within-if b false m k s hm hk = hk
