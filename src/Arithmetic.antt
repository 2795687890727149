-- ===== src/Arithmetic.antt =====
-- What the expressions on numbers mean, apart from the parser of asm/eval.c: trees, the numbers that
-- they stand for by doc/lang.src, and their text as tokens with the fewest parentheses.
pub mod Computed
pub mod Steps
pub mod Levels
pub mod Climb
pub mod Operands
pub mod Brackets
pub mod Reads
pub mod Correct
pub mod Value
use Prim.Native.Nat
use nasm.Prelude.{
  ℕ, zero, suc, ◌+◌, ◌-◌, ◌*◌, ◌/◌, ◌%◌, ◌^◌, Bool, true, false, not, ◌&&◌, ◌||◌, List, [], ◌∷◌,
  ◌++◌, Option, none, some, ltb, leb, ◌==◌, if◌then◌else◌,
}
use nasm.Word.{word, of_bool}
use nasm.Word.Signed.{signed, pattern_of, quotient, remainder, shifted}
use nasm.Eval.State.{Token}
use nasm.Eval.Operators.{RelOp, ShiftOp, AddOp, MulOp, ScalarOp}

pub data Binop : Type 0 where
  scalar : ScalarOp → Binop
  rel : RelOp → Binop
  shift : ShiftOp → Binop
  add : AddOp → Binop
  mul : MulOp → Binop

pub data Ast : Type 0 where
  num : ℕ → Ast
  neg : Ast → Ast
  bit_not : Ast → Ast
  bool_not : Ast → Ast
  bin : Binop → Ast → Ast → Ast
  cond : Ast → Ast → Ast → Ast

-- `a - b` of 64-bit integers.
abbrev pub sub64 : ℕ → ℕ → ℕ
sub64 a b = (a + (word - b)) % word

-- The order of the numbers as int64_t is that of these.
abbrev pub biased : ℕ → ℕ
biased v = (v + 2 ^ 63) % word

-- The comparison of signed numbers; `<=>` is -1, 0 or 1 as doc/lang.src has it.
abbrev pub compare_signed : RelOp → ℕ → ℕ → ℕ
compare_signed RelOp.eq a b = of_bool (a == b)
compare_signed RelOp.ne a b = of_bool (not (a == b))
compare_signed RelOp.lt a b = of_bool (ltb (biased a) (biased b))
compare_signed RelOp.le a b = of_bool (leb (biased a) (biased b))
compare_signed RelOp.gt a b = of_bool (ltb (biased b) (biased a))
compare_signed RelOp.ge a b = of_bool (leb (biased b) (biased a))
compare_signed RelOp.leg a b =
    if ltb (biased a) (biased b) then word - 1 else of_bool (ltb (biased b) (biased a))

-- The signed difference is one that an int64_t can hold.
abbrev pub difference_fits : ℕ → ℕ → Bool
difference_fits a b = ltb (biased a) (biased b + 2 ^ 63) && leb (biased b) (biased a + 2 ^ 63)

-- A comparison of signed numbers. An order has no value where the difference does not fit, nor has
-- `<=>` of a smaller number: there the evaluator does not do what doc/lang.src says.
abbrev pub rel_meaning : RelOp → ℕ → ℕ → Option ℕ
rel_meaning RelOp.eq a b = some (compare_signed RelOp.eq a b)
rel_meaning RelOp.ne a b = some (compare_signed RelOp.ne a b)
rel_meaning RelOp.leg a b =
    if difference_fits a b && leb (biased b) (biased a)
    then some (compare_signed RelOp.leg a b)
    else none
rel_meaning op a b = if difference_fits a b then some (compare_signed op a b) else none

abbrev pub scalar_meaning : ScalarOp → ℕ → ℕ → ℕ
scalar_meaning ScalarOp.dbl_or a b = if a == 0 then (if b == 0 then 0 else 1) else 1
scalar_meaning ScalarOp.dbl_xor a b =
    if a == 0 then (if b == 0 then 0 else 1) else (if b == 0 then 1 else 0)
scalar_meaning ScalarOp.dbl_and a b = if a == 0 then 0 else (if b == 0 then 0 else 1)
scalar_meaning ScalarOp.bit_or a b = Nat.bit_or a b
scalar_meaning ScalarOp.bit_xor a b = Nat.bit_xor a b
scalar_meaning ScalarOp.bit_and a b = Nat.bit_and a b

-- `<<` and `>>` are of unsigned numbers, `>>>` of signed ones.
abbrev pub shift_meaning : ShiftOp → ℕ → ℕ → ℕ
shift_meaning ShiftOp.shl a b = a * 2 ^ b % word
shift_meaning ShiftOp.shr a b = a / 2 ^ b
shift_meaning ShiftOp.sar a b = pattern_of (shifted (signed a) b)

-- Whether the signed quotient is 2 ^ 63.
abbrev pub quotient_too_large : ℕ → ℕ → Bool
quotient_too_large a b = a == 2 ^ 63 && b == word - 1

-- `/` and `%` are of unsigned numbers, `//` and `%%` of signed ones.
abbrev pub mul_meaning : MulOp → ℕ → ℕ → Option ℕ
mul_meaning MulOp.mult a b = some (a * b % word)
mul_meaning MulOp.div a b = if b == 0 then none else some (a / b)
mul_meaning MulOp.mod_ a b = if b == 0 then none else some (a % b)
mul_meaning MulOp.sdiv a b =
    if b == 0 || quotient_too_large a b
    then none
    else some (pattern_of (quotient (signed a) (signed b)))
mul_meaning MulOp.smod a b =
    if b == 0 || quotient_too_large a b
    then none
    else some (pattern_of (remainder (signed a) (signed b)))

-- The number that an operator makes of two; none for a division by zero or an overflowing one, for a
-- shift by 64 bits or more, and for the comparisons that have no value.
abbrev pub meaning : Binop → ℕ → ℕ → Option ℕ
meaning (scalar op) a b = some (scalar_meaning op a b)
meaning (rel op) a b = rel_meaning op a b
meaning (shift op) a b = if ltb b 64 then some (shift_meaning op a b) else none
meaning (add AddOp.plus) a b = some ((a + b) % word)
meaning (add AddOp.minus) a b = some (sub64 a b)
meaning (mul op) a b = mul_meaning op a b

abbrev pub option_bind : Option ℕ → (ℕ → Option ℕ) → Option ℕ
option_bind none f = none
option_bind (some a) f = f a

-- The value of a tree, as a 64-bit integer. Both branches of a conditional must have one.
unfoldable pub denote : Ast → Option ℕ
denote (num v) = if ltb v word then some v else none
denote (neg a) = option_bind (denote a) λ x. some (sub64 0 x)
denote (bit_not a) = option_bind (denote a) λ x. some (word - 1 - x)
denote (bool_not a) = option_bind (denote a) λ x. some (of_bool (x == 0))
denote (bin op a b) =
    let y = denote b in option_bind (denote a) λ x. option_bind y λ z. meaning op x z
denote (cond a b c) =
    let y = denote b in
    let z = denote c in
    option_bind (denote a) λ x. option_bind y λ t. option_bind z λ f. some (if x == 0 then f else t)

-- How far above `expr6` the function that takes the operator stands, less one: 0 for `expr5`, up to
-- 9 for `rexp0`. `cexpr` stands 11 above.
abbrev pub scalar_inner : ScalarOp → ℕ
scalar_inner ScalarOp.bit_and = 3
scalar_inner ScalarOp.bit_xor = 4
scalar_inner ScalarOp.bit_or = 5
scalar_inner ScalarOp.dbl_and = 7
scalar_inner ScalarOp.dbl_xor = 8
scalar_inner ScalarOp.dbl_or = 9

abbrev pub binop_inner : Binop → ℕ
binop_inner (mul _) = 0
binop_inner (add _) = 1
binop_inner (shift _) = 2
binop_inner (rel _) = 6
binop_inner (scalar op) = scalar_inner op

abbrev pub scalar_token : ScalarOp → Token
scalar_token ScalarOp.dbl_or = Token.dbl_or
scalar_token ScalarOp.dbl_xor = Token.dbl_xor
scalar_token ScalarOp.dbl_and = Token.dbl_and
scalar_token ScalarOp.bit_or = Token.bit_or
scalar_token ScalarOp.bit_xor = Token.bit_xor
scalar_token ScalarOp.bit_and = Token.bit_and

abbrev pub rel_token : RelOp → Token
rel_token RelOp.eq = Token.eq
rel_token RelOp.lt = Token.lt
rel_token RelOp.gt = Token.gt
rel_token RelOp.ne = Token.ne
rel_token RelOp.le = Token.le
rel_token RelOp.ge = Token.ge
rel_token RelOp.leg = Token.leg

abbrev pub shift_token : ShiftOp → Token
shift_token ShiftOp.shl = Token.shl
shift_token ShiftOp.shr = Token.shr
shift_token ShiftOp.sar = Token.sar

abbrev pub add_token : AddOp → Token
add_token AddOp.plus = Token.plus
add_token AddOp.minus = Token.minus

abbrev pub mul_token : MulOp → Token
mul_token MulOp.mult = Token.mult
mul_token MulOp.div = Token.div
mul_token MulOp.mod_ = Token.mod_
mul_token MulOp.sdiv = Token.sdiv
mul_token MulOp.smod = Token.smod

abbrev pub binop_token : Binop → Token
binop_token (scalar op) = scalar_token op
binop_token (rel op) = rel_token op
binop_token (shift op) = shift_token op
binop_token (add op) = add_token op
binop_token (mul op) = mul_token op

abbrev pub wrap : Bool → List Token → List Token
wrap true ts = Token.lpar ∷ ts ++ Token.rpar ∷ []
wrap false ts = ts

-- The tokens of a tree where the function `k` levels above `expr6` is to read it: in parentheses if
-- its operator belongs to a level further up. A binary operator hands its left operand to its own
-- level, and its right one to the next.
unfoldable pub tokens : ℕ → Ast → List Token
tokens k (num v) = Token.num v ∷ []
tokens k (neg a) = Token.minus ∷ tokens 0 a
tokens k (bit_not a) = Token.bit_not ∷ tokens 0 a
tokens k (bool_not a) = Token.bool_not ∷ tokens 0 a
tokens k (bin op a b) =
    wrap (leb k (binop_inner op))
      (tokens (suc (binop_inner op)) a ++ binop_token op ∷ tokens (binop_inner op) b)
tokens k (cond a b c) =
    wrap (leb k 10) (tokens 10 a ++ Token.qmark ∷ (tokens 11 b ++ Token.colon ∷ tokens 11 c))
