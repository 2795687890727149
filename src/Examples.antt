-- ===== src/Examples.antt =====
-- The theorems on concrete input.
pub mod Containers
pub mod Quotes
pub mod Tables
pub mod Symbols
use nasm.Prelude.{
  List, inl, ℕ, ◌+◌, ◌-◌, ◌%◌, ◌^◌, ◌≤◌, ◌<◌, ◌≡◌, ◌≢◌, refl, Bool, true, false, [], ◌∷◌, ◌++◌,
  none, some, arith, length, map, inr, All, leb, ◌||◌,
}
use nasm.Word.{word, add64, mul64, neg64, minus_one}
use nasm.Expr.{Term, Expr, is_really_simple, reloc_value}
use nasm.Vector.{add_vectors, scalar_mult, scalarvect, unknown_expr}
use nasm.Vector.Coeff.{coeff, coeff-add_vectors, coeff-scalar_mult}
use nasm.Vector.Order.{IsAscending, add_vectors-IsAscending, scalar_mult-IsAscending}
use nasm.Vector.FarAbsolute.{far_label, stripped, far_offset_lost}
use nasm.Eval.State.{Token, State}
use nasm.Eval.State.Outcome.{ok, stuck}
use nasm.Eval.State.Ifunc.{ilog2c}
use nasm.Eval.Operators.{RelOp, AddOp, MulOp, rel_step, eval_ifunc}
use nasm.Eval.Evaluate.{evaluate}
use nasm.Eval.Terminates.Evaluate.{evaluate_terminates}
use nasm.Eval.Comparison.{rel_step-compare_signed, rel_step_overflow, rel_step_three_way}
use nasm.Eval.Tests.{plain_env}
use nasm.Arithmetic.{compare_signed, Ast, num, neg, bin, cond, add, mul, rel, denote, tokens}
use nasm.Arithmetic.Steps.{Gives}
use nasm.Arithmetic.Value.{evaluate-denote}
use nasm.Nasmlib.Readnum.{read_digits, is_bad, numvalue}
use nasm.Nasmlib.Readnum.Value.{digits_value, IsDigits, read_digits-value}
use nasm.Nasmlib.Numstr.{numstr, write_digits}
use nasm.Nasmlib.Numstr.Value.{text_value, numstr-value}
use nasm.Nasmlib.Numstr.RoundTrip.{read_digits-write_digits}
use nasm.Eval.State.{Strfunc}
use nasm.Strfunc.{string_transform, short_le, short_be, long_le, long_be}
use nasm.Strfunc.Unicode.{utf8, encoded, IsScalar}
use nasm.Strfunc.Encodings.{utf16_units, bytes_of, string_transform-utf8, utf8_to_16be_swapped}
use nasm.Nasmlib.Rdstrnum.{readstrnum}
use nasm.Nasmlib.Ilog2.{ilog2_64}
use nasm.Nasmlib.Ilog2.Bounds.{ilog2_64-bounds}
use nasm.Nasmlib.Crc.{entry, crc64, crc64i, crc64b, crc64ib}
use nasm.Nasmlib.Crc.Tables.{crc64_tab, crc32_tab}
use nasm.Nasmlib.Crc.Polynomial.{remainder, crc64_tab-remainder}

-- (2 + 3) * 4 < 21 ? -7 : 1
abbrev tree : Ast
tree =
    cond
      (bin (rel RelOp.lt) (bin (mul MulOp.mult) (bin (add AddOp.plus) (num 2) (num 3)) (num 4))
        (num 21))
      (neg (num 7)) (num 1)

tree-value : denote tree ≡ some (2 ^ 64 - 7)
unfolding denote
tree-value = refl

tree-length : length (tokens 11 tree) ≤ plain_env.limit
unfolding tokens
tree-length = omega arith

evaluate-denote_example :
    (e : Expr) × (s : State) × (evaluate plain_env Token.invalid (tokens 11 tree) none none
      ≡ ok e s)
    × (is_really_simple plain_env.context e ≡ true)
    × (reloc_value plain_env.context e ≡ 2 ^ 64 - 7)
    × (s.tt ≡ Token.eos)
    × (s.input ≡ [])
evaluate-denote_example =
    evaluate-denote plain_env tree (2 ^ 64 - 7) none none tree-value tree-length

evaluate_terminates_example :
    evaluate plain_env Token.invalid (Token.lpar ∷ Token.minus ∷ Token.qmark ∷ []) none none ≢ stuck
evaluate_terminates_example =
    evaluate_terminates plain_env Token.invalid (Token.lpar ∷ Token.minus ∷ Token.qmark ∷ []) none
      none

-- The register 3 and 5; the register 4, twice, and -5.
abbrev left_vector : Expr
left_vector = record { type = 3; value = 1 } ∷ record { type = 52; value = 5 } ∷ []

abbrev right_vector : Expr
right_vector = record { type = 4; value = 2 } ∷ record { type = 52; value = minus_one - 4 } ∷ []

left-kept : (b : Bool) → All (λ t. (b || true) ≡ true) left_vector
left-kept true = (refl, (refl, tt))
left-kept false = (refl, (refl, tt))

right-kept : (b : Bool) → All (λ t. (b || true) ≡ true) right_vector
right-kept true = (refl, (refl, tt))
right-kept false = (refl, (refl, tt))

coeff-add_vectors_example :
    coeff 52 (add_vectors plain_env.context none left_vector right_vector).0
    ≡ add64 (coeff 52 left_vector) (coeff 52 right_vector)
coeff-add_vectors_example =
    coeff-add_vectors plain_env.context none 52 left_vector right_vector (ground arith)
      (ground arith) (left-kept _) (right-kept _)

coeff-scalar_mult_example :
    coeff 52 (scalar_mult plain_env.context true 6 none left_vector).0
    ≡ mul64 6 (coeff 52 left_vector)
coeff-scalar_mult_example =
    coeff-scalar_mult plain_env.context true 6 none 52 left_vector (left-kept false)

add_vectors-IsAscending_example :
    IsAscending plain_env.context 0 (add_vectors plain_env.context none left_vector right_vector).0
add_vectors-IsAscending_example =
    add_vectors-IsAscending plain_env.context none 0 left_vector right_vector (ground arith)
      (ground arith)

scalar_mult-IsAscending_example :
    ((scalar_mult plain_env.context true 6 none left_vector).0
      ≡ record { type = 3; value = 6 } ∷ record { type = 52; value = 30 } ∷ [])
    × IsAscending plain_env.context 0 (scalar_mult plain_env.context true 6 none left_vector).0
scalar_mult-IsAscending_example =
    scalar_mult-IsAscending plain_env.context true 6 none 0 left_vector (ground arith)

-- 1f_0 in hexadecimal
hex-IsDigits : IsDigits 16 (0x31 ∷ 0x66 ∷ 0x5f ∷ 0x30 ∷ [])
unfolding is_bad numvalue
hex-IsDigits = (refl, (refl, (refl, (refl, tt))))

hex-value : digits_value 16 (0x31 ∷ 0x66 ∷ 0x5f ∷ 0x30 ∷ []) 0 ≡ 0x1f0
unfolding digits_value numvalue
hex-value = refl

read_digits-value_example :
    read_digits 16 (0x31 ∷ 0x66 ∷ 0x5f ∷ 0x30 ∷ []) 0 false
    ≡ some (
      digits_value 16 (0x31 ∷ 0x66 ∷ 0x5f ∷ 0x30 ∷ []) 0 % word,
      leb word (digits_value 16 (0x31 ∷ 0x66 ∷ 0x5f ∷ 0x30 ∷ []) 0),
    )
read_digits-value_example =
    read_digits-value 16 (0x31 ∷ 0x66 ∷ 0x5f ∷ 0x30 ∷ []) (inr (inr (inr refl))) hex-IsDigits

abbrev number : ℕ → Expr
number v = record { type = 52; value = v } ∷ []

abbrev state : State
state = record { input = []; tt = Token.eos; hint = none; opflags = none; deadman = 0; log = [] }

lt_not_leg : RelOp.lt ≢ RelOp.leg
lt_not_leg e = cc

-- -1 < 2
rel_step-compare_signed_example :
    Gives plain_env.context
      (compare_signed RelOp.lt minus_one 2)
      state
      (rel_step plain_env.context RelOp.lt (number minus_one) (number 2) state)
rel_step-compare_signed_example =
    rel_step-compare_signed plain_env.context (number minus_one) (number 2) minus_one 2 state
      RelOp.lt (omega arith) (omega arith) (inr refl) (inr refl) lt_not_leg
      (omega arith, omega arith)

-- INT64_MAX < -1
rel_step_overflow_example :
    Gives plain_env.context 1 state
      (rel_step plain_env.context RelOp.lt (number (2 ^ 63 - 1)) (number minus_one) state)
rel_step_overflow_example =
    rel_step_overflow plain_env.context (number (2 ^ 63 - 1)) (number minus_one) (2 ^ 63 - 1)
      minus_one state (omega arith) (omega arith) (inr refl) (inr refl) (omega arith)

-- 1 <=> 2
rel_step_three_way_example :
    (s' : State) × (rel_step plain_env.context RelOp.leg (number 1) (number 2) state
      ≡ ok (unknown_expr plain_env.context) s')
rel_step_three_way_example =
    rel_step_three_way plain_env.context (number 1) (number 2) 1 2 state (omega arith) (omega arith)
      (inr refl) (inr refl) (omega arith, omega arith) (omega arith)

-- The segment 0x1234.
abbrev segment : Term
segment = record { type = 55 + 0x4000_1234; value = 1 }

far_offset_lost_example :
    stripped plain_env.context
      (add_vectors plain_env.context none
        (add_vectors plain_env.context none
          (far_label plain_env.context segment 3)
          (scalarvect plain_env.context (neg64 3))).0
        (scalarvect plain_env.context 5)).0
    ≡ []
far_offset_lost_example = far_offset_lost plain_env.context segment 3 5 refl (omega arith)

ilog2_64-bounds_example : (2 ^ ilog2_64 1000 ≤ 1000) × (1000 < 2 ^ (ilog2_64 1000 + 1))
ilog2_64-bounds_example = ilog2_64-bounds 1000 (omega arith) (omega arith)

crc64_tab-remainder_example : entry crc64_tab 200 ≡ remainder 0x95ac_9329_ac4b_c9b5 8 200
crc64_tab-remainder_example = crc64_tab-remainder 200 (omega arith)

abbrev lower : ℕ → ℕ
lower c = c + 0x20

nonzero : (n : ℕ) → 0 < n → n ≢ 0
nonzero n h e = omega arith

numstr-value_example :
    (r : List ℕ) × (numstr 9 0x1f0 2 true 16 false ≡ some r) × (text_value false 16 r 0 ≡ 0x1f0)
numstr-value_example =
    numstr-value 9 0x1f0 2 16 false (omega arith) (omega arith) (omega arith) (omega arith)

read_digits-write_digits_example :
    read_digits 10 (write_digits false 10 true 20 0 12345 []) 0 false ≡ some (12345, false)
read_digits-write_digits_example =
    read_digits-write_digits false 10 20 0 12345 (inr (inr (inl refl))) (omega arith) (omega arith)

-- The letter a, the euro sign and a character above 0xffff.
abbrev text : List ℕ
text = 0x61 ∷ 0x20ac ∷ 0x1_f600 ∷ []

text-IsScalar : All IsScalar text
text-IsScalar = ((omega arith, refl), ((omega arith, refl), ((omega arith, refl), tt)))

string_transform-utf8_example :
    (string_transform Strfunc.utf16le (utf8 text)
      ≡ some (encoded (λ c. bytes_of short_le (utf16_units c)) text))
    × (string_transform Strfunc.utf32le (utf8 text) ≡ some (encoded long_le text))
    × (string_transform Strfunc.utf32be (utf8 text) ≡ some (encoded long_be text))
string_transform-utf8_example = string_transform-utf8 text text-IsScalar

utf8_to_16be_swapped_example :
    (r : List ℕ) × (string_transform Strfunc.utf16be (utf8 (0x1_f600 ∷ [])) ≡ some r)
    × (r ≢ bytes_of short_be (utf16_units 0x1_f600))
utf8_to_16be_swapped_example = utf8_to_16be_swapped 0x1_f600 (omega arith, refl) (omega arith)
