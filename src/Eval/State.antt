-- ===== src/Eval/State.antt =====
-- asm/eval.c and include/nasm.h: the tokens, what the evaluator asks of the rest of the assembler,
-- its state, and the monad in which its functions run.
use nasm.Prelude.{ℕ, Bool, List, [], ◌∷◌, Option}
use mathlib.Core.Option
use Prim.Native.Nat as Nat
use nasm.Expr.{Expr, Context}
use nasm.Vector.{Hint}

abbrev pub Bytes : Type 0
Bytes = List ℕ

pub data Floatize : Type 0 where
  float_8 float_16 float_b16 float_32 float_64 float_80m float_80e float_128l float_128h : Floatize

pub data Strfunc : Type 0 where
  utf16 utf16le utf16be utf32 utf32le utf32be : Strfunc

pub data Ifunc : Type 0 where
  ilog2e ilog2w ilog2f ilog2c : Ifunc

-- A token with the fields of `struct tokenval` that its type uses; `other` is any type that the
-- evaluator does not name.
pub data Token : Type 0 where
  invalid eos qmark colon lpar rpar wrt seg here base other : Token
  dbl_or dbl_xor dbl_and eq lt gt ne le ge leg bit_or bit_xor bit_and shl shr sar : Token
  plus minus mult div mod_ sdiv smod bit_not bool_not : Token
  ifunc : Ifunc → Token
  floatize : Floatize → Token
  strfunc : Strfunc → Token
  num brcconst reg decorator : ℕ → Token
  str id insn float : Bytes → Token

-- What is reported through `nasm_nonfatal`, `nasm_warn` and `nasm_error`.
pub data Message : Type 0 where
  unmatched_qmark qmark_not_scalar operator_not_scalar non_scalar_difference : Message
  shift_not_scalar division_not_scalar division_by_zero multiply_non_scalars : Message
  not_scalar expecting_lpar expecting_rpar expecting_float expecting_string : Message
  invalid_string seg_not_relocatable seg_of_segment_base segment_base_unknown : Message
  expression_too_long syntax_error no_symbols_here symbol_undefined invalid_wrt : Message
  ilog2_not_power2_error ilog2_not_power2_warning character_constant_too_long : Message

-- The answer of `lookup_label`: LBL_none, or a type of which only `is_extern` is asked.
pub data LabelLookup : Type 0 where
  undefined_label : LabelLookup
  label : Bool → ℕ → ℕ → LabelLookup

-- What is fixed during one evaluation, and the calls into other parts: `lookup_label` of labels.c,
-- `segbase` of the output format, `float_const` of floats.c (the sign is true for a minus) and
-- `string_transform` of strfunc.c.
pub record Env : Type 0 where
  pub context : Context
  pub critical : Bool
  pub limit : ℕ
  pub known : Bool
  pub offset : ℕ
  pub in_absolute : Bool
  pub absolute_segment : ℕ
  pub absolute_offset : ℕ
  pub lookup_label : Bytes → LabelLookup
  pub segbase : ℕ → ℕ
  pub float_const : Bytes → Bool → Floatize → Option Bytes
  pub string_transform : Bytes → Strfunc → Option Bytes

-- The file's variables: what the scanner has yet to deliver, the current token `tt`, `hint`,
-- `*opflags` if the pointer is not null, `deadman`, and the messages so far, the last one first.
pub record State : Type 0 where
  pub input : List Token
  pub tt : Token
  pub hint : Hint
  pub opflags : Option ℕ
  pub deadman : ℕ
  pub log : List Message

-- `null` is a NULL returned after a message. `undefined` is undefined behaviour of C: a shift by 64
-- bits or more, or the signed division of INT64_MIN by -1. `stuck` has no counterpart: the fuel of
-- the model has run out.
pub data Outcome {ℓ} (A : Type ℓ) : Type ℓ where
  ok : A → State → Outcome A
  null : State → Outcome A
  undefined stuck : Outcome A

abbrev pub M {ℓ} : Type ℓ → Type ℓ
M A = State → Outcome A

abbrev pub bind {ℓ κ} : {A : Type ℓ} {B : Type κ} → Outcome A → (A → M B) → Outcome B
bind (ok a s) f = f a s
bind (null s) f = null s
bind undefined f = undefined
bind stuck f = stuck

infixl 5 ◌>>=◌ ◌>>◌
abbrev pub ◌>>=◌ {ℓ κ} : {A : Type ℓ} {B : Type κ} → M A → (A → M B) → M B
◌>>=◌ m f s = bind (m s) f

abbrev pub ◌>>◌ {ℓ κ} : {A : Type ℓ} {B : Type κ} → M A → M B → M B
◌>>◌ m k s = bind (m s) (λ _. k)

abbrev pub pure {ℓ} : {A : Type ℓ} → A → M A
pure a s = ok a s

abbrev pub get_tt : M Token
get_tt s = ok s.tt s

-- A message after which the function goes on, and one after which it returns NULL.
abbrev pub report : Message → M (Unit {0})
report m s = ok tt (record s { log = m ∷ s.log })

abbrev pub fail {ℓ} : {A : Type ℓ} → Message → M A
fail m s = null (record s { log = m ∷ s.log })

-- The token after those that are left is TOKEN_EOS, again and again.
abbrev pub next_input : List Token → Token × List Token
next_input [] = (eos, [])
next_input (t ∷ r) = (t, r)

unfoldable pub scan : M (Unit {0})
scan s = let (t, r) = next_input s.input in ok tt (record s { tt = t; input = r })

abbrev pub set_opflag : ℕ → M (Unit {0})
set_opflag flag s =
    ok tt (record s { opflags = Option.map (λ f. Prim.Native.Nat.bit_or f flag) s.opflags })

-- A vector operation on the hint of the state.
abbrev pub with_hint : (Hint → Expr × Hint) → M Expr
with_hint f s = let (e, h) = f s.hint in ok e (record s { hint = h })
