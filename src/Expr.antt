-- ===== src/Expr.antt =====
-- asm/exprlib.c: the vectors that stand for expressions, and the tests on them.
--
-- The source ends a vector by a record of type 0; here it is the list of the records before that.
-- A type is a register's number, EXPR_UNKNOWN and the like, or EXPR_SEGBASE plus a segment number;
-- all are positive as int32_t. A value is the bit pattern of an int64_t. A segment number is the
-- bit pattern of an int32_t, so that NO_SEG is 0xffffffff.
use nasm.Prelude.{
  ℕ, ◌+◌, ◌-◌, ◌%◌, ◌^◌, Bool, true, false, not, ◌&&◌, ◌||◌, List, [], ◌∷◌, ltb, leb, ◌==◌,
  if◌then◌else◌,
}
use nasm.Word.{minus_one}
pub mod Scalars

pub record Term : Type 0 where
  pub type : ℕ
  pub value : ℕ

abbrev pub Expr : Type 0
Expr = List Term

-- What the tests read from outside: the last register's number, which the build generates into
-- regs.h, and `location.segment`.
pub record Context : Type 0 where
  pub reg_end : ℕ
  pub here_segment : ℕ

abbrev pub no_seg : ℕ
no_seg = 0xffff_ffff

abbrev pub seg_abs : ℕ
seg_abs = 0x4000_0000

-- The flags of `enum expr_classes`.
pub record ExprClass : Type 0 where
  pub ec_const : Bool
  pub ec_segabs : Bool
  pub ec_selfrel : Bool
  pub ec_seg : Bool
  pub ec_wrt : Bool
  pub ec_unknown : Bool
  pub ec_register : Bool
  pub ec_regexpr : Bool
  pub ec_complex : Bool

abbrev pub ec_zero : ExprClass
ec_zero = record {
  ec_const = false;
  ec_segabs = false;
  ec_selfrel = false;
  ec_seg = false;
  ec_wrt = false;
  ec_unknown = false;
  ec_register = false;
  ec_regexpr = false;
  ec_complex = false;
}

-- `while (vect->type && !vect->value) vect++`
abbrev pub skip_zero : Expr → Expr
skip_zero [] = []
skip_zero (t ∷ v) = if t.value == 0 then skip_zero v else t ∷ v

module _ (cx : Context) where
  abbrev pub expr_unknown : ℕ
  expr_unknown = cx.reg_end + 1

  abbrev pub expr_simple : ℕ
  expr_simple = cx.reg_end + 2

  abbrev pub expr_wrt : ℕ
  expr_wrt = cx.reg_end + 3

  abbrev pub expr_rdsae : ℕ
  expr_rdsae = cx.reg_end + 4

  abbrev pub expr_segbase : ℕ
  expr_segbase = cx.reg_end + 5

  -- A far-absolute segment: `type >= EXPR_SEGBASE + SEG_ABS`.
  abbrev pub is_far : Term → Bool
  is_far t = leb (expr_segbase + seg_abs) t.type

  abbrev simple_rest : Expr → Bool
  simple_rest [] = true
  simple_rest (t ∷ _) = is_far t

  abbrev simple_from : Expr → Bool
  simple_from [] = true
  simple_from (t ∷ v) = if t.type == expr_simple then simple_rest (skip_zero v) else false

  unfoldable pub is_simple : Expr → Bool
  is_simple v = simple_from (skip_zero v)

  abbrev is_end : Expr → Bool
  is_end [] = true
  is_end (_ ∷ _) = false

  abbrev really_simple_from : Expr → Bool
  really_simple_from [] = true
  really_simple_from (t ∷ v) = if t.type == expr_simple then is_end (skip_zero v) else false

  unfoldable pub is_really_simple : Expr → Bool
  is_really_simple v = really_simple_from (skip_zero v)

  -- One round of the loop of `expr_class`.
  abbrev pub classify : ExprClass → Term → ExprClass
  classify c t =
      if t.value == 0
      then c
      else if ltb t.type expr_unknown
      then (if c.ec_register || not (t.value == 1)
          then record c { ec_regexpr = true }
          else record c { ec_register = true })
      else if t.type == expr_unknown
      then record c { ec_unknown = true }
      else if t.type == expr_simple
      then record c { ec_const = true }
      else if t.type == expr_wrt
      then record c { ec_wrt = true }
      else if ltb t.type expr_segbase
      then record c { ec_complex = true }
      else if is_far t
      then record c { ec_complex = c.ec_complex || (c.ec_seg || c.ec_segabs); ec_segabs = true }
      else if t.value == 1
      then record c { ec_complex = c.ec_complex || (c.ec_seg || c.ec_segabs); ec_seg = true }
      else if t.value == minus_one
      then record c {
        ec_complex =
            c.ec_complex
            || (not (t.type == (cx.here_segment + expr_segbase) % 2 ^ 32) || c.ec_selfrel);
        ec_selfrel = true;
      }
      else record c { ec_complex = true }

  unfoldable pub classify_all : ExprClass → Expr → ExprClass
  classify_all c [] = c
  classify_all c (t ∷ v) = classify_all (classify c t) v

  unfoldable pub expr_class : Expr → ExprClass
  expr_class v = classify_all ec_zero v

  -- `!(expr_class(vect) & ~EC_RELOC)`
  unfoldable pub is_reloc : Expr → Bool
  is_reloc v =
      let c = expr_class v in
      not (c.ec_unknown || (c.ec_register || (c.ec_regexpr || c.ec_complex)))

  unfoldable pub is_unknown : Expr → Bool
  is_unknown v = (expr_class v).ec_unknown

  -- `expr_class(vect) == EC_UNKNOWN`
  abbrev only_unknown : ExprClass → Bool
  only_unknown c =
      c.ec_unknown
      && not (
          c.ec_const
          || (c.ec_segabs
              || (c.ec_selfrel
                  || (c.ec_seg
                      || (c.ec_wrt || (c.ec_register || (c.ec_regexpr || c.ec_complex)))))))

  unfoldable pub is_just_unknown : Expr → Bool
  is_just_unknown v = only_unknown (expr_class v)

  abbrev scalar_of : Expr → ℕ
  scalar_of [] = 0
  scalar_of (t ∷ _) = if t.type == expr_simple then t.value else 0

  unfoldable pub reloc_value : Expr → ℕ
  reloc_value v = scalar_of (skip_zero v)

  unfoldable pub reloc_seg : Expr → ℕ
  reloc_seg [] = no_seg
  reloc_seg (t ∷ v) =
      if leb expr_segbase t.type && t.value == 1 then t.type - expr_segbase else reloc_seg v

  -- The value of the WRT term, cut to an int32_t.
  unfoldable pub reloc_wrt : Expr → ℕ
  reloc_wrt [] = no_seg
  reloc_wrt (t ∷ v) =
      if ltb t.type expr_wrt
      then reloc_wrt v
      else if t.type == expr_wrt
      then t.value % 2 ^ 32
      else no_seg

  unfoldable pub is_self_relative : Expr → Bool
  is_self_relative v = (expr_class v).ec_selfrel
