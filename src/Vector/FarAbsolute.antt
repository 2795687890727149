-- ===== src/Vector/FarAbsolute.antt =====
-- What becomes of a far-absolute term, `seg:offset` with a constant segment, in asm/eval.c.
use nasm.Prelude.{none, ℕ, ◌≡◌, ◌≢◌, true, false, [], ◌∷◌, arith}
use nasm.Word.{neg64, add64, IsWord}
use nasm.Expr.{Term, Expr, Context, is_far, expr_simple, is_really_simple}
use nasm.Vector.{add_vectors, add_loop, keep, scalar_mult, scalarvect}

module _ (cx : Context) where
  -- An offset, and a segment that is a constant.
  abbrev pub far_label : Term → ℕ → Expr
  far_label t a = record { type = expr_simple cx; value = a } ∷ t ∷ []

  -- The end of `evaluate`, which strips the segment off.
  abbrev pub stripped : Expr → Expr
  stripped e = (scalar_mult cx false 1 none e).0

  -- Of a label with a constant segment and an offset that is not 0, plus a number, the offset is
  -- the sum, if the sum is not 0.
  far_offset :
      (t : Term) (a b : ℕ)
      → is_far cx t ≡ true
      → IsWord a
      → IsWord b
      → add64 a b ≢ 0
      → stripped (add_vectors cx none (far_label t a) (scalarvect cx b)).0
        ≡ scalarvect cx (add64 a b)
  unfolding add_vectors add_loop keep scalar_mult scalarvect is_really_simple
  far_offset t a b far wa wb h = ground arith

  -- Once the offset has been brought to 0, the number that is then added is lost.
  pub far_offset_lost :
      (t : Term) (a b : ℕ)
      → is_far cx t ≡ true
      → IsWord a
      → stripped
          (add_vectors cx none
            (add_vectors cx none (far_label t a) (scalarvect cx (neg64 a))).0
            (scalarvect cx b)).0
        ≡ []
  unfolding add_vectors add_loop keep scalar_mult scalarvect is_really_simple
  far_offset_lost t a b far wa = ground arith
