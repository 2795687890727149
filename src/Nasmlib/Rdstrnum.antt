-- ===== src/Nasmlib/Rdstrnum.antt =====
-- asm/rdstrnum.c: a string as a number, its first character lowest.
pub mod Value
use nasm.Prelude.{
  ℕ, zero, suc, ◌+◌, ◌*◌, ◌%◌, ◌^◌, ◌≡◌, refl, Bool, true, false, List, [], ◌∷◌, ltb, length, take,
  if◌then◌else◌,
}
use nasm.Word.{add64, shl64}

-- The loop from index `i` on, over the characters not yet read.
unfoldable pub readstrnum_loop : ℕ → ℕ → List ℕ → ℕ
readstrnum_loop i charconst [] = charconst
readstrnum_loop i charconst (c ∷ str) =
    readstrnum_loop (i + 1) (add64 charconst (shl64 (c % 2 ^ 8) (i * 8))) str

-- The number, and whether there is a warning.
unfoldable pub readstrnum : List ℕ → ℕ × Bool
unfolding readstrnum_loop
readstrnum str =
    if ltb 8 (length str)
    then (readstrnum_loop 0 0 (take 8 str), true)
    else (readstrnum_loop 0 0 str, false)
