-- ===== src/Strfunc.antt =====
-- asm/strfunc.c: strings in UTF-8 as UTF-16 and UTF-32.
--
-- The four functions have the same loop, but for the test on the character and EMIT, which are the
-- arguments `is_char` and `emit` here. The two calls of a function, for the length and for the bytes,
-- are one: the result is the bytes written, and none for (size_t)-1. A string is a list of bytes.
pub mod Unicode
pub mod Encodings
use nasm.Prelude.{
  ℕ, zero, suc, ◌+◌, ◌-◌, ◌*◌, ◌/◌, ◌%◌, ◌^◌, Bool, true, false, not, ◌&&◌, ◌||◌, List, [], ◌∷◌,
  ◌++◌, Option, none, some, ltb, leb, ◌==◌, if◌then◌else◌,
}
use nasm.Eval.State.{Strfunc}

-- The variables `expect`, less one, `v` and `vmin` while `expect` is not 0; when it is, the others
-- are not read before they are set.
pub data Pending : Type 0 where
  idle : Pending
  expecting : ℕ → ℕ → ℕ → Pending

-- `v >= 0xd800 && v <= 0xdfff`
abbrev pub is_surrogate : ℕ → Bool
is_surrogate v = leb 0xd800 v && leb v 0xdfff

-- The first byte of a character that is not ASCII: `v`, `expect` and `vmin`.
abbrev pub lead : ℕ → Pending
lead c =
    if ltb c 0xe0
    then expecting 0 (c % 0x20) 0x80
    else if ltb c 0xf0
    then expecting 1 (c % 0x10) 0x800
    else if ltb c 0xf8
    then expecting 2 (c % 0x08) 0x1_0000
    else if ltb c 0xfc
    then expecting 3 (c % 0x04) 0x20_0000
    else expecting 4 (c % 0x02) 0x400_0000

abbrev pub prepend : List ℕ → Option (List ℕ) → Option (List ℕ)
prepend xs none = none
prepend xs (some ys) = some (xs ++ ys)

module _ (is_char : ℕ → Bool) (emit : ℕ → List ℕ) where
  unfoldable pub convert : Pending → List ℕ → Option (List ℕ)
  convert idle [] = some []
  convert (expecting n v vmin) [] = none
  convert idle (c ∷ str) =
      if ltb c 0x80
      then prepend (emit c) (convert idle str)
      else if ltb c 0xc0 || leb 0xfe c
      then none
      else convert (lead c) str
  convert (expecting n v vmin) (c ∷ str) =
      let v' = (v * 0x40 + c % 0x40) % 2 ^ 32 in
      if not (c / 0x40 == 2) then none else elim n [
        | zero ↦
            if ltb v' vmin || not (is_char v') then none else prepend (emit v') (convert idle str)
        | suc n ↦ convert (expecting n v' vmin) str
      ]

abbrev pub is_char_16 : ℕ → Bool
is_char_16 v = not (ltb 0x10_ffff v || is_surrogate v)

abbrev pub is_char_32 : ℕ → Bool
is_char_32 v = not (is_surrogate v)

-- WRITESHORT and WRITELONG, and the bytes written in EMIT of the big-endian functions.
abbrev pub short_le : ℕ → List ℕ
short_le x = x % 0x100 ∷ x / 0x100 % 0x100 ∷ []

abbrev pub short_be : ℕ → List ℕ
short_be x = x / 0x100 % 0x100 ∷ x % 0x100 ∷ []

abbrev pub long_le : ℕ → List ℕ
long_le x = x % 0x100 ∷ x / 0x100 % 0x100 ∷ x / 0x1_0000 % 0x100 ∷ x / 0x100_0000 % 0x100 ∷ []

abbrev pub long_be : ℕ → List ℕ
long_be x = x / 0x100_0000 % 0x100 ∷ x / 0x1_0000 % 0x100 ∷ x / 0x100 % 0x100 ∷ x % 0x100 ∷ []

-- `0xd800 | (v >> 10)` and `0xdc00 | (v & 0x3ff)` after `v -= 0x10000`, of v up to 0x10ffff, so
-- that the operands of `|` have no bit in common.
abbrev pub high_half : ℕ → ℕ
high_half v = 0xd800 + (v - 0x1_0000) / 0x400

abbrev pub low_half : ℕ → ℕ
low_half v = 0xdc00 + (v - 0x1_0000) % 0x400

abbrev pub emit_16le : ℕ → List ℕ
emit_16le v = if ltb 0xffff v then short_le (high_half v) ++ short_le (low_half v) else short_le v

-- The low half first.
abbrev pub emit_16be : ℕ → List ℕ
emit_16be v = if ltb 0xffff v then short_be (low_half v) ++ short_be (high_half v) else short_be v

unfoldable pub utf8_to_16le : List ℕ → Option (List ℕ)
utf8_to_16le = convert is_char_16 emit_16le idle

unfoldable pub utf8_to_16be : List ℕ → Option (List ℕ)
utf8_to_16be = convert is_char_16 emit_16be idle

unfoldable pub utf8_to_32le : List ℕ → Option (List ℕ)
utf8_to_32le = convert is_char_32 long_le idle

unfoldable pub utf8_to_32be : List ℕ → Option (List ℕ)
utf8_to_32be = convert is_char_32 long_be idle

unfoldable pub string_transform : Strfunc → List ℕ → Option (List ℕ)
string_transform Strfunc.utf16 = utf8_to_16le
string_transform Strfunc.utf16le = utf8_to_16le
string_transform Strfunc.utf16be = utf8_to_16be
string_transform Strfunc.utf32 = utf8_to_32le
string_transform Strfunc.utf32le = utf8_to_32le
string_transform Strfunc.utf32be = utf8_to_32be
