-- ===== src/Strfunc/Encodings.antt =====
-- The transformations of asm/strfunc.c against the encodings of Unicode.
use nasm.Prelude.{
  ℕ, ◌+◌, ◌-◌, ◌/◌, ◌%◌, ◌<◌, ◌≡◌, ◌≢◌, refl, true, false, List, [], ◌∷◌, ◌++◌, some, ltb,
  if◌then◌else◌, arith, All, ap, ◌∙◌,
}
use nasm.Eval.State.{Strfunc}
use nasm.Strfunc.{
  is_char_16, is_char_32, emit_16le, emit_16be, utf8_to_16le, utf8_to_16be, utf8_to_32le,
  utf8_to_32be, string_transform, short_le, short_be, long_le, long_be,
}
use nasm.Strfunc.Unicode.{IsScalar, utf8, encoded, convert-utf8}

-- The 16-bit units of a character in UTF-16, the high surrogate first.
abbrev pub utf16_units : ℕ → List ℕ
utf16_units c =
    if ltb c 0x1_0000
    then c ∷ []
    else (0xd800 + (c - 0x1_0000) / 0x400) ∷ (0xdc00 + (c - 0x1_0000) % 0x400) ∷ []

-- Units as bytes.
abbrev pub bytes_of : (ℕ → List ℕ) → List ℕ → List ℕ
bytes_of f [] = []
bytes_of f (u ∷ us) = f u ++ bytes_of f us

scalars_16 : (cs : List ℕ) → All IsScalar cs → All (λ c. (c < 0x11_0000) × (is_char_16 c ≡ true)) cs
scalars_16 [] h = tt
scalars_16 (c ∷ cs) ((lt, s), h) =
    let t : ltb 0x10_ffff c ≡ false = ground arith in ((lt, rw (t, s) refl), scalars_16 cs h)

scalars_32 : (cs : List ℕ) → All IsScalar cs → All (λ c. (c < 0x11_0000) × (is_char_32 c ≡ true)) cs
scalars_32 [] h = tt
scalars_32 (c ∷ cs) ((lt, s), h) = ((lt, rw s refl), scalars_32 cs h)

emit_16le-units : (c : ℕ) → emit_16le c ≡ bytes_of short_le (utf16_units c)
emit_16le-units c = ground arith

encoded_16le :
    (cs : List ℕ) → encoded emit_16le cs ≡ encoded (λ c. bytes_of short_le (utf16_units c)) cs
encoded_16le [] = refl
encoded_16le (c ∷ cs) =
    ap (λ t. t ++ encoded emit_16le cs) (emit_16le-units c)
    ∙ ap (λ t. bytes_of short_le (utf16_units c) ++ t) (encoded_16le cs)

-- The UTF-8 of Unicode scalar values becomes their little-endian UTF-16, and their UTF-32 of either
-- order.
pub string_transform-utf8 :
    (cs : List ℕ)
    → All IsScalar cs
    → (string_transform Strfunc.utf16le (utf8 cs)
        ≡ some (encoded (λ c. bytes_of short_le (utf16_units c)) cs))
      × (string_transform Strfunc.utf32le (utf8 cs) ≡ some (encoded long_le cs))
      × (string_transform Strfunc.utf32be (utf8 cs) ≡ some (encoded long_be cs))
unfolding string_transform utf8_to_16le utf8_to_32le utf8_to_32be
string_transform-utf8 cs h = (
  convert-utf8 is_char_16 emit_16le cs (scalars_16 cs h) ∙ ap (λ t. some t) (encoded_16le cs),
  convert-utf8 is_char_32 long_le cs (scalars_32 cs h),
  convert-utf8 is_char_32 long_be cs (scalars_32 cs h),
)

swapped :
    (c : ℕ)
    → IsScalar c
    → 0xffff < c
    → encoded emit_16be (c ∷ []) ≢ bytes_of short_be (utf16_units c)
swapped c h hc e = ground arith

-- Of a character above 0xffff, the big-endian UTF-16 is not that of Unicode.
pub utf8_to_16be_swapped :
    (c : ℕ)
    → IsScalar c
    → 0xffff < c
    → (r : List ℕ) × (string_transform Strfunc.utf16be (utf8 (c ∷ [])) ≡ some r)
      × (r ≢ bytes_of short_be (utf16_units c))
unfolding string_transform utf8_to_16be
utf8_to_16be_swapped c h hc = (
  encoded emit_16be (c ∷ []),
  convert-utf8 is_char_16 emit_16be (c ∷ []) (scalars_16 (c ∷ []) (h, tt)),
  swapped c h hc,
)
