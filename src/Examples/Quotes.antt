-- ===== src/Examples/Quotes.antt =====
-- The theorems on asm/quote.c on concrete input.
use nasm.Prelude.{ℕ, false, List, [], ◌∷◌, ◌≡◌, refl, some, arith, All, ◌<◌}
use nasm.Quote.{nasm_quote}
use nasm.Quote.Unquote.{nasm_unquote}
use nasm.Quote.Unquote.RoundTrip.{read_again, nasm_unquote-nasm_quote}
use nasm.Quote.Skipped.{IsQuoted, nasm_quote-IsQuoted}

-- Both quotes, a new line, a zero and a digit.
abbrev text : List ℕ
text = 0x27 ∷ 0x22 ∷ 10 ∷ 0 ∷ 0x37 ∷ []

text-IsBytes : All (λ c. c < 256) text
text-IsBytes = (omega arith, (omega arith, (omega arith, (omega arith, (omega arith, tt)))))

-- `'"\n\0007`
text-quoted :
    nasm_quote text
    ≡ some (0x60 ∷ 0x27 ∷ 0x22 ∷ 0x5c ∷ 0x6e ∷ 0x5c ∷ 0x30 ∷ 0x30 ∷ 0x30 ∷ 0x37 ∷ 0x60 ∷ [])
unfolding nasm_quote
text-quoted = refl

nasm_quote-IsQuoted_example : IsQuoted text (nasm_quote text)
nasm_quote-IsQuoted_example = nasm_quote-IsQuoted text text-IsBytes

nasm_unquote-nasm_quote_example :
    (q : ℕ) × (read_again (nasm_quote text) (0x2c ∷ []) ≡ some (text, false, q ∷ 0x2c ∷ []))
nasm_unquote-nasm_quote_example = nasm_unquote-nasm_quote text (0x2c ∷ []) text-IsBytes

-- `\x{41}\u00e9\xg`, with an invalid sequence at the end.
escapes-unquoted :
    nasm_unquote (
      0x60 ∷ 0x5c ∷ 0x78 ∷ 0x7b ∷ 0x34 ∷ 0x31 ∷ 0x7d ∷ 0x5c ∷ 0x75 ∷ 0x30 ∷ 0x30 ∷ 0x65 ∷ 0x39
      ∷ 0x5c ∷ 0x78 ∷ 0x67 ∷ 0x60 ∷ [])
    ≡ some (0x41 ∷ 0xc3 ∷ 0xa9 ∷ 0x78 ∷ 0x67 ∷ [], false, 0x60 ∷ [])
unfolding nasm_unquote
escapes-unquoted = refl
