-- ===== src/Quote/Skipped.antt =====
-- What asm/quote.c quotes it can skip.
use nasm.Prelude.{
  ℕ, ◌+◌, ◌-◌, ◌<◌, ◌≡◌, refl, ap, ◌∙◌, true, false, List, [], ◌∷◌, ◌++◌, Option, some, length,
  length-append, append_assoc, arith, Bool-cases, inl, inr, All,
}
use nasm.Quote.{
  single, double, back, measure, body, quoted, nasm_quote, skip_plain, skip_back, nasm_skip_string,
}
use nasm.Quote.Lengths.{asserted}
use nasm.Quote.Escapes.{skip_body, single-skip_plain, double-skip_plain}

-- A quoted string, and where it ends.
pub record IsQuoted (str : List ℕ) (r : Option (List ℕ)) : Type 0 where
  pub text : List ℕ
  pub result : r ≡ some text
  pub skipped : (rest : List ℕ) → nasm_skip_string (text ++ rest) ≡ some (length text - 1)

-- The index of the last quote.
last_quote : (q : ℕ) (str : List ℕ) → 1 + length str ≡ length (quoted q str) - 1
last_quote q str = omega (arith, length-append str (q ∷ []))

plain_skipped :
    (q : ℕ) (str rest : List ℕ)
    → ((t : List ℕ) → nasm_skip_string (q ∷ t) ≡ some (skip_plain q t 1))
    → skip_plain q (str ++ q ∷ rest) 1 ≡ 1 + length str
    → nasm_skip_string (quoted q str ++ rest) ≡ some (length (quoted q str) - 1)
plain_skipped q str rest starts h =
    ap (λ l. nasm_skip_string (q ∷ l)) (append_assoc str (q ∷ []) rest)
    ∙ starts (str ++ q ∷ rest)
    ∙ ap some (h ∙ last_quote q str)

skip_single : (t : List ℕ) → nasm_skip_string (single ∷ t) ≡ some (skip_plain single t 1)
unfolding nasm_skip_string
skip_single t = refl

skip_double : (t : List ℕ) → nasm_skip_string (double ∷ t) ≡ some (skip_plain double t 1)
unfolding nasm_skip_string
skip_double t = refl

skip_back_quote : (t : List ℕ) → nasm_skip_string (back ∷ t) ≡ some (skip_back false t 1)
unfolding nasm_skip_string
skip_back_quote t = refl

back_end : (t : List ℕ) (i : ℕ) → skip_back false (back ∷ t) i ≡ i
unfolding skip_back
back_end t i = refl

back_skipped :
    (str rest : List ℕ)
    → All (λ c. c < 256) str
    → nasm_skip_string (quoted back (body str) ++ rest) ≡ some (length (quoted back (body str)) - 1)
back_skipped str rest h =
    ap (λ l. nasm_skip_string (back ∷ l)) (append_assoc (body str) (back ∷ []) rest)
    ∙ skip_back_quote (body str ++ back ∷ rest)
    ∙ ap some (
        skip_body str (back ∷ rest) 1 h
        ∙ back_end rest (1 + length (body str))
        ∙ last_quote back (body str))

-- For every string of bytes, `nasm_quote` gives a text: the length counted beforehand is that of
-- what is written, as its assertion wants. And whatever follows the text, `nasm_skip_string` finds
-- its end at its last quote, so that no byte of the string ends it before.
pub nasm_quote-IsQuoted : (str : List ℕ) → All (λ c. c < 256) str → IsQuoted str (nasm_quote str)
unfolding nasm_quote
nasm_quote-IsQuoted str h = elim (Bool-cases (measure str true true 0).0) [
  | inl s ↦ record {
    text = quoted single str;
    result = rw (s) refl;
    skipped = λ rest.
        plain_skipped single str rest skip_single (single-skip_plain str rest true true 0 1 s).1;
  }
  | inr s ↦ elim (Bool-cases (measure str true true 0).1) [
    | inl d ↦ record {
      text = quoted double str;
      result = rw (s, d) refl;
      skipped = λ rest.
          plain_skipped double str rest skip_double (double-skip_plain str rest true true 0 1 d).1;
    }
    | inr d ↦ record {
      text = quoted back (body str);
      result = rw (s, d) rw (asserted str) refl;
      skipped = λ rest. back_skipped str rest h;
    }
  ]
]
