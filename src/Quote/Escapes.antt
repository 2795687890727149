-- ===== src/Quote/Escapes.antt =====
-- `nasm_skip_string` of asm/quote.c on what `nasm_quote` writes for the characters of a string.
use nasm.Prelude.{
  ℕ, suc, ◌+◌, ◌/◌, ◌%◌, ◌^◌, ◌<◌, ◌≡◌, refl, ap, ◌∙◌, Bool, true, false, not, ◌&&◌, ◌||◌, List, [],
  ◌∷◌, ◌++◌, ltb, ◌==◌, length, length-append, append_assoc, arith, Bool-cases, inl, inr, All,
}
use nasm.Quote.{
  single, double, back, slash, is_marked, is_named, is_unprintable, letter, octal, octal_size,
  added, measure, escaped, body, skip_plain, skip_back,
}

-- An escape, and a character that stands for itself.
skip_escape :
    (x : ℕ) (t : List ℕ) (i : ℕ)
    → 0 < x
    → (x == 0x5e) ≡ false
    → skip_back false (slash ∷ x ∷ t) i ≡ skip_back false t (i + 2)
unfolding skip_back
skip_escape x [] i h e = let z : (x == 0) ≡ false = ground arith in rw (z) omega arith
skip_escape x (d ∷ t) i h e =
    let z : (x == 0) ≡ false = ground arith in
    let two : i + 1 + 1 ≡ i + 2 = omega arith in rw (z, e) (ap (skip_back false (d ∷ t)) two)

skip_char :
    (y : ℕ) (t : List ℕ) (i : ℕ)
    → 0 < y
    → is_marked y ≡ false
    → skip_back false (y ∷ t) i ≡ skip_back false t (i + 1)
unfolding skip_back
skip_char y t i h e =
    let s : (y == slash) ≡ false = ground arith in
    let b : (y == back || y == 0) ≡ false = ground arith in rw (s) rw (b) refl

skip_octal :
    (c uc : ℕ) (t : List ℕ) (i : ℕ)
    → c < 256
    → skip_back false (slash ∷ octal c uc ++ t) i
      ≡ skip_back false t (i + suc (length (octal c uc)))
skip_octal c uc t i h =
    let high = c / 2 ^ 6 + 0x30 in
    let middle = c / 2 ^ 3 % 2 ^ 3 + 0x30 in
    let low = c % 2 ^ 3 + 0x30 in
    elim (Bool-cases (ltb 0x3f uc)) [
      | inl e ↦ elim (Bool-cases (ltb 7 uc)) [
        | inl e' ↦
            rw (e, e')
              (skip_escape high (middle ∷ low ∷ t) i (omega arith) (ground arith)
                ∙ skip_char middle (low ∷ t) (i + 2) (omega arith) (ground arith)
                ∙ skip_char low t (i + 2 + 1) (omega arith) (ground arith)
                ∙ ap (skip_back false t) (omega arith))
        | inr e' ↦
            rw (e, e')
              (skip_escape high (low ∷ t) i (omega arith) (ground arith)
                ∙ skip_char low t (i + 2) (omega arith) (ground arith)
                ∙ ap (skip_back false t) (omega arith))
      ]
      | inr e ↦ elim (Bool-cases (ltb 7 uc)) [
        | inl e' ↦
            rw (e, e')
              (skip_escape middle (low ∷ t) i (omega arith) (ground arith)
                ∙ skip_char low t (i + 2) (omega arith) (ground arith)
                ∙ ap (skip_back false t) (omega arith))
        | inr e' ↦
            rw (e, e')
              (skip_escape low t i (omega arith) (ground arith)
                ∙ ap (skip_back false t) (omega arith))
      ]
    ]

letter_lem : (c : ℕ) → (0 < letter c) × (letter c < 0x80) × ((letter c == 0x5e) ≡ false)
letter_lem c = (ground arith, ground arith, ground arith)

skip_escaped :
    (c : ℕ) (r t : List ℕ) (i : ℕ)
    → c < 256
    → skip_back false (escaped c r ++ t) i ≡ skip_back false t (i + length (escaped c r))
skip_escaped c r t i h = elim (Bool-cases (is_marked c)) [
  | inl m ↦ rw (m) (skip_escape c t i (ground arith) (ground arith))
  | inr m ↦ elim (Bool-cases (is_named c)) [
    | inl n ↦ let (l1, l2, l3) = letter_lem c in rw (m, n) (skip_escape (letter c) t i l1 l3)
    | inr n ↦ elim (Bool-cases (is_unprintable c)) [
      | inl u ↦ rw (m, n, u) (skip_octal c (octal_size c r) t i h)
      | inr u ↦ rw (m, n, u) (skip_char c t i (ground arith) m)
    ]
  ]
]

pub skip_body :
    (str t : List ℕ) (i : ℕ)
    → All (λ c. c < 256) str
    → skip_back false (body str ++ t) i ≡ skip_back false t (i + length (body str))
unfolding body
skip_body [] t i h = ap (skip_back false t) (omega arith)
skip_body (c ∷ r) t i h =
    ap (λ l. skip_back false l i) (append_assoc (escaped c r) (body r) t)
    ∙ skip_escaped c r (body r ++ t) i h.0
    ∙ skip_body r t (i + length (escaped c r)) h.1
    ∙ ap (skip_back false t) (omega (arith, length-append (escaped c r) (body r)))

-- A quote that the first loop still allows after a character is not that character, nor is a zero.
pub allowed :
    (q : ℕ) (ok : Bool) (c : ℕ)
    → (ok && not (c == q || not (is_marked c) && is_unprintable c)) ≡ true
    → (ok ≡ true) × ((c == 0 || c == q) ≡ false)
allowed q ok c h = (ground (arith, h), ground (arith, h))

pass_char :
    (q c i : ℕ) (t : List ℕ)
    → (c == 0 || c == q) ≡ false
    → skip_plain q (c ∷ t) i ≡ skip_plain q t (i + 1)
unfolding skip_plain
pass_char q c i t e = rw (e) refl

stop_quote : (q i : ℕ) (t : List ℕ) → skip_plain q (q ∷ t) i ≡ i
unfolding skip_plain
stop_quote q i t = let e : (q == 0 || q == q) ≡ true = ground arith in rw (e) refl

pub single-skip_plain :
    (str t : List ℕ) (sq dq : Bool) (n i : ℕ)
    → (measure str sq dq n).0 ≡ true
    → (sq ≡ true) × (skip_plain single (str ++ single ∷ t) i ≡ i + length str)
unfolding measure
single-skip_plain [] t sq dq n i h = (h, stop_quote single i t ∙ omega arith)
single-skip_plain (c ∷ r) t sq dq n i h =
    let other = not (is_marked c) && is_unprintable c in
    let (ok, rest) =
      single-skip_plain r t (sq && not (c == single || other)) (dq && not (c == double || other))
        (n + added c r) (i + 1) h in
    let (before, e) = allowed single sq c ok in
    (before, pass_char single c i (r ++ single ∷ t) e ∙ rest ∙ omega arith)

pub double-skip_plain :
    (str t : List ℕ) (sq dq : Bool) (n i : ℕ)
    → (measure str sq dq n).1 ≡ true
    → (dq ≡ true) × (skip_plain double (str ++ double ∷ t) i ≡ i + length str)
unfolding measure
double-skip_plain [] t sq dq n i h = (h, stop_quote double i t ∙ omega arith)
double-skip_plain (c ∷ r) t sq dq n i h =
    let other = not (is_marked c) && is_unprintable c in
    let (ok, rest) =
      double-skip_plain r t (sq && not (c == single || other)) (dq && not (c == double || other))
        (n + added c r) (i + 1) h in
    let (before, e) = allowed double dq c ok in
    (before, pass_char double c i (r ++ double ∷ t) e ∙ rest ∙ omega arith)
