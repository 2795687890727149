-- ===== src/Quote/Lengths.antt =====
-- The two loops of `nasm_quote` in asm/quote.c count and write the same bytes.
use nasm.Prelude.{
  ℕ, suc, ◌+◌, ◌≡◌, refl, ◌∙◌, Bool, true, false, not, ◌&&◌, ◌||◌, List, [], ◌∷◌, ltb, ◌==◌,
  if◌then◌else◌, length, length-append, arith, Bool-cases, inl, inr,
}
use nasm.Quote.{
  single, double, is_marked, is_named, is_unprintable, octal, octal_size, added, measure, escaped,
  body, quoted, back,
}

-- The length that the first loop counts is that of what the second one writes.
octal-length :
    (c uc : ℕ)
    → (if ltb 0x3f uc then 1 else 0) + (if ltb 7 uc then 1 else 0) + 2 ≡ suc (length (octal c uc))
octal-length c uc = elim (Bool-cases (ltb 0x3f uc)) [
  | inl e ↦ elim (Bool-cases (ltb 7 uc)) [ inl e' ↦ rw (e, e') refl | inr e' ↦ rw (e, e') refl ]
  | inr e ↦ elim (Bool-cases (ltb 7 uc)) [ inl e' ↦ rw (e, e') refl | inr e' ↦ rw (e, e') refl ]
]

added-length : (c : ℕ) (r : List ℕ) → added c r ≡ length (escaped c r)
added-length c r = elim (Bool-cases (is_marked c)) [
  | inl m ↦ let q : (c == single || c == double) ≡ false = ground arith in rw (q, m) refl
  | inr m ↦ elim (Bool-cases (is_unprintable c)) [
    | inl u ↦
        let q : (c == single || c == double) ≡ false = ground arith in
        elim (Bool-cases (is_named c)) [
          | inl n ↦ rw (q, m, u, n) refl
          | inr n ↦ rw (q, m, u, n) (octal-length c (octal_size c r))
        ]
    | inr u ↦
        let n : is_named c ≡ false = ground arith in
        elim (Bool-cases (c == single || c == double)) [
          | inl q ↦ rw (q, m, u, n) refl
          | inr q ↦ rw (q, m, u, n) refl
        ]
  ]
]

pub measure-length :
    (str : List ℕ) (sq dq : Bool) (n : ℕ) → (measure str sq dq n).2 ≡ n + length (body str)
unfolding measure body
measure-length [] sq dq n = omega arith
measure-length (c ∷ r) sq dq n =
    measure-length r (sq && not (c == single || not (is_marked c) && is_unprintable c))
      (dq && not (c == double || not (is_marked c) && is_unprintable c)) (n + added c r)
    ∙ omega (arith, added-length c r, length-append (escaped c r) (body r))

-- The assertion on the length.
pub asserted :
    (str : List ℕ) → (length (quoted back (body str)) == (measure str true true 0).2 + 2) ≡ true
asserted str =
    let e = measure-length str true true 0 in
    let l = length-append (body str) (back ∷ []) in ground (arith, e, l)
