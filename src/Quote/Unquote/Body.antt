-- ===== src/Quote/Unquote/Body.antt =====
-- nasm_unquote_anystr of asm/quote.c on the whole of what `nasm_quote` writes between back quotes.
use nasm.Prelude.{
  ℕ, suc, ◌+◌, ◌-◌, ◌<◌, ◌≡◌, refl, sym, ap, ◌∙◌, true, false, ◌&&◌, List, [], ◌∷◌, ◌++◌, some, ltb,
  leb, append-nil, append_assoc, arith, Bool-cases, inl, inr, All,
}
use mathlib.Core.Path.{subst}
use nasm.Quote.{back, is_marked, is_named, is_unprintable, letter, next_char, escaped, body}
use nasm.Quote.Unquote.{st_start, numvalue_chk, head, prepend, unquote_loop}
use nasm.Quote.Unquote.Reads.{loop, prepend_nil, then_read}
use nasm.Quote.Unquote.Chunks.{
  Chunk, char_read, simple_read, letter_simple, letter_escape, marked_escape, is_simple,
}
use nasm.Quote.Unquote.Octal.{octal_read}

marked_simple : (c : ℕ) → is_marked c ≡ true → is_simple c ≡ true
marked_simple c h = ground (arith, h)

escaped_read :
    (c : ℕ) (r t : List ℕ)
    → c < 256
    → ((leb 0x30 (next_char r) && leb (next_char r) 0x37) ≡ false
        → ltb (numvalue_chk (head t)) 8 ≡ false)
    → Chunk (escaped c r ++ t) (c ∷ []) t
escaped_read c r t h stops = elim (Bool-cases (is_marked c)) [
  | inl m ↦ rw (m) (simple_read c c t (marked_simple c m) (marked_escape c m))
  | inr m ↦ elim (Bool-cases (is_named c)) [
    | inl n ↦ rw (m, n) (simple_read (letter c) c t (letter_simple c n) (letter_escape c n))
    | inr n ↦ elim (Bool-cases (is_unprintable c)) [
      | inl u ↦ rw (m, n, u) (octal_read c r t h stops)
      | inr u ↦ rw (m, n, u) (char_read c t m u)
    ]
  ]
]

head_value : (c : ℕ) → (leb 0x30 c && leb c 0x37) ≡ false → ltb (numvalue_chk c) 8 ≡ false
head_value c h = ground (arith, h)

-- The byte after an octal sequence, when the next character is no octal digit.
head-escaped :
    (c : ℕ) (r t : List ℕ)
    → (leb 0x30 c && leb c 0x37) ≡ false
    → ltb (numvalue_chk (head (escaped c r ++ t))) 8 ≡ false
head-escaped c r t h = elim (Bool-cases (is_marked c)) [
  | inl m ↦ rw (m) refl
  | inr m ↦ elim (Bool-cases (is_named c)) [
    | inl n ↦ rw (m, n) refl
    | inr n ↦ elim (Bool-cases (is_unprintable c)) [
      | inl u ↦ rw (m, n, u) refl
      | inr u ↦ rw (m, n, u) (head_value c h)
    ]
  ]
]

head-body :
    (r rest : List ℕ)
    → (leb 0x30 (next_char r) && leb (next_char r) 0x37) ≡ false
    → ltb (numvalue_chk (head (body r ++ back ∷ rest))) 8 ≡ false
unfolding body
head-body [] rest h = refl
head-body (c ∷ r) rest h =
    ap (λ l. ltb (numvalue_chk (head l)) 8) (append_assoc (escaped c r) (body r) (back ∷ rest))
    ∙ head-escaped c r (body r ++ back ∷ rest) h

then-Chunk : (p p' p'' xs ys : List ℕ) → Chunk p xs p' → Chunk p' ys p'' → Chunk p (xs ++ ys) p''
then-Chunk p p' p'' xs ys f g = record {
  cost = f.cost + g.cost;
  reads = then_read f.cost g.cost st_start st_start st_start p p' p'' xs ys f.reads g.reads;
  enough = omega (arith, f.enough, g.enough);
}

pub body_read :
    (str rest : List ℕ) → All (λ c. c < 256) str → Chunk (body str ++ back ∷ rest) str (back ∷ rest)
unfolding body
body_read [] rest h = record {
  cost = 0;
  reads = λ n.
      let e : 0 + n ≡ n = omega arith in
      ap (λ m. loop m st_start (back ∷ rest)) e ∙ sym (prepend_nil (loop n st_start (back ∷ rest)));
  enough = omega arith;
}
body_read (c ∷ r) rest h =
    subst (λ p. Chunk p (c ∷ r) (back ∷ rest))
      (sym (append_assoc (escaped c r) (body r) (back ∷ rest)))
      (then-Chunk (escaped c r ++ (body r ++ back ∷ rest)) (body r ++ back ∷ rest) (back ∷ rest)
        (c ∷ []) r (escaped_read c r (body r ++ back ∷ rest) h.0 (head-body r rest))
        (body_read r rest h.1))

loop_ends :
    (n : ℕ) (rest : List ℕ) → loop (suc n) st_start (back ∷ rest) ≡ some ([], false, back ∷ rest)
unfolding unquote_loop
loop_ends n rest = refl

pub enough_rounds :
    (p str rest : List ℕ) (fuel : ℕ) (c : Chunk p str (back ∷ rest))
    → c.cost < fuel
    → loop fuel st_start p ≡ some (str, false, back ∷ rest)
enough_rounds p str rest fuel c h =
    let m = fuel - c.cost - 1 in
    let sum : fuel ≡ c.cost + suc m = omega (arith, h) in
    ap (λ n. loop n st_start p) sum
    ∙ c.reads (suc m)
    ∙ ap (prepend str) (loop_ends m rest)
    ∙ ap (λ l. some (l, false, back ∷ rest)) (append-nil str)
