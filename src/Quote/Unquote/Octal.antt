-- ===== src/Quote/Unquote/Octal.antt =====
-- nasm_unquote_anystr of asm/quote.c on the octal sequences that `nasm_quote` writes.
use nasm.Prelude.{
  ℕ, ◌+◌, ◌*◌, ◌/◌, ◌%◌, ◌^◌, ◌<◌, ◌≡◌, refl, true, false, ◌&&◌, List, [], ◌∷◌, ◌++◌, ltb, leb,
  arith, Bool-cases, inl, inr,
}
use nasm.Quote.{slash, octal, octal_size, next_char}
use nasm.Quote.Unquote.{st_start, st_backslash, numvalue_chk, head}
use nasm.Quote.Unquote.Reads.{Reads, then_read, one_round}
use nasm.Quote.Unquote.Chunks.{
  Chunk, slash_round, octal_begins, octal_state, middle_digit, last_digit, octal_ends,
}

abbrev digit : ℕ → ℕ
digit d = d + 0x30

-- The backslash and the first digit bring the loop to a number.
octal_start :
    (d : ℕ) (t : List ℕ)
    → d < 8
    → Reads 2 st_start
        (slash ∷ digit d ∷ t)
        []
        (octal_state 3 0 true (slash ∷ digit d ∷ t))
        (digit d ∷ t)
octal_start d t h =
    then_read 1 1 st_start st_backslash (octal_state 3 0 true (slash ∷ digit d ∷ t))
      (slash ∷ digit d ∷ t) (digit d ∷ t) (digit d ∷ t) [] []
      (one_round st_start (slash ∷ digit d ∷ t) [] st_backslash (digit d ∷ t)
        (slash_round (digit d ∷ t)))
      (one_round st_backslash (digit d ∷ t) [] (octal_state 3 0 true (slash ∷ digit d ∷ t))
        (digit d ∷ t) (octal_begins d t h))

-- And the digit itself.
octal_first :
    (d : ℕ) (t : List ℕ)
    → d < 8
    → Reads 3 st_start (slash ∷ digit d ∷ t) [] (octal_state 2 d false (slash ∷ digit d ∷ t)) t
octal_first d t h =
    let escp = slash ∷ digit d ∷ t in
    then_read 2 1 st_start (octal_state 3 0 true escp) (octal_state 2 d false escp) escp
      (digit d ∷ t) t [] [] (octal_start d t h)
      (one_round (octal_state 3 0 true escp) (digit d ∷ t) [] (octal_state 2 d false escp) t
        (middle_digit d 3 0 d true escp t h refl (omega arith)))

octal_second :
    (d d' v : ℕ) (t : List ℕ)
    → d < 8
    → d' < 8
    → d * 8 + d' ≡ v
    → Reads 4 st_start
        (slash ∷ digit d ∷ digit d' ∷ t)
        []
        (octal_state 1 v false (slash ∷ digit d ∷ digit d' ∷ t))
        t
octal_second d d' v t h h' e =
    let escp = slash ∷ digit d ∷ digit d' ∷ t in
    then_read 3 1 st_start (octal_state 2 d false escp) (octal_state 1 v false escp) escp
      (digit d' ∷ t) t [] [] (octal_first d (digit d' ∷ t) h)
      (one_round (octal_state 2 d false escp) (digit d' ∷ t) [] (octal_state 1 v false escp) t
        (middle_digit d' 2 d v false escp t h' refl (omega (arith, h, h', e))))

three_digits :
    (c : ℕ) (t : List ℕ)
    → c < 256
    → Chunk
        (slash ∷ digit (c / 2 ^ 6) ∷ digit (c / 2 ^ 3 % 2 ^ 3) ∷ digit (c % 2 ^ 3) ∷ t)
        (c ∷ [])
        t
three_digits c t h =
    let d = c / 2 ^ 6 in
    let d' = c / 2 ^ 3 % 2 ^ 3 in
    let d'' = c % 2 ^ 3 in
    let escp = slash ∷ digit d ∷ digit d' ∷ digit d'' ∷ t in
    record {
      cost = 5;
      reads =
          then_read 4 1 st_start (octal_state 1 (d * 8 + d') false escp) st_start escp
            (digit d'' ∷ t) t [] (c ∷ [])
            (octal_second d d' (d * 8 + d') (digit d'' ∷ t) (omega (arith, h)) (omega arith) refl)
            (one_round (octal_state 1 (d * 8 + d') false escp) (digit d'' ∷ t) (c ∷ []) st_start t
              (last_digit d'' (d * 8 + d') c false escp t (omega arith) (omega (arith, h))));
      enough = omega arith;
    }

two_digits :
    (c : ℕ) (t : List ℕ)
    → c < 64
    → ltb (numvalue_chk (head t)) 8 ≡ false
    → Chunk (slash ∷ digit (c / 2 ^ 3 % 2 ^ 3) ∷ digit (c % 2 ^ 3) ∷ t) (c ∷ []) t
two_digits c t h e =
    let d' = c / 2 ^ 3 % 2 ^ 3 in
    let d'' = c % 2 ^ 3 in
    let escp = slash ∷ digit d' ∷ digit d'' ∷ t in
    record {
      cost = 5;
      reads =
          then_read 4 1 st_start (octal_state 1 c false escp) st_start escp t t [] (c ∷ [])
            (octal_second d' d'' c t (omega arith) (omega arith) (omega (arith, h)))
            (one_round (octal_state 1 c false escp) t (c ∷ []) st_start t
              (octal_ends 1 c c escp t e (omega (arith, h))));
      enough = omega arith;
    }

one_digit :
    (c : ℕ) (t : List ℕ)
    → c < 8
    → ltb (numvalue_chk (head t)) 8 ≡ false
    → Chunk (slash ∷ digit (c % 2 ^ 3) ∷ t) (c ∷ []) t
one_digit c t h e =
    let d = c % 2 ^ 3 in
    let escp = slash ∷ digit d ∷ t in
    record {
      cost = 4;
      reads =
          then_read 3 1 st_start (octal_state 2 d false escp) st_start escp t t [] (c ∷ [])
            (octal_first d t (omega arith))
            (one_round (octal_state 2 d false escp) t (c ∷ []) st_start t
              (octal_ends 2 d c escp t e (omega (arith, h))));
      enough = omega arith;
    }

-- Where less than three digits are written, no digit follows.
pub octal_read :
    (c : ℕ) (r t : List ℕ)
    → c < 256
    → ((leb 0x30 (next_char r) && leb (next_char r) 0x37) ≡ false
        → ltb (numvalue_chk (head t)) 8 ≡ false)
    → Chunk (slash ∷ octal c (octal_size c r) ++ t) (c ∷ []) t
octal_read c r t h stops = elim (Bool-cases (leb 0x30 (next_char r) && leb (next_char r) 0x37)) [
  | inl f ↦ rw (f) (three_digits c t h)
  | inr f ↦ elim (Bool-cases (ltb 0x3f c)) [
    | inl e ↦ let e' : ltb 7 c ≡ true = ground (arith, e) in rw (f) rw (e, e') (three_digits c t h)
    | inr e ↦ elim (Bool-cases (ltb 7 c)) [
      | inl e' ↦ rw (f) rw (e, e') (two_digits c t (ground (arith, e)) (stops f))
      | inr e' ↦ rw (f) rw (e, e') (one_digit c t (ground (arith, e')) (stops f))
    ]
  ]
]
