-- ===== src/Quote/Unquote/Chunks.antt =====
-- nasm_unquote_anystr of asm/quote.c on what `nasm_quote` writes for one character.
use nasm.Prelude.{
  ℕ, ◌+◌, ◌-◌, ◌*◌, ◌%◌, ◌^◌, ◌≤◌, ◌<◌, ◌≡◌, refl, ap, ◌∙◌, Bool, true, false, not, ◌&&◌, ◌||◌,
  List, [], ◌∷◌, Option, some, ltb, leb, ◌==◌, length, arith, Bool-cases, inl, inr,
}
use nasm.Quote.{back, slash, is_marked, is_named, is_unprintable, letter}
use nasm.Quote.Unquote.{
  UnqState, st_start, st_backslash, st_number, numvalue_chk, simple_escape, Emitted, emit, Round,
  round_of, head,
}
use nasm.Quote.Unquote.Reads.{allow, Reads, then_read, one_round}

pub emit_clean :
    (c : ℕ) (bytes : List ℕ) → emit allow false c bytes ≡ record { bytes = bytes; bad = false }
emit_clean c bytes = elim (Bool-cases (ltb c 0x20)) [ inl e ↦ rw (e) refl | inr e ↦ rw (e) refl ]

abbrev pub gives : Emitted → UnqState → List ℕ → Option Round
gives w st p = some record { written = w; state = st; left_over = p }

-- The loop reads some bytes in its first state, and is there again.
pub record Chunk (p bytes p' : List ℕ) : Type 0 where
  pub cost : ℕ
  pub reads : Reads cost st_start p bytes st_start p'
  pub enough : cost + 2 * length p' ≤ 2 * length p

char_round :
    (c : ℕ) (t : List ℕ)
    → (c == slash) ≡ false
    → (c == 0 || c == back) ≡ false
    → round_of allow back false st_start (c ∷ t)
      ≡ some record {
        written = record { bytes = c ∷ []; bad = false };
        state = st_start;
        left_over = t;
      }
char_round c t s b = rw (s) rw (b) (ap (λ w. gives w st_start t) (emit_clean c (c ∷ [])))

pub char_read :
    (c : ℕ) (t : List ℕ) → is_marked c ≡ false → is_unprintable c ≡ false → Chunk (c ∷ t) (c ∷ []) t
char_read c t m u = record {
  cost = 1;
  reads =
      one_round st_start (c ∷ t) (c ∷ []) st_start t (char_round c t (ground arith) (ground arith));
  enough = omega arith;
}

-- The letters that do not begin a sequence.
abbrev pub is_simple : ℕ → Bool
is_simple x = not (
    x == 0x5e
    || (x == 0x75
        || (x == 0x55
            || ((x == 0x78 || x == 0x58)
                || (x == 0x64 || ((leb 0x30 x && leb x 0x37) || (x == 0x6f || x == 0)))))))

pub slash_round :
    (t : List ℕ)
    → round_of allow back false st_start (slash ∷ t)
      ≡ some record {
        written = record { bytes = []; bad = false };
        state = st_backslash;
        left_over = t;
      }
slash_round t = refl

simple_round :
    (x : ℕ) (t : List ℕ)
    → is_simple x ≡ true
    → round_of allow back false st_backslash (x ∷ t)
      ≡ some record {
        written = record { bytes = simple_escape x ∷ []; bad = false };
        state = st_start;
        left_over = t;
      }
simple_round x t h =
    let e1 : (x == 0x5e) ≡ false = ground (arith, h) in
    let e2 : (x == 0x75) ≡ false = ground (arith, h) in
    let e3 : (x == 0x55) ≡ false = ground (arith, h) in
    let e4 : (x == 0x78 || x == 0x58) ≡ false = ground (arith, h) in
    let e5 : (x == 0x64) ≡ false = ground (arith, h) in
    let e6 : (leb 0x30 x && leb x 0x37) ≡ false = ground (arith, h) in
    let e7 : (x == 0x6f) ≡ false = ground (arith, h) in
    let e8 : (x == 0) ≡ false = ground (arith, h) in
    rw (e1) rw (e2) rw (e3) rw (e4) rw (e5) rw (e6) rw (e7) rw (e8)
      (ap (λ w. gives w st_start t) (emit_clean (simple_escape x) (simple_escape x ∷ [])))

pub simple_read :
    (x c : ℕ) (t : List ℕ)
    → is_simple x ≡ true
    → simple_escape x ≡ c
    → Chunk (slash ∷ x ∷ t) (c ∷ []) t
simple_read x c t h e = record {
  cost = 2;
  reads =
      then_read 1 1 st_start st_backslash st_start (slash ∷ x ∷ t) (x ∷ t) t [] (c ∷ [])
        (one_round st_start (slash ∷ x ∷ t) [] st_backslash (x ∷ t) (slash_round (x ∷ t)))
        (one_round st_backslash (x ∷ t) (c ∷ []) st_start t (
          simple_round x t h
          ∙ ap (λ b. gives record { bytes = b ∷ []; bad = false } st_start t) e));
  enough = omega arith;
}

pub letter_simple : (c : ℕ) → is_named c ≡ true → is_simple (letter c) ≡ true
letter_simple c h = ground (arith, h)

pub letter_escape : (c : ℕ) → is_named c ≡ true → simple_escape (letter c) ≡ c
letter_escape c h = ground (arith, h)

pub marked_escape : (c : ℕ) → is_marked c ≡ true → simple_escape c ≡ c
marked_escape c h = ground (arith, h)

-- A digit is read in the middle of an octal sequence, and as its last.
abbrev pub octal_state : ℕ → ℕ → Bool → List ℕ → UnqState
octal_state k v fresh escp = st_number false 8 (some k) v fresh escp

digit_value : (d : ℕ) → d < 8 → numvalue_chk (d + 0x30) ≡ d
digit_value d h = ground (arith, h)

pub octal_begins :
    (d : ℕ) (t : List ℕ)
    → d < 8
    → round_of allow back false st_backslash ((d + 0x30) ∷ t)
      ≡ gives
          record { bytes = []; bad = false }
          (octal_state 3 0 true (slash ∷ (d + 0x30) ∷ t))
          ((d + 0x30) ∷ t)
octal_begins d t h =
    let x = d + 0x30 in
    let e1 : (x == 0x5e) ≡ false = ground (arith, h) in
    let e2 : (x == 0x75) ≡ false = ground (arith, h) in
    let e3 : (x == 0x55) ≡ false = ground (arith, h) in
    let e4 : (x == 0x78 || x == 0x58) ≡ false = ground (arith, h) in
    let e5 : (x == 0x64) ≡ false = ground (arith, h) in
    let e6 : (leb 0x30 x && leb x 0x37) ≡ true = ground (arith, h) in
    let e7 : (x == 0x7b) ≡ false = ground (arith, h) in
    rw (e1) rw (e2) rw (e3) rw (e4) rw (e5) rw (e6) rw (e7) refl

number_goes_on :
    (c k v : ℕ) (fresh : Bool) (escp t : List ℕ)
    → ltb (numvalue_chk c) 8 ≡ true
    → (k == 1) ≡ false
    → round_of allow back false (octal_state k v fresh escp) (c ∷ t)
      ≡ gives
          record { bytes = []; bad = false }
          (octal_state (k - 1) ((v * 8 + numvalue_chk c) % 2 ^ 64) false escp)
          t
number_goes_on c k v fresh escp t e e' = rw (e) rw (e') refl

number_is_full :
    (c v : ℕ) (fresh : Bool) (escp t : List ℕ)
    → ltb (numvalue_chk c) 8 ≡ true
    → round_of allow back false (octal_state 1 v fresh escp) (c ∷ t)
      ≡ gives
          record { bytes = (v * 8 + numvalue_chk c) % 2 ^ 64 % 2 ^ 8 ∷ []; bad = false }
          st_start
          t
number_is_full c v fresh escp t e =
    let w = (v * 8 + numvalue_chk c) % 2 ^ 64 in
    rw (e) (ap (λ b. gives b st_start t) (emit_clean (w % 2 ^ 8) (w % 2 ^ 8 ∷ [])))

pub middle_digit :
    (d k v v' : ℕ) (fresh : Bool) (escp t : List ℕ)
    → d < 8
    → (k == 1) ≡ false
    → (v * 8 + d) % 2 ^ 64 ≡ v'
    → round_of allow back false (octal_state k v fresh escp) ((d + 0x30) ∷ t)
      ≡ gives record { bytes = []; bad = false } (octal_state (k - 1) v' false escp) t
middle_digit d k v v' fresh escp t h e e' =
    number_goes_on (d + 0x30) k v fresh escp t (ground (arith, h)) e
    ∙ ap
        (λ n.
          gives record { bytes = []; bad = false }
            (octal_state (k - 1) ((v * 8 + n) % 2 ^ 64) false escp) t)
        (digit_value d h)
    ∙ ap (λ n. gives record { bytes = []; bad = false } (octal_state (k - 1) n false escp) t) e'

pub last_digit :
    (d v c : ℕ) (fresh : Bool) (escp t : List ℕ)
    → d < 8
    → (v * 8 + d) % 2 ^ 64 % 2 ^ 8 ≡ c
    → round_of allow back false (octal_state 1 v fresh escp) ((d + 0x30) ∷ t)
      ≡ gives record { bytes = c ∷ []; bad = false } st_start t
last_digit d v c fresh escp t h e =
    number_is_full (d + 0x30) v fresh escp t (ground (arith, h))
    ∙ ap (λ n. gives record { bytes = (v * 8 + n) % 2 ^ 64 % 2 ^ 8 ∷ []; bad = false } st_start t)
        (digit_value d h)
    ∙ ap (λ n. gives record { bytes = n ∷ []; bad = false } st_start t) e

pub octal_ends :
    (k v c : ℕ) (escp t : List ℕ)
    → ltb (numvalue_chk (head t)) 8 ≡ false
    → v % 2 ^ 8 ≡ c
    → round_of allow back false (octal_state k v false escp) t
      ≡ gives record { bytes = c ∷ []; bad = false } st_start t
octal_ends k v c escp t e e' = rw (e) (
    ap (λ w. gives w st_start t) (emit_clean (v % 2 ^ 8) (v % 2 ^ 8 ∷ []))
    ∙ ap (λ b. gives record { bytes = b ∷ []; bad = false } st_start t) e')
