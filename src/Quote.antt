-- ===== src/Quote.antt =====
-- asm/quote.c: quoted strings, made and skipped.
--
-- A string is the list of its bytes. The text that is skipped ends with the list, where C reads a zero.
pub mod Lengths
pub mod Escapes
pub mod Skipped
pub mod Unquote
use nasm.Prelude.{
  ℕ, zero, suc, ◌+◌, ◌-◌, ◌*◌, ◌/◌, ◌%◌, ◌^◌, Bool, true, false, not, ◌&&◌, ◌||◌, List, [], ◌∷◌,
  ◌++◌, Option, none, some, ltb, leb, ◌==◌, if◌then◌else◌, length,
}

abbrev pub single : ℕ
single = 0x27

abbrev pub double : ℕ
double = 0x22

abbrev pub back : ℕ
back = 0x60

abbrev pub slash : ℕ
slash = 0x5c

-- `c < ' ' || c > '~'`, which a byte from 0x80 on satisfies whether char is signed or not.
abbrev pub is_unprintable : ℕ → Bool
is_unprintable c = ltb c 0x20 || ltb 0x7e c

abbrev pub is_marked : ℕ → Bool
is_marked c = c == back || c == slash

-- The control characters with a letter of their own, from `\a` to `\r` and `\e`.
abbrev pub is_named : ℕ → Bool
is_named c = leb 7 c && leb c 13 || c == 27

abbrev pub letter : ℕ → ℕ
letter c =
    if c == 7
    then 0x61
    else if c == 8
    then 0x62
    else if c == 9
    then 0x74
    else if c == 10
    then 0x6e
    else if c == 11
    then 0x76
    else if c == 12
    then 0x66
    else if c == 13
    then 0x72
    else 0x65

-- `c1` and `uc`
abbrev pub next_char : List ℕ → ℕ
next_char [] = 0
next_char (c ∷ r) = c

abbrev pub octal_size : ℕ → List ℕ → ℕ
octal_size c r = if leb 0x30 (next_char r) && leb (next_char r) 0x37 then 0xff else c

-- What a character adds to `qlen`.
abbrev pub added : ℕ → List ℕ → ℕ
added c r =
    let uc = octal_size c r in
    if c == single || c == double
    then 1
    else if is_marked c
    then 2
    else if is_unprintable c
    then (if is_named c
        then 2
        else (if ltb 0x3f uc then 1 else 0) + (if ltb 7 uc then 1 else 0) + 2)
    else 1

-- The first loop, with `sq_ok`, `dq_ok` and `qlen`.
unfoldable pub measure : List ℕ → Bool → Bool → ℕ → Bool × Bool × ℕ
measure [] sq dq qlen = (sq, dq, qlen)
measure (c ∷ r) sq dq qlen =
    let other = not (is_marked c) && is_unprintable c in
    measure r (sq && not (c == single || other)) (dq && not (c == double || other))
      (qlen + added c r)

-- What the second loop writes for a character.
abbrev pub octal : ℕ → ℕ → List ℕ
octal c uc =
    (if ltb 0x3f uc then (c / 2 ^ 6 + 0x30) ∷ [] else [])
    ++ (if ltb 7 uc then (c / 2 ^ 3 % 2 ^ 3 + 0x30) ∷ [] else [])
    ++ ((c % 2 ^ 3 + 0x30) ∷ [])

abbrev pub escaped : ℕ → List ℕ → List ℕ
escaped c r =
    if is_marked c
    then slash ∷ c ∷ []
    else if is_named c
    then slash ∷ letter c ∷ []
    else if is_unprintable c
    then slash ∷ octal c (octal_size c r)
    else c ∷ []

unfoldable pub body : List ℕ → List ℕ
body [] = []
body (c ∷ r) = escaped c r ++ body r

abbrev pub quoted : ℕ → List ℕ → List ℕ
quoted q str = q ∷ str ++ (q ∷ [])

-- A failed assertion is none.
unfoldable pub nasm_quote : List ℕ → Option (List ℕ)
unfolding measure body
nasm_quote str =
    let (sq, dq, qlen) = measure str true true 0 in
    if sq || dq
    then some (quoted (if sq then single else double) str)
    else if length (back ∷ body str ++ (back ∷ [])) == qlen + 2
    then some (quoted back (body str))
    else none

-- The loop over '...' and "...": the index of the byte that ends it.
unfoldable pub skip_plain : ℕ → List ℕ → ℕ → ℕ
skip_plain bq [] i = i
skip_plain bq (c ∷ r) i =
    let rest = skip_plain bq r (i + 1) in if c == 0 || c == bq then i else rest

-- The loop over `...`, in `st_backslash` or in `st_start`.
unfoldable pub skip_back : Bool → List ℕ → ℕ → ℕ
skip_back backslash [] i = i
skip_back false (c ∷ r) i =
    let rest = skip_back (c == slash) r (i + 1) in
    if not (c == slash) && (c == back || c == 0) then i else rest
skip_back true (c ∷ []) i = if c == 0 then i else i + 1
skip_back true (c ∷ d ∷ r) i =
    let after_caret = skip_back false r (i + 2) in
    let rest = skip_back false (d ∷ r) (i + 1) in
    if c == 0x5e then (if d == 0 then i + 1 else after_caret) else if c == 0 then i else rest

-- The index of the terminating character, or NULL.
unfoldable pub nasm_skip_string : List ℕ → Option ℕ
unfolding skip_plain skip_back
nasm_skip_string [] = none
nasm_skip_string (bq ∷ r) =
    if bq == single || bq == double
    then some (skip_plain bq r 1)
    else if bq == back
    then some (skip_back false r 1)
    else none
