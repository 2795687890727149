-- ===== src/Nasmlib/Saa/Leb128.antt =====
-- The LEB128 bytes of nasmlib/saa.c, read back as the DWARF standard says.
use nasm.Prelude.{
  ℕ, zero, suc, ◌+◌, ◌-◌, ◌*◌, ◌/◌, ◌%◌, ◌^◌, ◌<◌, ◌≡◌, refl, ap, ◌∙◌, true, false, List, [], ◌∷◌,
  ◌++◌, Option, none, some, ltb, ◌==◌, if◌then◌else◌, arith, Bool-cases, inl, inr,
}
use mathlib.Core.Path.{subst}
use native.Mathlib.Nat.{pow-suc}
use nasm.Word.{word, IsWord, sar64, not64, is_neg}
use nasm.Nasmlib.Saa.Values.{leb128u, leb128s}

abbrev map_value : (ℕ → ℕ) → Option (ℕ × List ℕ) → Option (ℕ × List ℕ)
map_value f none = none
map_value f (some (v, r)) = some (f v, r)

-- Groups of seven bits, the lowest first, up to a byte below 128; and what follows.
unfoldable pub read_leb128u : List ℕ → Option (ℕ × List ℕ)
read_leb128u [] = none
read_leb128u (b ∷ r) =
    if ltb b 0x80 then some (b, r) else map_value (λ v. b - 0x80 + 0x80 * v) (read_leb128u r)

-- The same, with bit 6 of the last byte for all higher bits, in 64 bits.
unfoldable pub read_leb128s : List ℕ → Option (ℕ × List ℕ)
read_leb128s [] = none
read_leb128s (b ∷ r) =
    if ltb b 0x80
    then some (if ltb b 0x40 then b else b + (word - 0x80), r)
    else map_value (λ v. (b - 0x80 + 0x80 * v) % word) (read_leb128s r)

one_group : (n v : ℕ) → v < 128 ^ suc (suc n) → v / 128 < 128 ^ suc n
one_group n v h = omega (arith, h, pow-suc 128 (suc n))

leb128u-last : (n v : ℕ) → (v / 2 ^ 7 == 0) ≡ true → leb128u (suc n) v ≡ v % 2 ^ 7 ∷ []
unfolding leb128u
leb128u-last n v e = rw (e) refl

leb128u-more :
    (n v : ℕ)
    → (v / 2 ^ 7 == 0) ≡ false
    → leb128u (suc n) v ≡ (v % 2 ^ 7 + 0x80) ∷ leb128u n (v / 2 ^ 7)
unfolding leb128u
leb128u-more n v e = rw (e) refl

read_leb128u-last : (b : ℕ) (r : List ℕ) → ltb b 0x80 ≡ true → read_leb128u (b ∷ r) ≡ some (b, r)
unfolding read_leb128u
read_leb128u-last b r e = rw (e) refl

read_leb128u-more :
    (b : ℕ) (r : List ℕ)
    → ltb b 0x80 ≡ false
    → read_leb128u (b ∷ r) ≡ map_value (λ v. b - 0x80 + 0x80 * v) (read_leb128u r)
unfolding read_leb128u
read_leb128u-more b r e = rw (e) refl

-- A round that goes on, when the rounds after it are read back.
leb128u_round :
    (n v : ℕ) (rest : List ℕ)
    → (v / 2 ^ 7 == 0) ≡ false
    → read_leb128u (leb128u n (v / 2 ^ 7) ++ rest) ≡ some (v / 2 ^ 7, rest)
    → read_leb128u (leb128u (suc n) v ++ rest) ≡ some (v, rest)
leb128u_round n v rest e next =
    ap (λ l. read_leb128u (l ++ rest)) (leb128u-more n v e)
    ∙ read_leb128u-more (v % 2 ^ 7 + 0x80) (leb128u n (v / 2 ^ 7) ++ rest) (ground arith)
    ∙ ap (map_value (λ w. v % 2 ^ 7 + 0x80 - 0x80 + 0x80 * w)) next
    ∙ ap (λ w. some (w, rest)) (omega arith)

leb128u_end :
    (n v : ℕ) (rest : List ℕ)
    → (v / 2 ^ 7 == 0) ≡ true
    → read_leb128u (leb128u (suc n) v ++ rest) ≡ some (v, rest)
leb128u_end n v rest e =
    ap (λ l. read_leb128u (l ++ rest)) (leb128u-last n v e)
    ∙ read_leb128u-last (v % 2 ^ 7) rest (ground arith)
    ∙ ap (λ w. some (w, rest)) (ground arith)

leb128u_read :
    (n v : ℕ) (rest : List ℕ)
    → v < 128 ^ suc n
    → read_leb128u (leb128u (suc n) v ++ rest) ≡ some (v, rest)
leb128u_read zero v rest h = leb128u_end 0 v rest (ground arith)
leb128u_read (suc n) v rest h = elim (Bool-cases (v / 2 ^ 7 == 0)) [
  | inl e ↦ leb128u_end (suc n) v rest e
  | inr e ↦ leb128u_round (suc n) v rest e (leb128u_read n (v / 2 ^ 7) rest (one_group n v h))
]

leb128s-last : (n sign v : ℕ) → (sar64 v 6 == sign) ≡ true → leb128s (suc n) sign v ≡ v % 2 ^ 7 ∷ []
unfolding leb128s
leb128s-last n sign v e = rw (e) refl

leb128s-more :
    (n sign v : ℕ)
    → (sar64 v 6 == sign) ≡ false
    → leb128s (suc n) sign v ≡ (v % 2 ^ 7 + 0x80) ∷ leb128s n sign (sar64 v 7)
unfolding leb128s
leb128s-more n sign v e = rw (e) refl

read_leb128s-last :
    (b : ℕ) (r : List ℕ)
    → ltb b 0x80 ≡ true
    → read_leb128s (b ∷ r) ≡ some (if ltb b 0x40 then b else b + (word - 0x80), r)
unfolding read_leb128s
read_leb128s-last b r e = rw (e) refl

read_leb128s-more :
    (b : ℕ) (r : List ℕ)
    → ltb b 0x80 ≡ false
    → read_leb128s (b ∷ r) ≡ map_value (λ v. (b - 0x80 + 0x80 * v) % word) (read_leb128s r)
unfolding read_leb128s
read_leb128s-more b r e = rw (e) refl

-- How far a signed value is from 0 or from -1.
abbrev extent : ℕ → ℕ
extent v = if is_neg v then not64 v else v

sar64-sign : (v : ℕ) → IsWord v → sar64 (sar64 v 7) 63 ≡ sar64 v 63
sar64-sign v h = ground arith

sar64-extent : (v : ℕ) → IsWord v → extent (sar64 v 7) ≡ extent v / 128
sar64-extent v h = ground arith

sar64-IsWord : (v : ℕ) → IsWord v → IsWord (sar64 v 7)
sar64-IsWord v h = ground arith

less_extent : (n v : ℕ) → IsWord v → extent v < 64 * 128 ^ suc n → extent (sar64 v 7) < 64 * 128 ^ n
less_extent n v h hv = rw (sar64-extent v h) omega (arith, hv, pow-suc 128 n)

leb128s_round :
    (n sign v : ℕ) (rest : List ℕ)
    → IsWord v
    → (sar64 v 6 == sign) ≡ false
    → read_leb128s (leb128s n sign (sar64 v 7) ++ rest) ≡ some (sar64 v 7, rest)
    → read_leb128s (leb128s (suc n) sign v ++ rest) ≡ some (v, rest)
leb128s_round n sign v rest h e next =
    ap (λ l. read_leb128s (l ++ rest)) (leb128s-more n sign v e)
    ∙ read_leb128s-more (v % 2 ^ 7 + 0x80) (leb128s n sign (sar64 v 7) ++ rest) (ground arith)
    ∙ ap (map_value (λ w. (v % 2 ^ 7 + 0x80 - 0x80 + 0x80 * w) % word)) next
    ∙ ap (λ w. some (w, rest)) (ground arith)

leb128s_end :
    (n v : ℕ) (rest : List ℕ)
    → IsWord v
    → (sar64 v 6 == sar64 v 63) ≡ true
    → read_leb128s (leb128s (suc n) (sar64 v 63) v ++ rest) ≡ some (v, rest)
leb128s_end n v rest h e =
    ap (λ l. read_leb128s (l ++ rest)) (leb128s-last n (sar64 v 63) v e)
    ∙ read_leb128s-last (v % 2 ^ 7) rest (ground arith)
    ∙ ap (λ w. some (w, rest)) (ground arith)

leb128s_read :
    (n v : ℕ) (rest : List ℕ)
    → IsWord v
    → extent v < 64 * 128 ^ n
    → read_leb128s (leb128s (suc n) (sar64 v 63) v ++ rest) ≡ some (v, rest)
leb128s_read zero v rest h hv = leb128s_end 0 v rest h (ground arith)
leb128s_read (suc n) v rest h hv = elim (Bool-cases (sar64 v 6 == sar64 v 63)) [
  | inl e ↦ leb128s_end (suc n) v rest h e
  | inr e ↦
      let next = leb128s_read n (sar64 v 7) rest (sar64-IsWord v h) (less_extent n v h hv) in
      leb128s_round (suc n) (sar64 v 63) v rest h e (
        subst (λ k. read_leb128s (leb128s (suc n) k (sar64 v 7) ++ rest) ≡ some (sar64 v 7, rest))
          (sar64-sign v h) next)
]

-- The bytes that are written for a 64-bit value, with any bytes after them, are read back as that
-- value and those bytes: the 16 bytes of the buffer are enough.
pub leb128u-read_leb128u :
    (v : ℕ) (rest : List ℕ) → IsWord v → read_leb128u (leb128u 16 v ++ rest) ≡ some (v, rest)
leb128u-read_leb128u v rest h = leb128u_read 15 v rest (omega arith)

-- The same of a signed value.
pub leb128s-read_leb128s :
    (v : ℕ) (rest : List ℕ)
    → IsWord v
    → read_leb128s (leb128s 16 (sar64 v 63) v ++ rest) ≡ some (v, rest)
leb128s-read_leb128s v rest h = leb128s_read 15 v rest h (ground arith)
