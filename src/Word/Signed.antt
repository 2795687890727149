-- ===== src/Word/Signed.antt =====
-- 64-bit integers as the signed numbers that they stand for.
use nasm.Prelude.{
  ℕ, zero, suc, ◌-◌, ◌/◌, ◌%◌, ◌^◌, ◌<◌, ◌≡◌, refl, sym, ap, ◌∙◌, true, false, Bool-cases, inl, inr,
  ltb, if◌then◌else◌, arith,
}
use native.Mathlib.Nat.{mod-le, mod-eq_of_lt, div-le_self}
use nasm.Word.{word, IsWord, is_neg, magnitude, neg64, sdiv64, smod64, sar64}

-- `negsuc n` is -(n + 1).
pub data ℤ : Type 0 where
  pos : ℕ → ℤ
  negsuc : ℕ → ℤ

abbrev pub negate : ℕ → ℤ
negate zero = pos 0
negate (suc n) = negsuc n

abbrev pub abs : ℤ → ℕ
abs (pos n) = n
abs (negsuc n) = suc n

abbrev pub signed : ℕ → ℤ
signed v = if ltb v (2 ^ 63) then pos v else negsuc (word - 1 - v)

abbrev pub pattern_of : ℤ → ℕ
pattern_of (pos n) = n % word
pattern_of (negsuc n) = word - 1 - n

-- The quotient is rounded towards zero, and the remainder has the sign of the dividend.
abbrev pub quotient : ℤ → ℤ → ℤ
quotient (pos a) (pos b) = pos (a / b)
quotient (pos a) (negsuc b) = negate (a / suc b)
quotient (negsuc a) (pos b) = negate (suc a / b)
quotient (negsuc a) (negsuc b) = pos (suc a / suc b)

abbrev pub remainder : ℤ → ℤ → ℤ
remainder (pos a) b = pos (a % abs b)
remainder (negsuc a) b = negate (suc a % abs b)

-- A shift to the right is a division by a power of two, rounded down.
abbrev pub shifted : ℤ → ℕ → ℤ
shifted (pos a) n = pos (a / 2 ^ n)
shifted (negsuc a) n = negsuc (a / 2 ^ n)

signed-pos : (a : ℕ) → is_neg a ≡ false → signed a ≡ pos a
signed-pos a h = ap (λ b. if b then pos a else negsuc (word - 1 - a)) (below h)
  where
    below : is_neg a ≡ false → ltb a (2 ^ 63) ≡ true
    below h = ground (arith, h)

signed-negsuc : (a : ℕ) → is_neg a ≡ true → signed a ≡ negsuc (word - 1 - a)
signed-negsuc a h = ap (λ b. if b then pos a else negsuc (word - 1 - a)) (above h)
  where
    above : is_neg a ≡ true → ltb a (2 ^ 63) ≡ false
    above h = ground (arith, h)

neg64-negate : (q : ℕ) → q < word → neg64 q ≡ pattern_of (negate q)
neg64-negate zero h = refl
neg64-negate (suc q) h = omega (arith, h)

opposite : (a : ℕ) → IsWord a → word - a ≡ suc (word - 1 - a)
opposite a h = omega (arith, h)

quotient-lt : (a b : ℕ) → a < word → a / b < word
quotient-lt a b h = omega (arith, h, div-le_self a b)

remainder-lt : (a b : ℕ) → a < word → a % b < word
remainder-lt a b h = omega (arith, h, mod-le a b)

below : (a : ℕ) → is_neg a ≡ true → word - a < word
below a h = ground (arith, h)

pub sdiv64-quotient :
    (a b : ℕ) → IsWord a → IsWord b → sdiv64 a b ≡ pattern_of (quotient (signed a) (signed b))
sdiv64-quotient a b wa wb = elim (Bool-cases (is_neg a)) [
  | inl na ↦ elim (Bool-cases (is_neg b)) [
    | inl nb ↦
        rw (na, nb, signed-negsuc a na, signed-negsuc b nb, opposite a wa, opposite b wb) refl
    | inr nb ↦
        rw (na, nb, signed-negsuc a na, signed-pos b nb)
          (neg64-negate ((word - a) / b) (quotient-lt (word - a) b (below a na))
            ∙ ap (λ m. pattern_of (negate (m / b))) (opposite a wa))
  ]
  | inr na ↦ elim (Bool-cases (is_neg b)) [
    | inl nb ↦
        rw (na, nb, signed-pos a na, signed-negsuc b nb)
          (neg64-negate (a / (word - b)) (quotient-lt a (word - b) wa)
            ∙ ap (λ m. pattern_of (negate (a / m))) (opposite b wb))
    | inr nb ↦
        rw (na, nb, signed-pos a na, signed-pos b nb) (sym (mod-eq_of_lt (quotient-lt a b wa)))
  ]
]

-- The remainder is by the absolute value.
magnitude-abs : (b : ℕ) → IsWord b → magnitude b ≡ abs (signed b)
magnitude-abs b wb = elim (Bool-cases (is_neg b)) [
  | inl nb ↦ rw (nb, signed-negsuc b nb) (opposite b wb)
  | inr nb ↦ rw (nb, signed-pos b nb) refl
]

pub smod64-remainder :
    (a b : ℕ) → IsWord a → IsWord b → smod64 a b ≡ pattern_of (remainder (signed a) (signed b))
smod64-remainder a b wa wb = elim (Bool-cases (is_neg a)) [
  | inl na ↦
      rw (na, signed-negsuc a na)
        (neg64-negate ((word - a) % magnitude b)
            (remainder-lt (word - a) (magnitude b) (below a na))
          ∙ ap (λ m. pattern_of (negate (m % magnitude b))) (opposite a wa)
          ∙ ap (λ m. pattern_of (negate (suc (word - 1 - a) % m))) (magnitude-abs b wb))
  | inr na ↦
      rw (na, signed-pos a na)
        (ap (λ m. a % m) (magnitude-abs b wb)
          ∙ sym (mod-eq_of_lt (remainder-lt a (abs (signed b)) wa)))
]

pub sar64-shifted : (a n : ℕ) → IsWord a → sar64 a n ≡ pattern_of (shifted (signed a) n)
sar64-shifted a n wa = elim (Bool-cases (is_neg a)) [
  | inl na ↦ rw (na, signed-negsuc a na) refl
  | inr na ↦ rw (na, signed-pos a na) (sym (mod-eq_of_lt (quotient-lt a (2 ^ n) wa)))
]
