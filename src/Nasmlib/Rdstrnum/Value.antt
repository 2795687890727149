-- ===== src/Nasmlib/Rdstrnum/Value.antt =====
-- The number that `readstrnum` makes of a string.
use nasm.Prelude.{
  ℕ, zero, suc, ◌+◌, ◌*◌, ◌%◌, ◌^◌, ◌≤◌, ◌<◌, ◌≡◌, refl, true, false, List, [], ◌∷◌, ltb, length,
  take, arith, Bool-cases, inl, inr, ap, ◌∙◌, two_pow_add,
}
use native.Mathlib.Nat.{pow-le-pow_right, mul-le-mul_right}
use nasm.Word.{word, add64, shl64}
use nasm.Nasmlib.Rdstrnum.{readstrnum, readstrnum_loop}

-- The bytes as the digits of a number to base 256, the lowest one first.
unfoldable pub little_endian : List ℕ → ℕ
little_endian [] = 0
little_endian (c ∷ str) = c % 2 ^ 8 + 2 ^ 8 * little_endian str

byte_fits :
    (P Q acc b : ℕ)
    → Q ≡ P * 2 ^ 8
    → Q ≤ 2 ^ 64
    → b < 2 ^ 8
    → acc < P
    → ((acc + b * P % word) % word ≡ acc + b * P) × (acc + b * P < Q)
byte_fits P Q acc b e room hb ha =
    let below : suc b * P ≤ 2 ^ 8 * P = mul-le-mul_right P hb in (omega arith, omega arith)

next_power : (i : ℕ) → 2 ^ ((i + 1) * 8) ≡ 2 ^ (i * 8) * 2 ^ 8
next_power i =
    let e : (i + 1) * 8 ≡ i * 8 + 8 = omega arith in ap (λ t. 2 ^ t) e ∙ two_pow_add (i * 8) 8

regroup : (acc b l P Q : ℕ) → Q ≡ P * 2 ^ 8 → acc + b * P + l * Q ≡ acc + (b + 2 ^ 8 * l) * P
regroup acc b l P Q e = rw e (grind arith)

shift_byte :
    (i acc c : ℕ)
    → i < 8
    → acc < 2 ^ (i * 8)
    → (add64 acc (shl64 (c % 2 ^ 8) (i * 8)) ≡ acc + c % 2 ^ 8 * 2 ^ (i * 8))
      × (acc + c % 2 ^ 8 * 2 ^ (i * 8) < 2 ^ ((i + 1) * 8))
shift_byte i acc c hi ha =
    let room : 2 ^ ((i + 1) * 8) ≤ 2 ^ 64 =
      pow-le-pow_right (omega arith) {i = (i + 1) * 8} {j = 64} (omega arith) in
    byte_fits (2 ^ (i * 8)) (2 ^ ((i + 1) * 8)) acc (c % 2 ^ 8) (next_power i) room (omega arith) ha

readstrnum_loop-value :
    (i acc : ℕ) (str : List ℕ)
    → i + length str ≤ 8
    → acc < 2 ^ (i * 8)
    → readstrnum_loop i acc str ≡ acc + little_endian str * 2 ^ (i * 8)
unfolding readstrnum_loop little_endian
readstrnum_loop-value i acc [] hi ha = omega arith
readstrnum_loop-value i acc (c ∷ str) hi ha =
    let (e, lt) = shift_byte i acc c (omega arith) ha in
    let tail = readstrnum_loop-value (i + 1) (acc + c % 2 ^ 8 * 2 ^ (i * 8)) str (omega arith) lt in
    rw e (tail ∙ regroup acc (c % 2 ^ 8) (little_endian str) (2 ^ (i * 8)) _ (next_power i))

length-take_8 : (str : List ℕ) → length (take 8 str) ≤ 8
length-take_8 str = ground arith

whole : (str : List ℕ) → length str ≤ 8 → readstrnum_loop 0 0 str ≡ little_endian str
whole str h = readstrnum_loop-value 0 0 str (omega arith) (omega arith) ∙ omega arith

take_all : (n : ℕ) (str : List ℕ) → length str ≤ n → str ≡ take n str
take_all zero [] h = refl
take_all (suc n) [] h = refl
take_all zero (c ∷ str) h = absurd (omega arith)
take_all (suc n) (c ∷ str) h = ap (λ r. c ∷ r) (take_all n str (omega arith))

-- The number is that of the first eight bytes, the first one lowest, and the warning is due just
-- when there are more.
readstrnum-value :
    (str : List ℕ) → readstrnum str ≡ (little_endian (take 8 str), ltb 8 (length str))
unfolding readstrnum
readstrnum-value str = elim (Bool-cases (ltb 8 (length str))) [
  | inl e ↦ rw e (ap (λ v. (v, true)) (whole (take 8 str) (length-take_8 str)))
  | inr e ↦ rw e (
      ap (λ v. (v, false))
        (whole str (ground (arith, e)) ∙ ap little_endian (take_all 8 str (ground (arith, e)))))
]
