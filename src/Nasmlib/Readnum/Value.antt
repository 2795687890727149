-- ===== src/Nasmlib/Readnum/Value.antt =====
-- The number that the loop of `readnum` makes of its digits.
use nasm.Prelude.{
  ℕ, ◌+◌, ◌*◌, ◌%◌, ◌<◌, ◌≡◌, ◌⊎◌, refl, true, false, not, ◌||◌, List, [], ◌∷◌, some, leb, ◌==◌,
  if◌then◌else◌, arith, All, inl, inr, sym, Bool-cases,
}
use mathlib.Core.Path.{subst}
use nasm.Word.{word}
use nasm.Nasmlib.Readnum.{read_digits, is_bad, numvalue, overflows}

-- The radices of `radix_letter`, which are also those without a letter.
abbrev pub IsRadix : ℕ → Type 0
IsRadix r = (r ≡ 2) ⊎ ((r ≡ 8) ⊎ ((r ≡ 10) ⊎ (r ≡ 16)))

-- The number, not cut to 64 bits, from `acc` on; an underscore counts for nothing.
unfoldable pub digits_value : ℕ → List ℕ → ℕ → ℕ
digits_value radix [] acc = acc
digits_value radix (c ∷ r) acc =
    if c == 0x5f then digits_value radix r acc else digits_value radix r (radix * acc + numvalue c)

-- A digit of the radix, or an underscore.
abbrev pub IsDigits : ℕ → List ℕ → Type 0
IsDigits radix = All (λ c. (c == 0x5f || not (is_bad radix c)) ≡ true)

-- One digit: the test on the limits is that of the exact number.
abbrev ExactStep : ℕ → Type 0
ExactStep radix =
    (v d : ℕ)
    → d < radix
    → ((radix * (v % word) + d) % word ≡ (radix * v + d) % word)
      × ((leb word v || overflows radix (v % word) d) ≡ leb word (radix * v + d))

binary_step : ExactStep 2
binary_step v d hd = (omega arith, ground arith)

octal_step : ExactStep 8
octal_step v d hd = (omega arith, ground arith)

decimal_step : ExactStep 10
decimal_step v d hd = (omega arith, ground arith)

hexadecimal_step : ExactStep 16
hexadecimal_step v d hd = (omega arith, ground arith)

digit_step : (radix : ℕ) → IsRadix radix → ExactStep radix
digit_step radix (inl h) = subst (λ r. ExactStep r) (sym h) binary_step
digit_step radix (inr (inl h)) = subst (λ r. ExactStep r) (sym h) octal_step
digit_step radix (inr (inr (inl h))) = subst (λ r. ExactStep r) (sym h) decimal_step
digit_step radix (inr (inr (inr h))) = subst (λ r. ExactStep r) (sym h) hexadecimal_step

good_digit : (radix c : ℕ) → is_bad radix c ≡ false → numvalue c < radix
unfolding is_bad
good_digit radix c h = ground arith

read_digits-exact :
    (radix : ℕ) (r : List ℕ) (v : ℕ)
    → IsRadix radix
    → IsDigits radix r
    → read_digits radix r (v % word) (leb word v)
      ≡ some (digits_value radix r v % word, leb word (digits_value radix r v))
unfolding read_digits digits_value
read_digits-exact radix [] v hr h = refl
read_digits-exact radix (c ∷ r) v hr (hc, h) = elim (Bool-cases (c == 0x5f)) [
  | inl e ↦ rw e (read_digits-exact radix r v hr h)
  | inr e ↦
      let good : is_bad radix c ≡ false = ground (arith, hc, e) in
      let step = digit_step radix hr v (numvalue c) (good_digit radix c good) in
      rw (e, good, step.0, step.1) (read_digits-exact radix r (radix * v + numvalue c) hr h)
]

-- On digits and underscores the loop makes of them their number modulo 2 ^ 64, and the warning is
-- due just when the number does not fit in 64 bits.
pub read_digits-value :
    (radix : ℕ) (r : List ℕ)
    → IsRadix radix
    → IsDigits radix r
    → read_digits radix r 0 false
      ≡ some (digits_value radix r 0 % word, leb word (digits_value radix r 0))
read_digits-value radix r hr h = read_digits-exact radix r 0 hr h
