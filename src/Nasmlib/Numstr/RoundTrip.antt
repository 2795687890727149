-- ===== src/Nasmlib/Numstr/RoundTrip.antt =====
-- The digits of nasmlib/numstr.c in the loop of nasmlib/readnum.c.
use nasm.Prelude.{
  ℕ, zero, suc, ◌-◌, ◌/◌, ◌%◌, ◌^◌, ◌≤◌, ◌<◌, ◌≡◌, refl, Bool, true, false, not, ◌||◌, List, [],
  ◌∷◌, some, ltb, leb, ◌==◌, arith, Bool-cases, inl, inr, ap, ◌∙◌,
}
use native.Mathlib.Nat.{div-add-mod, mod-lt, pow-suc, pow-zero, div-lt_iff_lt-mul}
use nasm.Prelude.Below.{agrees, agrees-below}
use nasm.Word.{word}
use nasm.Nasmlib.Readnum.{read_digits, is_bad, numvalue}
use nasm.Nasmlib.Readnum.Value.{digits_value, IsDigits, IsRadix, read_digits-value}
use nasm.Nasmlib.Numstr.{digit_char, write_digits}

numvalue-char : (ucase : Bool) (d : ℕ) → d < 16 → numvalue (digit_char ucase d) ≡ d
unfolding agrees numvalue digit_char
numvalue-char true d h = agrees-below (λ d. numvalue (digit_char true d)) (λ d. d) 16 d refl h
numvalue-char false d h = agrees-below (λ d. numvalue (digit_char false d)) (λ d. d) 16 d refl h

char-good :
    (ucase : Bool) (radix d : ℕ)
    → radix ≤ 16
    → d < radix
    → ((digit_char ucase d == 0x5f) ≡ false) × (is_bad radix (digit_char ucase d) ≡ false)
unfolding is_bad digit_char
char-good ucase radix d hr h =
    let value = numvalue-char ucase d (omega arith) in ground (arith, value)

write_digits-IsDigits :
    (ucase : Bool) (radix room digits n : ℕ) (acc : List ℕ)
    → 0 < radix
    → radix ≤ 16
    → IsDigits radix acc
    → IsDigits radix (write_digits ucase radix true room digits n acc)
unfolding write_digits
write_digits-IsDigits ucase radix zero digits n acc pos hr h = h
write_digits-IsDigits ucase radix (suc room) digits n acc pos hr h =
    let good = char-good ucase radix (n % radix) hr (mod-lt n pos) in
    let rest =
      write_digits-IsDigits ucase radix room (digits - 1) (n / radix)
        (digit_char ucase (n % radix) ∷ acc) pos hr (rw (good.0, good.1) refl, h) in
    elim (Bool-cases (ltb 0 digits || not (n == 0))) [ inl e ↦ rw e rest | inr e ↦ rw e h ]

digits_value-write_digits :
    (ucase : Bool) (radix room digits n : ℕ) (acc : List ℕ)
    → 0 < radix
    → radix ≤ 16
    → n < radix ^ room
    → digits_value radix (write_digits ucase radix true room digits n acc) 0
      ≡ digits_value radix acc n
unfolding write_digits digits_value
digits_value-write_digits ucase radix zero digits n acc pos hr h₀ =
    let e : 0 ≡ n = omega (arith, pow-zero radix) in ap (λ n. digits_value radix acc n) e
digits_value-write_digits ucase radix (suc room) digits n acc pos hr hn =
    elim (Bool-cases (ltb 0 digits || not (n == 0))) [
      | inl e ↦
          let below = (div-lt_iff_lt-mul pos).1 (rw (pow-suc radix room) at hn) in
          let lt = mod-lt n pos in
          let good = char-good ucase radix (n % radix) hr lt in
          let value = numvalue-char ucase (n % radix) (omega arith) in
          rw e (
            digits_value-write_digits ucase radix room (digits - 1) (n / radix)
              (digit_char ucase (n % radix) ∷ acc) pos hr below
            ∙ rw (good.0, value, div-add-mod n radix) refl)
      | inr e ↦
          let none_left : 0 ≡ n = ground (arith, e) in
          rw e (ap (λ n. digits_value radix acc n) none_left)
    ]

radix-bounds : (radix : ℕ) → IsRadix radix → (0 < radix) × (radix ≤ 16)
radix-bounds radix h = ground arith

-- Where at least some number of digits is asked for, which is a count of 0 or below in the call, the
-- digits that `numstr` writes of a 64-bit number, in a radix that `readnum` knows, are read back as the
-- number and without a warning, if the buffer has room for all of them.
pub read_digits-write_digits :
    (ucase : Bool) (radix room digits n : ℕ)
    → IsRadix radix
    → n < radix ^ room
    → n < 2 ^ 64
    → read_digits radix (write_digits ucase radix true room digits n []) 0 false ≡ some (n, false)
unfolding digits_value
read_digits-write_digits ucase radix room digits n hr hn h =
    let (pos, le) = radix-bounds radix hr in
    let value = digits_value-write_digits ucase radix room digits n [] pos le hn in
    let small : n % word ≡ n = omega arith in
    let fits : leb word n ≡ false = ground arith in
    read_digits-value radix (write_digits ucase radix true room digits n []) hr
      (write_digits-IsDigits ucase radix room digits n [] pos le tt)
    ∙ rw (value, small, fits) refl
