-- ===== src/Nasmlib/Numstr/Value.antt =====
-- The number of a text, for the texts of nasmlib/numstr.c.
use nasm.Prelude.{
  ℕ, zero, suc, ◌+◌, ◌-◌, ◌*◌, ◌/◌, ◌%◌, ◌^◌, ◌≤◌, ◌<◌, ◌≡◌, refl, Bool, true, false, not, ◌||◌,
  List, [], ◌∷◌, some, ltb, ◌==◌, if◌then◌else◌, arith, Bool-cases, inl, inr, ap, ◌∙◌,
}
use native.Mathlib.Nat.{div-add-mod', pow-zero, mod-lt, pow-suc, div-lt_iff_lt-mul}
use nasm.Nasmlib.Numstr.{digit_char, write_digits, numstr}

-- The digit that a character stands for.
unfoldable pub digit_of : Bool → ℕ → ℕ
digit_of ucase c =
    if c == 0x40
    then 62
    else if c == 0x5f
    then 63
    else if ltb c 0x3a
    then c - 0x30
    else if ltb c 0x5b
    then (if ucase then 10 else 36) + (c - 0x41)
    else (if ucase then 36 else 10) + (c - 0x61)

digit_of-char : (ucase : Bool) (d : ℕ) → d < 64 → digit_of ucase (digit_char ucase d) ≡ d
unfolding digit_of digit_char
digit_of-char true d h = ground arith
digit_of-char false d h = ground arith

-- The number of a text, its last digit lowest, from `acc` on.
unfoldable pub text_value : Bool → ℕ → List ℕ → ℕ → ℕ
text_value ucase base [] acc = acc
text_value ucase base (c ∷ r) acc = text_value ucase base r (acc * base + digit_of ucase c)

write_digits-value :
    (ucase : Bool) (base room digits n : ℕ) (acc : List ℕ)
    → 2 ≤ base
    → base ≤ 64
    → n < base ^ room
    → text_value ucase base (write_digits ucase base true room digits n acc) 0
      ≡ text_value ucase base acc n
unfolding write_digits text_value
write_digits-value ucase base zero digits n acc h₂ h h₀ =
    let e : 0 ≡ n = omega (arith, pow-zero base) in ap (λ n. text_value ucase base acc n) e
write_digits-value ucase base (suc room) digits n acc h₂ h hn =
    let pos : 0 < base = omega arith in
    elim (Bool-cases (ltb 0 digits || not (n == 0))) [
      | inl e ↦
          let below = (div-lt_iff_lt-mul pos).1 (rw (pow-suc base room) at hn) in
          let digit = digit_of-char ucase (n % base) (omega (arith, mod-lt n pos)) in
          rw e (
            write_digits-value ucase base room (digits - 1) (n / base)
              (digit_char ucase (n % base) ∷ acc) h₂ h below
            ∙ rw (digit, div-add-mod' n base) refl)
      | inr e ↦
          let none_left : 0 ≡ n = ground (arith, e) in
          rw e (ap (λ n. text_value ucase base acc n) none_left)
    ]

-- Where at least some number of digits is asked for, which is a count of 0 or below in the call, the text
-- to a base from 2 to 64 stands for the number, if the buffer has room for all of its digits.
pub numstr-value :
    (buflen n digits base : ℕ) (ucase : Bool)
    → 2 ≤ base
    → base ≤ 64
    → 0 < buflen
    → n < base ^ (buflen - 1)
    → (r : List ℕ) × (numstr buflen n digits true base ucase ≡ some r)
      × (text_value ucase base r 0 ≡ n)
unfolding numstr text_value
numstr-value buflen n digits base ucase h₂ h hb hn =
    let test : ((ltb base 2 || ltb 64 base) || buflen == 0) ≡ false = ground arith in
    (
      write_digits ucase base true (buflen - 1) digits n [],
      rw test refl,
      write_digits-value ucase base (buflen - 1) digits n [] h₂ h hn,
    )
