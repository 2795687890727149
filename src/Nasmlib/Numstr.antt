-- ===== src/Nasmlib/Numstr.antt =====
-- nasmlib/numstr.c: the text of a number to a base of 2 to 64.
--
-- The buffer is filled from its end, and what was written is then moved to its beginning: here it is
-- the list of the characters, without the zero at the end.
pub mod Value
pub mod RoundTrip
use nasm.Prelude.{
  ℕ, zero, suc, ◌+◌, ◌-◌, ◌*◌, ◌/◌, ◌%◌, ◌^◌, Bool, true, false, not, ◌&&◌, ◌||◌, List, [], ◌∷◌,
  Option, none, some, ltb, leb, ◌==◌, if◌then◌else◌, length,
}

-- `nasmlib_digit_chars[ucase][d]` for d < 64: the digits, then the letters, those of the case first,
-- then '@' and '_'.
unfoldable pub digit_char : Bool → ℕ → ℕ
digit_char ucase d =
    if ltb d 10
    then 0x30 + d
    else if ltb d 36
    then (if ucase then 0x41 else 0x61) + (d - 10)
    else if ltb d 62
    then (if ucase then 0x61 else 0x41) + (d - 36)
    else if d == 62
    then 0x40
    else 0x5f

-- The loop. `room` is `p - buf`, and `acc` what has been written from `p` on.
unfoldable pub write_digits : Bool → ℕ → Bool → ℕ → ℕ → ℕ → List ℕ → List ℕ
write_digits ucase base moredigits zero digits n acc = acc
write_digits ucase base moredigits (suc room) digits n acc =
    if ltb 0 digits || (moredigits && not (n == 0))
    then write_digits ucase base moredigits room (digits - 1) (n / base)
        (digit_char ucase (n % base) ∷ acc)
    else acc

-- The number of digits is at least `digits`, and just that unless `moredigits`, which stands for a
-- number of digits that is not positive in the call. None stands for the result -1.
unfoldable pub numstr : ℕ → ℕ → ℕ → Bool → ℕ → Bool → Option (List ℕ)
numstr buflen n digits moredigits base ucase =
    if (ltb base 2 || ltb 64 base) || buflen == 0
    then none
    else some (write_digits ucase base moredigits (buflen - 1) digits n [])
