-- ===== src/Nasmlib/Readnum.antt =====
-- nasmlib/readnum.c: the number that a text stands for, with `radix_letter` and `numvalue` of
-- include/nasmlib.h.
--
-- A text is the list of its bytes before the zero. The classes of characters are those of the C
-- library, which fill `nasm_ctype_tab`. As on the targets with a signed char, a byte of 128 or more
-- is below '0'.
pub mod Value
use Prim.Native.Nat.{bit_or}
use nasm.Prelude.{
  ℕ, zero, suc, ◌+◌, ◌-◌, ◌*◌, ◌/◌, ◌%◌, ◌^◌, Bool, true, false, not, ◌&&◌, ◌||◌, List, [], ◌∷◌,
  Option, none, some, ltb, leb, ◌==◌, if◌then◌else◌, length, take, drop, get_elem?,
}
use nasm.Word.{word, neg64}

pub record Ctype : Type 0 where
  pub is_space : ℕ → Bool
  pub is_alnum : ℕ → Bool

-- The characters 'b', 'y', 'o', 'q', 'h', 'x', 'd' and 't', in both cases.
abbrev pub radix_letter : ℕ → ℕ
radix_letter c =
    if (c == 0x62 || c == 0x42) || (c == 0x79 || c == 0x59)
    then 2
    else if (c == 0x6f || c == 0x4f) || (c == 0x71 || c == 0x51)
    then 8
    else if (c == 0x68 || c == 0x48) || (c == 0x78 || c == 0x58)
    then 16
    else if (c == 0x64 || c == 0x44) || (c == 0x74 || c == 0x54)
    then 10
    else 0

unfoldable pub numvalue : ℕ → ℕ
numvalue c =
    let d = bit_or c 0x20 in if leb 0x61 d then d - 0x61 + 10 else (d + 2 ^ 32 - 0x30) % 2 ^ 32

-- The number, whether there is an error, and whether there is the warning number-overflow.
pub record Number : Type 0 where
  pub value : ℕ
  pub error : Bool
  pub warn : Bool

abbrev pub skip_space : Ctype → List ℕ → List ℕ
skip_space ct [] = []
skip_space ct (c ∷ r) = if ct.is_space c then skip_space ct r else c ∷ r

-- `lib_isnumchar`: '$' and '_' beside the letters and digits
abbrev pub is_numchar : Ctype → ℕ → Bool
is_numchar ct c = ct.is_alnum c || (c == 0x24 || c == 0x5f)

abbrev pub number_part : Ctype → List ℕ → List ℕ
number_part ct [] = []
number_part ct (c ∷ q) = if is_numchar ct c then c ∷ number_part ct q else []

abbrev char_at : List ℕ → ℕ → ℕ
char_at r i = elim (get_elem? r i) [ some c ↦ c | none ↦ 0 ]

-- `pradix` and `plen`, at the beginning, and `sradix` and `slen`, at the end.
abbrev pub prefix_radix : Bool → List ℕ → ℕ × ℕ
prefix_radix dollarhex r =
    if (ltb 2 (length r) && char_at r 0 == 0x30) && not (radix_letter (char_at r 1) == 0)
    then (radix_letter (char_at r 1), 2)
    else if (ltb 1 (length r) && char_at r 0 == 0x24) && dollarhex
    then (16, 1)
    else (0, 0)

abbrev pub suffix_radix : List ℕ → ℕ × ℕ
suffix_radix r =
    let radix = radix_letter (char_at r (length r - 1)) in
    if ltb 1 (length r) && not (radix == 0) then (radix, 1) else (0, 0)

-- The radix, and the digits that are left when its letters are taken off.
abbrev pub split_radix : Bool → List ℕ → ℕ × List ℕ
split_radix dollarhex r =
    let (pradix, plen) = prefix_radix dollarhex r in
    let (sradix, slen) = suffix_radix r in
    if ltb sradix pradix
    then (pradix, drop plen r)
    else if ltb pradix sradix
    then (sradix, take (length r - slen) r)
    else (10, r)

abbrev pub checklimit : ℕ → ℕ
checklimit radix = 2 ^ 63 / (radix / 2)

abbrev pub last_digit : ℕ → ℕ
last_digit radix = if radix == 10 then 6 else 0

-- The test on a character for which `readnum` returns 0.
unfoldable pub is_bad : ℕ → ℕ → Bool
is_bad radix c = (leb 128 c || ltb c 0x30) || ((ltb 0x39 c && ltb c 0x41) || leb radix (numvalue c))

abbrev pub overflows : ℕ → ℕ → ℕ → Bool
overflows radix result digit =
    ltb (checklimit radix) result || (result == checklimit radix && leb (last_digit radix) digit)

-- The loop over the digits, from `result` and `warn` on.
unfoldable pub read_digits : ℕ → List ℕ → ℕ → Bool → Option (ℕ × Bool)
read_digits radix [] result warn = some (result, warn)
read_digits radix (c ∷ r) result warn =
    if c == 0x5f
    then read_digits radix r result warn
    else if is_bad radix c
    then none
    else read_digits radix r ((radix * result + numvalue c) % word)
        (warn || overflows radix result (numvalue c))

-- `*r == '-'`: whether the sign is -1, and the rest.
abbrev pub sign_part : List ℕ → Bool × List ℕ
sign_part [] = (false, [])
sign_part (c ∷ r) = if c == 0x2d then (true, r) else (false, c ∷ r)

abbrev pub failed : Number
failed = record { value = 0; error = true; warn = false }

-- `result * sign`
abbrev pub signed_number : Bool → Option (ℕ × Bool) → Number
signed_number negative none = failed
signed_number negative (some (result, warn)) = record {
  value = if negative then neg64 result else result;
  error = false;
  warn = warn;
}

unfoldable pub readnum : Ctype → Bool → List ℕ → Number
readnum ct dollarhex str =
    let (negative, rest) = sign_part (skip_space ct str) in
    let r = number_part ct rest in
    if length r == 0
    then failed
    else let (radix, digits) = split_radix dollarhex r in
      signed_number negative (read_digits radix digits 0 false)
