-- ===== src/Word.antt =====
-- C's 64-bit integers as their bit patterns, numbers below 2 ^ 64. The build asks for wrapping
-- arithmetic (`-fwrapv` in configure.ac), so `+`, `-` and `*` on int64_t are those of uint64_t.
pub mod Bits
pub mod Signed
use nasm.Prelude.{ℕ, ◌+◌, ◌-◌, ◌*◌, ◌/◌, ◌%◌, ◌^◌, ◌<◌, Bool, true, false, leb, if◌then◌else◌}

abbrev pub word : ℕ
word = 2 ^ 64

abbrev pub IsWord : ℕ → Type 0
IsWord v = v < 2 ^ 64

abbrev pub add64 : ℕ → ℕ → ℕ
add64 a b = (a + b) % word

abbrev pub mul64 : ℕ → ℕ → ℕ
mul64 a b = a * b % word

abbrev pub neg64 : ℕ → ℕ
neg64 a = (word - a) % word

-- `~a`
abbrev pub not64 : ℕ → ℕ
not64 a = word - 1 - a

-- `-1`
abbrev pub minus_one : ℕ
minus_one = word - 1

-- `a < 0` of an int64_t
abbrev pub is_neg : ℕ → Bool
is_neg a = leb (2 ^ 63) a

abbrev pub magnitude : ℕ → ℕ
magnitude a = if is_neg a then word - a else a

-- `a / b` and `a % b` of an int64_t, which round towards zero. The callers exclude `b == 0`.
abbrev pub sdiv64 : ℕ → ℕ → ℕ
sdiv64 a b =
    let q = magnitude a / magnitude b in
    if is_neg a then (if is_neg b then q % word else neg64 q) else if is_neg b then neg64 q else q

abbrev pub smod64 : ℕ → ℕ → ℕ
smod64 a b = let r = magnitude a % magnitude b in if is_neg a then neg64 r else r

-- `a << n` and `a >> n` of a uint64_t, and `a >> n` of an int64_t, for n < 64
abbrev pub shl64 : ℕ → ℕ → ℕ
shl64 a n = a * 2 ^ n % word

abbrev pub shr64 : ℕ → ℕ → ℕ
shr64 a n = a / 2 ^ n

abbrev pub sar64 : ℕ → ℕ → ℕ
sar64 a n = if is_neg a then not64 (not64 a / 2 ^ n) else a / 2 ^ n

-- A truth value of C as an int64_t.
abbrev pub of_bool : Bool → ℕ
of_bool true = 1
of_bool false = 0
