-- ===== src/Nasmlib/Crc/Polynomial.antt =====
-- The tables of nasmlib/crc64.c and nasmlib/crc32b.c against the polynomials of the checks.
use Prim.Native.Nat.{bit_xor}
use nasm.Prelude.{ℕ, zero, suc, ◌/◌, ◌%◌, ◌<◌, ◌≡◌, refl, ◌==◌, if◌then◌else◌}
use nasm.Prelude.Below.{agrees, agrees-below}
use nasm.Nasmlib.Crc.{entry}
use nasm.Nasmlib.Crc.Tables.{crc64_tab, crc32_tab}

-- Eight steps of a shift register with feedback, from the lowest bit on.
abbrev pub feedback : ℕ → ℕ → ℕ
feedback poly r = if r % 2 == 1 then bit_xor (r / 2) poly else r / 2

abbrev pub remainder : ℕ → ℕ → ℕ → ℕ
remainder poly zero r = r
remainder poly (suc n) r = remainder poly n (feedback poly r)

-- Every entry of `crc64_tab` is the remainder of its index by 0x95ac9329ac4bc9b5.
pub crc64_tab-remainder :
    (i : ℕ) → i < 256 → entry crc64_tab i ≡ remainder 0x95ac_9329_ac4b_c9b5 8 i
unfolding agrees entry
crc64_tab-remainder i hi =
    agrees-below (entry crc64_tab) (remainder 0x95ac_9329_ac4b_c9b5 8) 256 i refl hi

-- Every entry of `crc32_tab` is the remainder of its index by 0xedb88320.
crc32_tab-remainder : (i : ℕ) → i < 256 → entry crc32_tab i ≡ remainder 0xedb8_8320 8 i
unfolding agrees entry
crc32_tab-remainder i hi = agrees-below (entry crc32_tab) (remainder 0xedb8_8320 8) 256 i refl hi
