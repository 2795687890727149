-- ===== src/Nasmlib/Crc.antt =====
-- nasmlib/crc64.c and nasmlib/crc32b.c: the cyclic redundancy checks of the hash tables and of
-- .gnu_debuglink. `tolower` is that of the C library, which fills `nasm_tolower_tab`.
pub mod Tables
pub mod Polynomial
pub mod Strings
use Prim.Native.Nat.{bit_xor}
use nasm.Prelude.{
  ℕ, ◌+◌, ◌/◌, ◌%◌, ◌^◌, Bool, List, [], ◌∷◌, Option, none, some, get_elem?, if◌then◌else◌, ◌==◌,
}
use nasm.Nasmlib.Crc.Tables.{crc64_tab, crc32_tab}

-- `tab[i]`, for an index that a `uint8_t` can hold
unfoldable pub entry : List ℕ → ℕ → ℕ
entry tab i = elim (get_elem? tab i) [ some x ↦ x | none ↦ 0 ]

abbrev pub crc64_byte : ℕ → ℕ → ℕ
crc64_byte crc v = bit_xor (entry crc64_tab (bit_xor v crc % 2 ^ 8)) (crc / 2 ^ 8)

-- Up to the byte zero that ends the string.
abbrev pub crc64 : ℕ → List ℕ → ℕ
crc64 crc [] = crc
crc64 crc (c ∷ str) = if c == 0 then crc else crc64 (crc64_byte crc c) str

abbrev pub crc64i : (ℕ → ℕ) → ℕ → List ℕ → ℕ
crc64i tolower crc [] = crc
crc64i tolower crc (c ∷ str) =
    if c == 0 then crc else crc64i tolower (crc64_byte crc (tolower c)) str

-- The number of bytes is the length of the list.
abbrev pub crc64b : ℕ → List ℕ → ℕ
crc64b crc [] = crc
crc64b crc (c ∷ str) = crc64b (crc64_byte crc c) str

abbrev pub crc64ib : (ℕ → ℕ) → ℕ → List ℕ → ℕ
crc64ib tolower crc [] = crc
crc64ib tolower crc (c ∷ str) = crc64ib tolower (crc64_byte crc (tolower c)) str

abbrev pub crc32b_byte : ℕ → ℕ → ℕ
crc32b_byte hashval p = bit_xor (hashval / 2 ^ 8) (entry crc32_tab (bit_xor hashval p % 2 ^ 8))

abbrev pub crc32b : ℕ → List ℕ → ℕ
crc32b crc [] = crc
crc32b crc (p ∷ data_) = crc32b (crc32b_byte crc p) data_
