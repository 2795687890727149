-- ===== src/Nasmlib/Saa/Values.antt =====
-- nasmlib/saa.c: the bytes of numbers and of strings.
use nasm.Prelude.{
  ℕ, zero, suc, ◌+◌, ◌-◌, ◌*◌, ◌/◌, ◌%◌, ◌^◌, List, [], ◌∷◌, ◌++◌, Option, ◌==◌, if◌then◌else◌,
  length,
}
use nasm.Word.{sar64}
use nasm.Nasmlib.Saa.{Saa, saa_wbytes}

-- The bytes of an unsigned and of a signed value in LEB128, of `n` bytes at most.
unfoldable pub leb128u : ℕ → ℕ → List ℕ
leb128u zero value = []
leb128u (suc n) value =
    let rest = leb128u n (value / 2 ^ 7) in
    if value / 2 ^ 7 == 0 then value % 2 ^ 7 ∷ [] else (value % 2 ^ 7 + 0x80) ∷ rest

unfoldable pub leb128s : ℕ → ℕ → ℕ → List ℕ
leb128s zero sign value = []
leb128s (suc n) sign value =
    let rest = leb128s n sign (sar64 value 7) in
    if sar64 value 6 == sign then value % 2 ^ 7 ∷ [] else (value % 2 ^ 7 + 0x80) ∷ rest

abbrev pub nth : List ℕ → ℕ → ℕ
nth [] i = 0
nth (b ∷ r) i = if i == 0 then b else nth r (i - 1)

abbrev pub wlist : Saa → List ℕ → Option Saa
wlist s bytes = saa_wbytes s (nth bytes) (length bytes)

-- The buffer has 16 bytes.
unfoldable pub saa_wleb128u : Saa → ℕ → Option Saa
unfolding saa_wbytes leb128u
saa_wleb128u s value = wlist s (leb128u 16 value)

unfoldable pub saa_wleb128s : Saa → ℕ → Option Saa
unfolding saa_wbytes leb128s
saa_wleb128s s value = wlist s (leb128s 16 (sar64 value 63) value)

unfoldable pub saa_write8 : Saa → ℕ → Option Saa
unfolding saa_wbytes
saa_write8 s v = wlist s (v % 2 ^ 8 ∷ [])

-- The bytes of a value from the lowest, as `htole64` leaves them in memory.
abbrev pub little : ℕ → ℕ → ℕ
little v i = v / 2 ^ (8 * i) % 2 ^ 8

unfoldable pub saa_writeaddr : Saa → ℕ → ℕ → Option Saa
unfolding saa_wbytes
saa_writeaddr s v len = saa_wbytes s (little v) len

unfoldable pub saa_write16 : Saa → ℕ → Option Saa
unfolding saa_wbytes
saa_write16 s v = saa_wbytes s (little v) 2

unfoldable pub saa_write32 : Saa → ℕ → Option Saa
unfolding saa_wbytes
saa_write32 s v = saa_wbytes s (little v) 4

unfoldable pub saa_write64 : Saa → ℕ → Option Saa
unfolding saa_wbytes
saa_write64 s v = saa_wbytes s (little v) 8

-- A string without its null; the count is the length with it.
unfoldable pub saa_wcstring : Saa → List ℕ → ℕ × Option Saa
unfolding saa_wbytes
saa_wcstring s str = (length str + 1, wlist s (str ++ (0 ∷ [])))
