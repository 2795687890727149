-- ===== src/Nasmlib/Crc/Strings.antt =====
-- The checks of strings, and of strings in lower case.
use nasm.Prelude.{ℕ, ◌≡◌, ◌≢◌, refl, List, [], ◌∷◌, ◌++◌, map, All, arith}
use nasm.Nasmlib.Crc.{crc64, crc64i, crc64b, crc64ib, crc64_byte}

-- The check of a string is that of its bytes before the first zero, whatever follows; and without
-- regard to case, that of the bytes in lower case.
crc64i-bytes :
    (tolower : ℕ → ℕ) (crc : ℕ) (xs rest : List ℕ)
    → All (λ x. x ≢ 0) xs
    → (crc64 crc (xs ++ 0 ∷ rest) ≡ crc64b crc xs)
      × (crc64i tolower crc (xs ++ 0 ∷ rest) ≡ crc64ib tolower crc xs)
      × (crc64ib tolower crc xs ≡ crc64b crc (map tolower xs))
crc64i-bytes tolower crc [] rest h = (refl, refl, refl)
crc64i-bytes tolower crc (x ∷ xs) rest h = ground (
  arith,
  crc64i-bytes tolower (crc64_byte crc x) xs rest h.1,
  crc64i-bytes tolower (crc64_byte crc (tolower x)) xs rest h.1,
)
