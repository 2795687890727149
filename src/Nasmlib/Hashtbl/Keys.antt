-- ===== src/Nasmlib/Hashtbl/Keys.antt =====
-- The two comparisons of keys of nasmlib/hashtbl.c, with their checksums.
use nasm.Prelude.{ℕ, ◌≡◌, refl, sym, ap, ◌∙◌, Bool, true, ◌&&◌, List, [], ◌∷◌, ◌==◌, arith, map}
use nasm.Nasmlib.Crc.{crc64b, crc64ib, crc64_byte}
use nasm.Nasmlib.Hashtbl.{same_key, same_key_i, crc64_init}

-- What a search wants of its comparison: an equivalence, which the checksum respects.
pub record IsKeyed (calc : List ℕ → ℕ) (same : List ℕ → List ℕ → Bool) : Type 0 where
  pub same_refl : (k : List ℕ) → same k k ≡ true
  pub same_symm : (k l : List ℕ) → same k l ≡ true → same l k ≡ true
  pub same_trans : (k l m : List ℕ) → same k l ≡ true → same l m ≡ true → same k m ≡ true
  pub calc-same : (k l : List ℕ) → same k l ≡ true → calc k ≡ calc l

both_true : (a b : Bool) → (a && b) ≡ true → (a ≡ true) × (b ≡ true)
both_true a b h = (ground arith, ground arith)

pub same_key_refl : (k : List ℕ) → same_key k k ≡ true
same_key_refl [] = refl
same_key_refl (c ∷ r) = ground (arith, same_key_refl r)

pub same_key→≡ : (k l : List ℕ) → same_key k l ≡ true → k ≡ l
same_key→≡ [] [] h = refl
same_key→≡ [] (c ∷ r) h = absurd (ground (arith, h))
same_key→≡ (c ∷ r) [] h = absurd (ground (arith, h))
same_key→≡ (c ∷ r) (c' ∷ r') h =
    let (e, e') = both_true (c == c') (same_key r r') h in
    let d : c ≡ c' = ground (arith, e) in ap (λ x. x ∷ r) d ∙ ap (λ l. c' ∷ l) (same_key→≡ r r' e')

same_key_i-map : (t : ℕ → ℕ) (k l : List ℕ) → same_key_i t k l ≡ same_key (map t k) (map t l)
same_key_i-map t [] [] = refl
same_key_i-map t [] (c ∷ r) = refl
same_key_i-map t (c ∷ r) [] = refl
same_key_i-map t (c ∷ r) (c' ∷ r') = ap (λ b. t c == t c' && b) (same_key_i-map t r r')

crc64ib-map : (t : ℕ → ℕ) (crc : ℕ) (k : List ℕ) → crc64ib t crc k ≡ crc64b crc (map t k)
crc64ib-map t crc [] = refl
crc64ib-map t crc (c ∷ r) = crc64ib-map t (crc64_byte crc (t c)) r

pub same_key-IsKeyed : IsKeyed (crc64b crc64_init) same_key
same_key-IsKeyed = record {
  same_refl = same_key_refl;
  same_symm = λ k l h. ap (same_key l) (same_key→≡ k l h) ∙ same_key_refl l;
  same_trans = λ k l m h h'. ap (λ x. same_key x m) (same_key→≡ k l h) ∙ h';
  calc-same = λ k l h. ap (crc64b crc64_init) (same_key→≡ k l h);
}

pub same_key_i-IsKeyed : (t : ℕ → ℕ) → IsKeyed (crc64ib t crc64_init) (same_key_i t)
same_key_i-IsKeyed t =
    let on : (k l : List ℕ) → same_key_i t k l ≡ true → map t k ≡ map t l =
      λ k l h. same_key→≡ (map t k) (map t l) (sym (same_key_i-map t k l) ∙ h) in
    let is : (k l : List ℕ) → map t k ≡ map t l → same_key_i t k l ≡ true =
      λ k l h. same_key_i-map t k l ∙ ap (λ x. same_key x (map t l)) h ∙ same_key_refl (map t l) in
    record {
      same_refl = λ k. is k k refl;
      same_symm = λ k l h. is l k (sym (on k l h));
      same_trans = λ k l m h h'. is k m (on k l h ∙ on l m h');
      calc-same = λ k l h.
          crc64ib-map t crc64_init k
          ∙ ap (crc64b crc64_init) (on k l h)
          ∙ sym (crc64ib-map t crc64_init l);
    }
