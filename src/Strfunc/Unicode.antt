-- ===== src/Strfunc/Unicode.antt =====
-- The transformations of asm/strfunc.c on the UTF-8 of a text.
use nasm.Prelude.{
  ℕ, suc, ◌+◌, ◌*◌, ◌/◌, ◌%◌, ◌^◌, ◌≤◌, ◌<◌, ◌≡◌, ◌⊎◌, refl, Bool, true, false, List, [], ◌∷◌, ◌++◌,
  some, ltb, if◌then◌else◌, arith, All, ap, ◌∙◌, inl, inr,
}
use nasm.Strfunc.{convert, idle, expecting, prepend, is_surrogate}

-- A Unicode scalar value.
abbrev pub IsScalar : ℕ → Type 0
IsScalar c = (c < 0x11_0000) × (is_surrogate c ≡ false)

-- The UTF-8 of a character and of a text.
abbrev pub utf8_char : ℕ → List ℕ
utf8_char c =
    if ltb c 0x80
    then c ∷ []
    else if ltb c 0x800
    then (0xc0 + c / 0x40) ∷ (0x80 + c % 0x40) ∷ []
    else if ltb c 0x1_0000
    then (0xe0 + c / 0x1000) ∷ (0x80 + c / 0x40 % 0x40) ∷ (0x80 + c % 0x40) ∷ []
    else (0xf0 + c / 0x4_0000)
      ∷ (0x80 + c / 0x1000 % 0x40)
      ∷ (0x80 + c / 0x40 % 0x40)
      ∷ (0x80 + c % 0x40)
      ∷ []

abbrev pub utf8 : List ℕ → List ℕ
utf8 [] = []
utf8 (c ∷ cs) = utf8_char c ++ utf8 cs

-- The characters one after the other, in an encoding.
abbrev pub encoded : (ℕ → List ℕ) → List ℕ → List ℕ
encoded f [] = []
encoded f (c ∷ cs) = f c ++ encoded f cs

size_cases :
    (c : ℕ)
    → (c < 0x80) ⊎ (((0x80 ≤ c) × (c < 0x800)) ⊎ (((0x800 ≤ c) × (c < 0x1_0000)) ⊎ (0x1_0000 ≤ c)))
size_cases c = ground arith

module _ (is_char : ℕ → Bool) (emit : ℕ → List ℕ) where
  first_of_two :
      (b : ℕ) (str : List ℕ)
      → 0xc0 ≤ b
      → b < 0xe0
      → convert is_char emit idle (b ∷ str) ≡ convert is_char emit (expecting 0 (b % 0x20) 0x80) str
  unfolding convert
  first_of_two b str h₁ h₂ = ground arith

  first_of_three :
      (b : ℕ) (str : List ℕ)
      → 0xe0 ≤ b
      → b < 0xf0
      → convert is_char emit idle (b ∷ str)
        ≡ convert is_char emit (expecting 1 (b % 0x10) 0x800) str
  unfolding convert
  first_of_three b str h₁ h₂ = ground arith

  first_of_four :
      (b : ℕ) (str : List ℕ)
      → 0xf0 ≤ b
      → b < 0xf8
      → convert is_char emit idle (b ∷ str)
        ≡ convert is_char emit (expecting 2 (b % 0x08) 0x1_0000) str
  unfolding convert
  first_of_four b str h₁ h₂ = ground arith

  next_byte :
      (n v w vmin x : ℕ) (str : List ℕ)
      → x < 0x40
      → (v * 0x40 + x) % 2 ^ 32 ≡ w
      → convert is_char emit (expecting (suc n) v vmin) ((0x80 + x) ∷ str)
        ≡ convert is_char emit (expecting n w vmin) str
  unfolding convert
  next_byte n v w vmin x str hx e =
      let two : (0x80 + x) / 0x40 ≡ 2 = omega arith in
      let six : (0x80 + x) % 0x40 ≡ x = omega arith in rw (two, six, e) refl

  last_byte :
      (v w vmin x : ℕ) (str : List ℕ)
      → x < 0x40
      → (v * 0x40 + x) % 2 ^ 32 ≡ w
      → vmin ≤ w
      → is_char w ≡ true
      → convert is_char emit (expecting 0 v vmin) ((0x80 + x) ∷ str)
        ≡ prepend (emit w) (convert is_char emit idle str)
  unfolding convert
  last_byte v w vmin x str hx e le ok =
      let two : (0x80 + x) / 0x40 ≡ 2 = omega arith in
      let six : (0x80 + x) % 0x40 ≡ x = omega arith in
      let big : ltb w vmin ≡ false = ground arith in rw (two, six, e, big, ok) refl

  convert-one :
      (c : ℕ) (rest : List ℕ)
      → c < 0x80
      → convert is_char emit idle (c ∷ rest) ≡ prepend (emit c) (convert is_char emit idle rest)
  unfolding convert
  convert-one c rest h = ground arith

  convert-two :
      (c : ℕ) (rest : List ℕ)
      → 0x80 ≤ c
      → c < 0x800
      → is_char c ≡ true
      → convert is_char emit idle ((0xc0 + c / 0x40) ∷ (0x80 + c % 0x40) ∷ rest)
        ≡ prepend (emit c) (convert is_char emit idle rest)
  convert-two c rest h₁ h₂ ok =
      first_of_two (0xc0 + c / 0x40) _ (omega arith) (omega arith)
      ∙ last_byte ((0xc0 + c / 0x40) % 0x20) c 0x80 (c % 0x40) rest (omega arith) (omega arith) h₁
          ok

  convert-three :
      (c : ℕ) (rest : List ℕ)
      → 0x800 ≤ c
      → c < 0x1_0000
      → is_char c ≡ true
      → convert is_char emit idle
          ((0xe0 + c / 0x1000) ∷ (0x80 + c / 0x40 % 0x40) ∷ (0x80 + c % 0x40) ∷ rest)
        ≡ prepend (emit c) (convert is_char emit idle rest)
  convert-three c rest h₁ h₂ ok =
      first_of_three (0xe0 + c / 0x1000) _ (omega arith) (omega arith)
      ∙ next_byte 0 ((0xe0 + c / 0x1000) % 0x10) (c / 0x40) 0x800 (c / 0x40 % 0x40) _ (omega arith)
          (omega arith)
      ∙ last_byte (c / 0x40) c 0x800 (c % 0x40) rest (omega arith) (omega arith) h₁ ok

  convert-four :
      (c : ℕ) (rest : List ℕ)
      → 0x1_0000 ≤ c
      → c < 0x11_0000
      → is_char c ≡ true
      → convert is_char emit idle (
          (0xf0 + c / 0x4_0000)
          ∷ (0x80 + c / 0x1000 % 0x40)
          ∷ (0x80 + c / 0x40 % 0x40)
          ∷ (0x80 + c % 0x40)
          ∷ rest)
        ≡ prepend (emit c) (convert is_char emit idle rest)
  convert-four c rest h₁ h₂ ok =
      first_of_four (0xf0 + c / 0x4_0000) _ (omega arith) (omega arith)
      ∙ next_byte 1 ((0xf0 + c / 0x4_0000) % 0x08) (c / 0x1000) 0x1_0000 (c / 0x1000 % 0x40) _
          (omega arith) (omega arith)
      ∙ next_byte 0 (c / 0x1000) (c / 0x40) 0x1_0000 (c / 0x40 % 0x40) _ (omega arith) (omega arith)
      ∙ last_byte (c / 0x40) c 0x1_0000 (c % 0x40) rest (omega arith) (omega arith) h₁ ok

  convert-char :
      (c : ℕ) (rest : List ℕ)
      → c < 0x11_0000
      → is_char c ≡ true
      → convert is_char emit idle (utf8_char c ++ rest)
        ≡ prepend (emit c) (convert is_char emit idle rest)
  convert-char c rest hc ok = elim (size_cases c) [
    | inl h ↦ let t : ltb c 0x80 ≡ true = ground arith in rw t (convert-one c rest h)
    | inr (inl (h₁, h₂)) ↦
        let t : ltb c 0x80 ≡ false = ground arith in
        let t' : ltb c 0x800 ≡ true = ground arith in rw (t, t') (convert-two c rest h₁ h₂ ok)
    | inr (inr (inl (h₁, h₂))) ↦
        let t : ltb c 0x80 ≡ false = ground arith in
        let t' : ltb c 0x800 ≡ false = ground arith in
        let t'' : ltb c 0x1_0000 ≡ true = ground arith in
        rw (t, t', t'') (convert-three c rest h₁ h₂ ok)
    | inr (inr (inr h)) ↦
        let t : ltb c 0x80 ≡ false = ground arith in
        let t' : ltb c 0x800 ≡ false = ground arith in
        let t'' : ltb c 0x1_0000 ≡ false = ground arith in
        rw (t, t', t'') (convert-four c rest h hc ok)
  ]

  pub convert-utf8 :
      (cs : List ℕ)
      → All (λ c. (c < 0x11_0000) × (is_char c ≡ true)) cs
      → convert is_char emit idle (utf8 cs) ≡ some (encoded emit cs)
  unfolding convert
  convert-utf8 [] h = refl
  convert-utf8 (c ∷ cs) ((hc, ok), h) =
      convert-char c (utf8 cs) hc ok ∙ ap (prepend (emit c)) (convert-utf8 cs h)
