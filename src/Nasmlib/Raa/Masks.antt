-- ===== src/Nasmlib/Raa/Masks.antt =====
-- The last positions of the layers of nasmlib/raa.c, of which there are six at most.
use nasm.Prelude.{
  ℕ, zero, suc, ◌+◌, ◌*◌, ◌/◌, ◌^◌, ◌≤◌, ◌<◌, ◌≡◌, sym, ◌∙◌, not, ltb, ◌==◌, arith, Bool-cases, inl,
  inr,
}
use mathlib.Core.Path.{subst}
use native.Mathlib.Nat.{mod-eq_of_lt, pow-le-pow_right}
use nasm.Nasmlib.Raa.{posmask, last_position, layershift}
use nasm.Nasmlib.Raa.Layers.{span, digit, agree, agree-mod, agree_refl}
use nasm.Nasmlib.Ilog2.{ilog2_64}
use nasm.Nasmlib.Ilog2.Bounds.{ilog2_64-bounds}

-- A statement on the number of layers, one case at a time.
six_cases : (P : ℕ → Type 0) → P 0 → P 1 → P 2 → P 3 → P 4 → P 5 → (n : ℕ) → n ≤ 5 → P n
six_cases P p₀ p₁ p₂ p₃ p₄ p₅ zero h = p₀
six_cases P p₀ p₁ p₂ p₃ p₄ p₅ (suc zero) h = p₁
six_cases P p₀ p₁ p₂ p₃ p₄ p₅ (suc (suc zero)) h = p₂
six_cases P p₀ p₁ p₂ p₃ p₄ p₅ (suc (suc (suc zero))) h = p₃
six_cases P p₀ p₁ p₂ p₃ p₄ p₅ (suc (suc (suc (suc zero)))) h = p₄
six_cases P p₀ p₁ p₂ p₃ p₄ p₅ (suc (suc (suc (suc (suc zero))))) h = p₅
six_cases P p₀ p₁ p₂ p₃ p₄ p₅ (suc (suc (suc (suc (suc (suc n)))))) h = absurd (omega arith)

pub within_span : (n : ℕ) → n ≤ 5 → (p : ℕ) → p < 2 ^ 63 → p ≤ posmask n → p < span n
within_span =
    six_cases (λ n. (p : ℕ) → p < 2 ^ 63 → p ≤ posmask n → p < span n) (λ p h h'. omega arith)
      (λ p h h'. omega arith) (λ p h h'. omega arith) (λ p h h'. omega arith)
      (λ p h h'. omega arith) (λ p h h'. omega arith)

pub within_mask : (n : ℕ) → n ≤ 5 → (p : ℕ) → p < 2 ^ 63 → p < span n → p ≤ posmask n
within_mask =
    six_cases (λ n. (p : ℕ) → p < 2 ^ 63 → p < span n → p ≤ posmask n) (λ p h h'. omega arith)
      (λ p h h'. omega arith) (λ p h h'. omega arith) (λ p h h'. omega arith)
      (λ p h h'. omega arith) (λ p h h'. omega arith)

pub last_position_lem :
    (n : ℕ) → n ≤ 5 → (p : ℕ) → p < 2 ^ 63 → p < span n → last_position p n ≡ posmask n
last_position_lem =
    six_cases (λ n. (p : ℕ) → p < 2 ^ 63 → p < span n → last_position p n ≡ posmask n)
      (λ p h h'. omega arith) (λ p h h'. omega arith) (λ p h h'. omega arith)
      (λ p h h'. omega arith) (λ p h h'. omega arith) (λ p h h'. omega arith)

-- Below the sixth layer, the next one covers it.
pub mask_below : (n : ℕ) → n ≤ 5 → n < 5 → (posmask n < 2 ^ 63) × (posmask n < span (suc n))
mask_below =
    six_cases (λ n. n < 5 → (posmask n < 2 ^ 63) × (posmask n < span (suc n))) (λ h. omega arith)
      (λ h. omega arith) (λ h. omega arith) (λ h. omega arith) (λ h. omega arith)
      (λ h. absurd (omega arith))

pub first_digit :
    (n : ℕ)
    → n ≤ 5
    → (q : ℕ) → n < 5
    → q < 2 ^ 63
    → q ≤ posmask (suc n)
    → (digit n q == 0) ≡ not (ltb (posmask n) q)
first_digit =
    six_cases
      (λ n.
        (q : ℕ)
        → n < 5
        → q < 2 ^ 63
        → q ≤ posmask (suc n)
        → (digit n q == 0) ≡ not (ltb (posmask n) q))
      (λ q h h' h''. ground arith) (λ q h h' h''. ground arith) (λ q h h' h''. ground arith)
      (λ q h h' h''. ground arith) (λ q h h' h''. ground arith) (λ q h h' h''. absurd (omega arith))

pub agree-eq : (n p q : ℕ) → p < span n → q < span n → agree n p q ≡ (p == q)
agree-eq n p q hp hq = elim (Bool-cases (p == q)) [
  | inl e ↦ let same : p ≡ q = ground (arith, e) in rw same (agree_refl n q ∙ ground arith)
  | inr e ↦ elim (Bool-cases (agree n p q)) [
    | inl e' ↦
        let same : p ≡ q = sym (mod-eq_of_lt hp) ∙ agree-mod n p q e' ∙ mod-eq_of_lt hq in
        absurd (ground (arith, e))
    | inr e' ↦ e' ∙ sym e
  ]
]

exponent_below : (l p : ℕ) → 2 ^ l ≤ p → p < 2 ^ 63 → l < 63
exponent_below l p low h = elim (Bool-cases (ltb l 63)) [
  | inl e ↦ ground (arith, e)
  | inr e ↦
      let le : 63 ≤ l = ground (arith, e) in
      let up : 2 ^ 63 ≤ 2 ^ l = pow-le-pow_right (omega arith) {i = 63} {j = l} le in
      absurd (omega arith)
]

layers_of_zero : (ilog2_64 0 / layershift ≤ 5) × (0 < span (ilog2_64 0 / layershift))
unfolding ilog2_64
layers_of_zero = omega arith

-- The number of layers of a new array.
pub enough_layers :
    (p : ℕ) → p < 2 ^ 63 → (ilog2_64 p / layershift ≤ 5) × (p < span (ilog2_64 p / layershift))
enough_layers p h = elim (Bool-cases (p == 0)) [
  | inl e ↦
      subst (λ p. (ilog2_64 p / layershift ≤ 5) × (p < span (ilog2_64 p / layershift)))
        (sym (ground (arith, e))) layers_of_zero
  | inr e ↦
      let (low, high) = ilog2_64-bounds p (ground (arith, e)) (omega arith) in
      let l = ilog2_64 p in
      let up : 2 ^ (l + 1) ≤ span (l / layershift) =
        pow-le-pow_right (omega arith) {i = l + 1} {j = layershift * (l / layershift + 1)}
          (omega arith) in
      (omega (arith, exponent_below l p low h), omega arith)
]
