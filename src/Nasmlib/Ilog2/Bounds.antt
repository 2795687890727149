-- ===== src/Nasmlib/Ilog2/Bounds.antt =====
-- The bounds of `ilog2_64` of include/ilog2.h.
use nasm.Prelude.{
  ℕ, ◌+◌, ◌*◌, ◌/◌, ◌%◌, ◌^◌, ◌≤◌, ◌<◌, ◌≡◌, inl, inr, ◌==◌, arith, Bool-cases, ap, ◌∙◌,
  two_pow_add,
}
use native.Mathlib.Nat.{
  div-lt_iff_lt-mul, mod-eq_of_lt, add_assoc, mod-lt, one-le-pow, mul-le-mul_right, div-add-mod,
}
use nasm.Nasmlib.Ilog2.{round, ilog2_32, ilog2_64}

-- `v` is `x` without its `p` lowest bits, and is not 0.
abbrev IsShifted : ℕ → ℕ → ℕ → Type 0
IsShifted x v p = (0 < v) × (v * 2 ^ p ≤ x) × (x < (v + 1) * 2 ^ p)

scale :
    (x v d r P W Q : ℕ)
    → Q ≡ P * W
    → W * d + r ≡ v
    → r < W
    → 0 < d
    → v * P ≤ x
    → x < (v + 1) * P
    → (0 < d) × (d * Q ≤ x) × (x < (d + 1) * Q)
scale x v d r P W Q eq ev hr hd h₁ h₂ =
    let low : (W * d) * P ≤ v * P = mul-le-mul_right P (omega arith) in
    let high : (v + 1) * P ≤ (W * (d + 1)) * P = mul-le-mul_right P (omega arith) in
    (hd, grind arith, grind arith)

shift_further : (x v p w : ℕ) → IsShifted x v p → 0 < v / 2 ^ w → IsShifted x (v / 2 ^ w) (p + w)
shift_further x v p w (h₀, h₁, h₂) h =
    scale x v (v / 2 ^ w) (v % 2 ^ w) (2 ^ p) (2 ^ w) (2 ^ (p + w)) (two_pow_add p w)
      (div-add-mod v (2 ^ w)) (mod-lt v (one-le-pow w 2 (omega arith))) h h₁ h₂

below_of_quotient : (v W : ℕ) → 0 < W → v / W ≡ 0 → v < W
below_of_quotient v W pos e =
    let eq = div-add-mod v W in let lt = mod-lt v pos in ground (arith, rw e at eq)

-- A round leaves a number of `w` bits of one of `2 * w` bits.
abbrev IsRounded : ℕ → ℕ → ℕ × ℕ → Type 0
IsRounded w x (v, p) = IsShifted x v p × (v < 2 ^ w)

round-IsRounded :
    (w x v p : ℕ) → v < 2 ^ w * 2 ^ w → IsShifted x v p → IsRounded w x (round w (v, p))
round-IsRounded w x v p hv h =
    let pos = one-le-pow w 2 (omega arith) in
    let iff = div-lt_iff_lt-mul pos in
    let small : v / 2 ^ w < 2 ^ w = iff.1 hv in
    let same : v / 2 ^ w % 2 ^ w ≡ v / 2 ^ w = mod-eq_of_lt small in
    elim (Bool-cases (v / 2 ^ w % 2 ^ w == 0)) [
      | inl e ↦ rw e (h, below_of_quotient v (2 ^ w) pos (ground (arith, same, e)))
      | inr e ↦ rw e (shift_further x v p w h (ground (arith, same, e)), small)
    ]

rounds-IsShifted :
    (x v p : ℕ)
    → v < 2 ^ 32
    → IsShifted x v p
    → IsRounded 1 x (round 1 (round 2 (round 4 (round 8 (round 16 (v, p))))))
rounds-IsShifted x v p hv h =
    let (h₁, l₁) = round-IsRounded 16 x v p hv h in
    let (h₂, l₂) = round-IsRounded 8 x (round 16 (v, p)).0 (round 16 (v, p)).1 l₁ h₁ in
    let s₂ = round 8 (round 16 (v, p)) in
    let (h₃, l₃) = round-IsRounded 4 x s₂.0 s₂.1 l₂ h₂ in
    let s₃ = round 4 s₂ in
    let (h₄, l₄) = round-IsRounded 2 x s₃.0 s₃.1 l₃ h₃ in
    let s₄ = round 2 s₃ in round-IsRounded 1 x s₄.0 s₄.1 l₄ h₄

ilog2_32-bounds : (x : ℕ) → 0 < x → x < 2 ^ 32 → (2 ^ ilog2_32 x ≤ x) × (x < 2 ^ (ilog2_32 x + 1))
unfolding ilog2_32
ilog2_32-bounds x h₀ h =
    let ((pos, low, high), lt) = rounds-IsShifted x x 0 h (h₀, omega arith, omega arith) in
    let r = round 1 (round 2 (round 4 (round 8 (round 16 (x, 0))))) in
    one_left x r.0 (2 ^ r.1) (2 ^ (r.1 + 1)) pos lt low high (two_pow_add r.1 1)
  where
    one_left :
        (x v P Q : ℕ)
        → 0 < v
        → v < 2 ^ 1
        → v * P ≤ x
        → x < (v + 1) * P
        → Q ≡ P * 2 ^ 1
        → (P ≤ x) × (x < Q)
    one_left x v P Q pos lt low high e =
        let e' : v ≡ 1 = omega arith in
        let low' = rw e' at low in
        let high' = rw e' at high in (omega (arith, low'), omega (arith, high', e))

-- Of a number that is not 0, `ilog2_64` is the logarithm to base 2, rounded down.
pub ilog2_64-bounds :
    (x : ℕ) → 0 < x → x < 2 ^ 64 → (2 ^ ilog2_64 x ≤ x) × (x < 2 ^ (ilog2_64 x + 1))
unfolding ilog2_64
ilog2_64-bounds x h₀ h = elim (Bool-cases (x / 2 ^ 32 == 0)) [
  | inl e ↦
      let same : x % 2 ^ 32 ≡ x = ground (arith, e) in
      rw (e, same) (ilog2_32-bounds x h₀ (ground (arith, e)))
  | inr e ↦
      let (low, high) = ilog2_32-bounds (x / 2 ^ 32) (ground (arith, e)) (omega arith) in
      let p = ilog2_32 (x / 2 ^ 32) in
      rw e (
        upper_half x (2 ^ p) (2 ^ (p + 1)) (2 ^ (32 + p)) (2 ^ (32 + p + 1)) low high
          (two_pow_add 32 p) (ap (λ t. 2 ^ t) (add_assoc 32 p 1) ∙ two_pow_add 32 (p + 1)))
]
  where
    upper_half :
        (x P Q P' Q' : ℕ)
        → P ≤ x / 2 ^ 32
        → x / 2 ^ 32 < Q
        → P' ≡ 2 ^ 32 * P
        → Q' ≡ 2 ^ 32 * Q
        → (P' ≤ x) × (x < Q')
    upper_half x P Q P' Q' low high e e' = (omega arith, omega arith)
