-- ===== src/Prelude/Powers.antt =====
-- Powers of two.
use Prim.Native.Nat.{ℕ, zero, suc, ◌+◌, ◌*◌, ◌^◌}
use mathlib.Core.Path.{◌≡◌, ap, ◌∙◌, sym}
use native.Mathlib.Nat.{add-suc, mul-one, pow-suc, mul_assoc}
use native.Mathlib.Omega.{arith}

pub two_pow_add : (a b : ℕ) → 2 ^ (a + b) ≡ 2 ^ a * 2 ^ b
two_pow_add a zero = ap (λ t. 2 ^ t) (omega arith) ∙ sym (mul-one (2 ^ a))
two_pow_add a (suc b) =
    ap (λ t. 2 ^ t) (add-suc a b)
    ∙ pow-suc 2 (a + b)
    ∙ ap (λ t. t * 2) (two_pow_add a b)
    ∙ mul_assoc (2 ^ a) (2 ^ b) 2
    ∙ ap (λ t. 2 ^ a * t) (sym (pow-suc 2 b))
