-- ===== src/Nasmlib/Hashtbl/Slots.antt =====
-- The slots that a loop of nasmlib/hashtbl.c comes to: since the step is odd and the size a power of
-- two, all of them.
use nasm.Prelude.{
  ℕ, zero, suc, ◌+◌, ◌*◌, ◌/◌, ◌%◌, ◌^◌, ◌≤◌, ◌<◌, ◌≡◌, sym, ap, ◌∙◌, ◌==◌, if◌then◌else◌, arith,
  Bool-cases, inl, inr,
}
use native.Mathlib.Nat.{
  pow-suc, mod-lt, div-add-mod, mod-eq_of_lt, mod-mod, mod-add-mod, mul-add-mod_self_left,
  mul-le-mul_left, one-le-pow, lt_of_mul-lt-mul_left,
}
use nasm.Nasmlib.Hashtbl.{hash_pos, hash_inc, hash_pos_next}

le_one : (b : ℕ) → b % 2 ≤ 1
le_one b = omega arith

double_mod : (n b r : ℕ) → r < n → (n * b + r) % (n * 2) ≡ n * (b % 2) + r
double_mod n b r h =
    let split : n * b + r ≡ n * 2 * (b / 2) + (n * (b % 2) + r) =
      (let e : b ≡ 2 * (b / 2) + b % 2 = omega arith in omega (arith, ap (λ x. n * x) e)) in
    let small : n * (b % 2) + r < n * 2 = omega (arith, h, mul-le-mul_left n (le_one b)) in
    ap (λ x. x % (n * 2)) split
    ∙ mul-add-mod_self_left (n * 2) (b / 2) (n * (b % 2) + r)
    ∙ mod-eq_of_lt small

div_below : (e n : ℕ) → 0 < n → e < n * 2 → e / n < 2
div_below e n h k = lt_of_mul-lt-mul_left n (omega (arith, k, div-add-mod e n))

further : (n a j inc b r : ℕ) → n * b + r ≡ a + j * inc → a + (j + n) * inc ≡ n * (b + inc) + r
further n a j inc b r h = omega (arith, h)

pub two_pow_pos : (k : ℕ) → 0 < 2 ^ k
two_pow_pos k = one-le-pow k 2 (omega arith)

pub reaches :
    (k inc a e : ℕ) → inc % 2 ≡ 1 → e < 2 ^ k → (n : ℕ) × (n < 2 ^ k) × ((a + n * inc) % 2 ^ k ≡ e)
reaches zero inc a e odd h = (0, omega arith, omega arith)
reaches (suc k) inc a e odd h =
    let n = 2 ^ k in
    let pos : 0 < n = two_pow_pos k in
    let (j, jn, je) = reaches k inc a (e % n) odd (mod-lt e pos) in
    let b = (a + j * inc) / n in
    let x : n * b + e % n ≡ a + j * inc = omega (arith, div-add-mod (a + j * inc) n, je) in
    let width : 2 ^ suc k ≡ n * 2 = pow-suc 2 k in
    let high : e / n < 2 = div_below e n pos (omega (arith, h, width)) in
    elim (Bool-cases (b % 2 == e / n)) [
      | inl same ↦ (
        j,
        omega (arith, jn, width),
        ap (λ m. (a + j * inc) % m) width
            ∙ ap (λ y. y % (n * 2)) (sym x)
            ∙ double_mod n b (e % n) (mod-lt e pos)
            ∙ ap (λ c. n * c + e % n) (ground (arith, same))
            ∙ div-add-mod e n,
      )
      | inr other ↦ (
        j + n,
        omega (arith, jn, width),
        ap (λ m. (a + (j + n) * inc) % m) width
            ∙ ap (λ y. y % (n * 2)) (further n a j inc b (e % n) x)
            ∙ double_mod n (b + inc) (e % n) (mod-lt e pos)
            ∙ ap (λ c. n * c + e % n) (ground (arith, other, odd, high))
            ∙ div-add-mod e n,
      )
    ]

-- The slot that the loop comes to in a round.
abbrev pub slot : ℕ → ℕ → ℕ → ℕ
slot size hash zero = hash_pos hash size
slot size hash (suc j) = hash_pos_next (slot size hash j) (hash_inc hash size) size

pub hash_inc_odd : (hash size : ℕ) → hash_inc hash size % 2 ≡ 1
hash_inc_odd hash size = odd (hash / 2 ^ 32 % size)
  where
    odd : (i : ℕ) → (if i % 2 == 0 then i + 1 else i) % 2 ≡ 1
    odd i = ground arith

slot_lem :
    (size hash j : ℕ) → 0 < size → slot size hash j ≡ (hash % size + j * hash_inc hash size) % size
slot_lem size hash zero h = sym (mod-mod hash size) ∙ ap (λ x. x % size) (omega arith)
slot_lem size hash (suc j) h =
    ap (λ x. (x + hash_inc hash size) % size) (slot_lem size hash j h)
    ∙ mod-add-mod (hash % size + j * hash_inc hash size) size (hash_inc hash size)
    ∙ ap (λ x. x % size) (omega arith)

pub slot-lt : (size hash j : ℕ) → 0 < size → slot size hash j < size
slot-lt size hash zero h = mod-lt hash h
slot-lt size hash (suc j) h = mod-lt (slot size hash j + hash_inc hash size) h

-- Every slot of a table is come to, in a round before the last.
pub slot_onto : (k hash e : ℕ) → e < 2 ^ k → (n : ℕ) × (n < 2 ^ k) × (slot (2 ^ k) hash n ≡ e)
slot_onto k hash e h =
    let size = 2 ^ k in
    let (n, few, at_) = reaches k (hash_inc hash size) (hash % size) e (hash_inc_odd hash size) h in
    (n, few, slot_lem size hash n (two_pow_pos k) ∙ at_)
