-- ===== src/Nasmlib/Hashtbl/Count.antt =====
-- The number of nodes in a table of nasmlib/hashtbl.c.
use nasm.Prelude.{
  ℕ, zero, suc, ◌+◌, ◌≤◌, ◌<◌, ◌≡◌, refl, ap, ◌∙◌, true, false, Option, none, some, ◌==◌, arith,
  Bool-cases, Option-cases, inl, inr,
}
use nasm.Nasmlib.Hashtbl.{HashNode, Table, empty_table, put_node}

abbrev pub occupied : Option HashNode → ℕ
occupied none = 0
occupied (some x) = 1

abbrev pub count : Table → ℕ → ℕ
count t zero = 0
count t (suc n) = count t n + occupied (t n)

pub count-empty : (n : ℕ) → count empty_table n ≡ 0
count-empty zero = refl
count-empty (suc n) = omega (arith, count-empty n)

-- Where fewer slots than all are occupied, one is empty.
pub some_empty : (t : Table) (n : ℕ) → count t n < n → (i : ℕ) × (i < n) × (t i ≡ none)
some_empty t zero h = absurd (omega arith)
some_empty t (suc n) h = elim (Option-cases (t n)) [
  | inl e ↦ (n, omega arith, e)
  | inr (x, e) ↦
      let c : occupied (t n) ≡ 1 = ap occupied e in
      let (i, below, k) = some_empty t n (omega (arith, h, c)) in (i, omega (arith, below), k)
]

pub put_node_self : (t : Table) (p : ℕ) (x : HashNode) → put_node t p x p ≡ some x
put_node_self t p x = let e : (p == p) ≡ true = ground arith in rw (e) refl

pub put_node_other :
    (t : Table) (p q : ℕ) (x : HashNode) → (q == p) ≡ false → put_node t p x q ≡ t q
put_node_other t p q x e = rw (e) refl

count-outside :
    (t : Table) (p : ℕ) (x : HashNode) (n : ℕ) → n ≤ p → count (put_node t p x) n ≡ count t n
count-outside t p x zero h = refl
count-outside t p x (suc n) h =
    let same : occupied (put_node t p x n) ≡ occupied (t n) =
      ap occupied (put_node_other t p n x (ground arith)) in
    omega (arith, same, count-outside t p x n (omega (arith, h)))

pub count-put_node :
    (t : Table) (p : ℕ) (x : HashNode) (n : ℕ)
    → p < n
    → t p ≡ none
    → count (put_node t p x) n ≡ count t n + 1
count-put_node t p x zero h e = absurd (omega arith)
count-put_node t p x (suc n) h e = elim (Bool-cases (n == p)) [
  | inl here ↦
      let i : n ≡ p = ground (arith, here) in
      let one : occupied (put_node t p x n) ≡ 1 =
        ap (λ j. occupied (put_node t p x j)) i ∙ ap occupied (put_node_self t p x) in
      let no : occupied (t n) ≡ 0 = ap (λ j. occupied (t j)) i ∙ ap occupied e in
      omega (arith, one, no, count-outside t p x n (omega (arith, i)))
  | inr other ↦
      let same : occupied (put_node t p x n) ≡ occupied (t n) =
        ap occupied (put_node_other t p n x other) in
      let below : p < n = ground (arith, other, h) in
      omega (arith, same, count-put_node t p x n below e)
]

pub count-le : (t : Table) (n : ℕ) → count t n ≤ n
count-le t zero = omega arith
count-le t (suc n) = omega (arith, count-le t n, occupied-le (t n))
  where
    occupied-le : (o : Option HashNode) → occupied o ≤ 1
    occupied-le none = omega arith
    occupied-le (some x) = omega arith
