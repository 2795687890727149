-- ===== src/Disasm/Sync/Heap.antt =====
-- The order of the heap of disasm/sync.c, and the points that it holds.
use nasm.Prelude.{
  ℕ, zero, suc, ◌/◌, ◌≤◌, ◌<◌, ◌≡◌, refl, sym, ap, ◌∙◌, ◌==◌, if◌then◌else◌, arith, Bool-cases, inl,
  inr,
}
use nasm.Disasm.Sync.{Sync, swap_sync}

-- No point is before the one above it.
abbrev pub IsHeap : (ℕ → Sync) → ℕ → Type 0
IsHeap a n = (k : ℕ) → 1 < k → k ≤ n → (a (k / 2)).pos ≤ (a k).pos

-- A point among the first `n`.
pub record Held (a : ℕ → Sync) (n : ℕ) (x : Sync) : Type 0 where
  pub index : ℕ
  pub first : 0 < index
  pub last : index ≤ n
  pub here : a index ≡ x

-- The same points are held.
pub record SameHeld (a b : ℕ → Sync) (n : ℕ) : Type 0 where
  pub to : (x : Sync) → Held a n x → Held b n x
  pub from : (x : Sync) → Held b n x → Held a n x

pub swap_sync-pos :
    (a : ℕ → Sync) (d s k : ℕ)
    → (swap_sync a d s k).pos
      ≡ (if k == d then (a s).pos else if k == s then (a d).pos else (a k).pos)
swap_sync-pos a d s k = elim (Bool-cases (k == d)) [
  | inl e ↦ rw (e) refl
  | inr e ↦ elim (Bool-cases (k == s)) [ inl e' ↦ rw (e, e') refl | inr e' ↦ rw (e, e') refl ]
]

-- Where a point of a heap stands after two are exchanged.
abbrev moved : ℕ → ℕ → ℕ → ℕ
moved d s k = if k == d then s else if k == s then d else k

swap_sync-from : (a : ℕ → Sync) (d s k : ℕ) → swap_sync a d s k ≡ a (moved d s k)
swap_sync-from a d s k = elim (Bool-cases (k == d)) [
  | inl e ↦ rw (e) refl
  | inr e ↦ elim (Bool-cases (k == s)) [ inl e' ↦ rw (e, e') refl | inr e' ↦ rw (e, e') refl ]
]

swap_sync-moved : (a : ℕ → Sync) (d s k : ℕ) → swap_sync a d s (moved d s k) ≡ a k
swap_sync-moved a d s k = swap_sync-from a d s (moved d s k) ∙ ap a (twice k)
  where
    twice : (k : ℕ) → moved d s (moved d s k) ≡ k
    twice k = ground arith

pub swap_sync-Held :
    (a : ℕ → Sync) (d s n : ℕ) (x : Sync)
    → 0 < d
    → d ≤ n
    → 0 < s
    → s ≤ n
    → Held a n x
    → Held (swap_sync a d s) n x
swap_sync-Held a d s n x d1 dn s1 sn h = record {
  index = moved d s h.index;
  first = ground (arith, h.first);
  last = ground (arith, h.last);
  here = swap_sync-moved a d s h.index ∙ h.here;
}

pub Held-swap_sync :
    (a : ℕ → Sync) (d s n : ℕ) (x : Sync)
    → 0 < d
    → d ≤ n
    → 0 < s
    → s ≤ n
    → Held (swap_sync a d s) n x
    → Held a n x
Held-swap_sync a d s n x d1 dn s1 sn h = record {
  index = moved d s h.index;
  first = ground (arith, h.first);
  last = ground (arith, h.last);
  here = sym (swap_sync-from a d s h.index) ∙ h.here;
}

-- The first point of a heap is not after any other.
pub IsHeap-first :
    (m : ℕ) (a : ℕ → Sync) (n k : ℕ) → IsHeap a n → 0 < k → k ≤ m → k ≤ n → (a 1).pos ≤ (a k).pos
IsHeap-first zero a n k h k1 km kn = absurd (omega arith)
IsHeap-first (suc m) a n k h k1 km kn = elim (Bool-cases (k == 1)) [
  | inl e ↦ let i : k ≡ 1 = ground (arith, e) in rw (i) omega arith
  | inr e ↦
      let above = IsHeap-first m a n (k / 2) h (ground arith) (ground arith) (omega arith) in
      let next = h k (ground arith) kn in omega (arith, above, next)
]
