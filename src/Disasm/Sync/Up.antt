-- ===== src/Disasm/Sync/Up.antt =====
-- `add_sync` of disasm/sync.c keeps the order of the heap.
use nasm.Prelude.{
  ℕ, zero, suc, ◌/◌, ◌≤◌, ◌<◌, ◌≡◌, ◌≢◌, refl, sym, ap, true, false, ltb, ◌==◌, if◌then◌else◌,
  arith, Bool-cases, inl, inr,
}
use mathlib.Core.Path.{subst}
use nasm.Disasm.Sync.{Sync, swap_sync, up}
use nasm.Disasm.Sync.Heap.{IsHeap, SameHeld, swap_sync-pos, swap_sync-Held, Held-swap_sync}

-- A heap but for the point at `i`, which may be before the one above it.
pub record IsAlmost (a : ℕ → Sync) (n i : ℕ) : Type 0 where
  pub others : (k : ℕ) → 1 < k → k ≤ n → k ≢ i → (a (k / 2)).pos ≤ (a k).pos
  pub below : (k : ℕ) → 1 < k → k ≤ n → k / 2 ≡ i → 1 < i → (a (i / 2)).pos ≤ (a k).pos

abbrev raised : (ℕ → Sync) → ℕ → ℕ → Sync
raised a i = if ltb (a i).pos (a (i / 2)).pos then swap_sync a (i / 2) i else a

raised-pos :
    (a : ℕ → Sync) (i k : ℕ)
    → (raised a i k).pos ≡ (
        if ltb (a i).pos (a (i / 2)).pos
        then if k == i / 2 then (a i).pos else if k == i then (a (i / 2)).pos else (a k).pos
        else (a k).pos)
raised-pos a i k = elim (Bool-cases (ltb (a i).pos (a (i / 2)).pos)) [
  | inl e ↦ rw (e) (swap_sync-pos a (i / 2) i k)
  | inr e ↦ rw (e) refl
]

order_others :
    (i k hi hk pi phi pk phk : ℕ)
    → k ≢ hi
    → hi < i
    → hk < k
    → (k ≡ i → pk ≡ pi)
    → (k ≡ i → phk ≡ phi)
    → (hk ≡ hi → phk ≡ phi)
    → (hk ≡ i → phk ≡ pi)
    → (k ≢ i → phk ≤ pk)
    → (hk ≡ i → phi ≤ pk)
    → (if ltb pi phi then if hk == hi then pi else if hk == i then phi else phk else phk)
      ≤ (if ltb pi phi then if k == hi then pi else if k == i then phi else pk else pk)
order_others i k hi hk pi phi pk phk ne l l' e1 e2 e3 e4 others below = grind arith

order_below :
    (i k hi hhi pi phi phhi pk : ℕ)
    → hi < i
    → hhi < hi
    → hi < k
    → (k ≡ i → pk ≡ pi)
    → phhi ≤ phi
    → (k ≢ i → phi ≤ pk)
    → (if ltb pi phi then if hhi == hi then pi else if hhi == i then phi else phhi else phhi)
      ≤ (if ltb pi phi then if k == hi then pi else if k == i then phi else pk else pk)
order_below i k hi hhi pi phi phhi pk l l' l'' e h others = grind arith

raised-IsAlmost :
    (a : ℕ → Sync) (n i : ℕ) → 1 < i → i ≤ n → IsAlmost a n i → IsAlmost (raised a i) n (i / 2)
raised-IsAlmost a n i h hn v = record {
  others = λ k k1 kn ne.
      rw (raised-pos a i (k / 2), raised-pos a i k)
        (order_others i k (i / 2) (k / 2) (a i).pos (a (i / 2)).pos (a k).pos (a (k / 2)).pos ne
          (omega (arith, h)) (omega (arith, k1)) (λ e. ap (λ j. (a j).pos) e)
          (λ e. ap (λ j. (a (j / 2)).pos) e) (λ e. ap (λ j. (a j).pos) e)
          (λ e. ap (λ j. (a j).pos) e) (v.others k k1 kn) (λ e. v.below k k1 kn e h));
  below = λ k k1 kn e i1.
      rw (raised-pos a i (i / 2 / 2), raised-pos a i k)
        (order_below i k (i / 2) (i / 2 / 2) (a i).pos (a (i / 2)).pos (a (i / 2 / 2)).pos (a k).pos
          (omega (arith, h)) (omega (arith, i1)) (omega (arith, k1, e)) (λ q. ap (λ j. (a j).pos) q)
          (v.others (i / 2) i1 (omega (arith, hn)) (omega (arith, h)))
          (λ ne. subst (λ j. (a j).pos ≤ (a k).pos) e (v.others k k1 kn ne)));
}

up_stop : (m : ℕ) (a : ℕ → Sync) (i : ℕ) → ltb 1 i ≡ false → up (suc m) a i ≡ a
unfolding up
up_stop m a i e = rw (e) refl

up_step :
    (m : ℕ) (a : ℕ → Sync) (i : ℕ) → ltb 1 i ≡ true → up (suc m) a i ≡ up m (raised a i) (i / 2)
unfolding up
up_step m a i e = rw (e) refl

pub up-IsHeap :
    (m : ℕ) (a : ℕ → Sync) (n i : ℕ) → i ≤ n → i ≤ m → IsAlmost a n i → IsHeap (up m a i) n
unfolding up
up-IsHeap zero a n i h hm v = λ k k1 kn. v.others k k1 kn (omega arith)
up-IsHeap (suc m) a n i h hm v = elim (Bool-cases (ltb 1 i)) [
  | inl e ↦
      subst (λ b. IsHeap b n) (sym (up_step m a i e))
        (up-IsHeap m (raised a i) n (i / 2) (omega arith) (ground arith)
          (raised-IsAlmost a n i (ground arith) h v))
  | inr e ↦
      subst (λ b. IsHeap b n) (sym (up_stop m a i e)) (λ k k1 kn. v.others k k1 kn (ground arith))
]

raised-SameHeld : (a : ℕ → Sync) (n i : ℕ) → 1 < i → i ≤ n → SameHeld a (raised a i) n
raised-SameHeld a n i h hn = elim (Bool-cases (ltb (a i).pos (a (i / 2)).pos)) [
  | inl e ↦ rw (e) record {
    to = λ x. swap_sync-Held a (i / 2) i n x (omega arith) (omega arith) (omega arith) hn;
    from = λ x. Held-swap_sync a (i / 2) i n x (omega arith) (omega arith) (omega arith) hn;
  }
  | inr e ↦ rw (e) record { to = λ x y. y; from = λ x y. y }
]

pub up-SameHeld : (m : ℕ) (a : ℕ → Sync) (n i : ℕ) → i ≤ n → SameHeld a (up m a i) n
unfolding up
up-SameHeld zero a n i h = record { to = λ x y. y; from = λ x y. y }
up-SameHeld (suc m) a n i h = elim (Bool-cases (ltb 1 i)) [
  | inl e ↦
      let now = raised-SameHeld a n i (ground arith) h in
      let next = up-SameHeld m (raised a i) n (i / 2) (omega arith) in
      subst (λ b. SameHeld a b n) (sym (up_step m a i e))
        record { to = λ x y. next.to x (now.to x y); from = λ x y. now.from x (next.from x y) }
  | inr e ↦
      subst (λ b. SameHeld a b n) (sym (up_stop m a i e)) record { to = λ x y. y; from = λ x y. y }
]
