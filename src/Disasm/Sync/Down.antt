-- ===== src/Disasm/Sync/Down.antt =====
-- `next_sync` of disasm/sync.c keeps the order of the heap when it drops the first point.
use nasm.Prelude.{
  ℕ, zero, suc, ◌+◌, ◌-◌, ◌/◌, ◌≤◌, ◌<◌, ◌≡◌, ◌≢◌, ◌⊎◌, refl, sym, ap, ◌∙◌, none, some, ◌==◌,
  if◌then◌else◌, arith, Bool-cases, inl, inr,
}
use mathlib.Core.Path.{subst}
use nasm.Disasm.Sync.{Sync, swap_sync, lower, down, drop_first}
use nasm.Disasm.Sync.Heap.{IsHeap, Held, SameHeld, swap_sync-pos, swap_sync-Held, Held-swap_sync}
use nasm.Disasm.Sync.Lower.{IsLower, IsLowest, IsLower-cases}

-- A heap but for the point at `i`, which may be after those below it.
record IsSunk (a : ℕ → Sync) (n i : ℕ) : Type 0 where
  others : (k : ℕ) → 1 < k → k ≤ n → k / 2 ≢ i → (a (k / 2)).pos ≤ (a k).pos
  below : (k : ℕ) → 1 < k → k ≤ n → k / 2 ≡ i → 1 < i → (a (i / 2)).pos ≤ (a k).pos

order_sunk :
    (k i c hk pi pc pk phk : ℕ)
    → c ≢ i
    → hk < k
    → hk ≢ c
    → pc < pi
    → (k ≡ c → hk ≡ i)
    → (k ≡ i → pk ≡ pi)
    → (k ≡ i → phk ≤ pc)
    → (hk ≡ i → pc ≤ pk)
    → (hk ≢ i → phk ≤ pk)
    → (k ≡ i → hk ≢ i)
    → (if hk == c then pi else if hk == i then pc else phk)
      ≤ (if k == c then pi else if k == i then pc else pk)
order_sunk k i c hk pi pc pk phk e1 e2 e3 e4 e5 e6 e7 e8 e9 e10 = grind arith

order_deeper :
    (k i c hc pi pc pk phc : ℕ)
    → hc ≡ i
    → i < c
    → c < k
    → pc ≤ pk
    → (if hc == c then pi else if hc == i then pc else phc)
      ≤ (if k == c then pi else if k == i then pc else pk)
order_deeper k i c hc pi pc pk phc e l l' h = ground arith

lowered-IsSunk :
    (a : ℕ → Sync) (n i c : ℕ)
    → 0 < i
    → IsSunk a n i
    → IsLower a n i c
    → IsSunk (swap_sync a c i) n c
lowered-IsSunk a n i c i1 v w =
    let ci : c ≢ i = λ e. omega (arith, w.child, e, i1) in
    record {
      others = λ k k1 kn ne.
          rw (swap_sync-pos a c i (k / 2), swap_sync-pos a c i k)
            (order_sunk k i c (k / 2) (a i).pos (a c).pos (a k).pos (a (k / 2)).pos ci
              (omega (arith, k1)) ne w.less (λ e. ap (λ j. j / 2) e ∙ w.child)
              (λ e. ap (λ j. (a j).pos) e)
              (λ e.
                subst (λ j. (a (j / 2)).pos ≤ (a c).pos) (sym e)
                  (v.below c (omega (arith, w.child, i1)) w.inside w.child (omega (arith, e, k1))))
              (w.least k kn) (v.others k k1 kn) (λ e q. omega (arith, e, q, k1)));
      below = λ k k1 kn e c1.
          let deeper = v.others k k1 kn (λ q. omega (arith, e, q, w.child, c1)) in
          rw (swap_sync-pos a c i (c / 2), swap_sync-pos a c i k)
            (order_deeper k i c (c / 2) (a i).pos (a c).pos (a k).pos (a (c / 2)).pos w.child
              (omega (arith, w.child, c1)) (omega (arith, e, c1))
              (subst (λ j. (a j).pos ≤ (a k).pos) e deeper));
    }

down_stop : (m : ℕ) (a : ℕ → Sync) (n i : ℕ) → lower a n i ≡ none → down (suc m) a n i ≡ a
unfolding down
down_stop m a n i e = rw (down, e) refl

down_step :
    (m : ℕ) (a : ℕ → Sync) (n i c : ℕ)
    → lower a n i ≡ some c
    → down (suc m) a n i ≡ down m (swap_sync a c i) n c
unfolding down
down_step m a n i c e = rw (down, e) refl

-- The points above the one that sinks are done, so are those below it when it has stopped.
stopped : (a : ℕ → Sync) (n i : ℕ) → IsSunk a n i → IsLowest a n i → IsHeap a n
stopped a n i v w k k1 kn = elim (Bool-cases (k / 2 == i)) [
  | inl e ↦
      let q : k / 2 ≡ i = ground (arith, e) in
      subst (λ j. (a j).pos ≤ (a k).pos) (sym q) (w.least k kn q)
  | inr e ↦ v.others k k1 kn (λ q. ground (arith, e, q))
]

down-IsHeap :
    (m : ℕ) (a : ℕ → Sync) (n i : ℕ) → 0 < i → n < i + m → IsSunk a n i → IsHeap (down m a n i) n
unfolding down
down-IsHeap zero a n i i1 h v = λ k k1 kn. v.others k k1 kn (λ q. omega arith)
down-IsHeap (suc m) a n i i1 h v = elim (IsLower-cases a n i) [
  | inl w ↦ subst (λ b. IsHeap b n) (sym (down_stop m a n i w.found)) (stopped a n i v w)
  | inr (c, w) ↦
      subst (λ b. IsHeap b n) (sym (down_step m a n i c w.found))
        (down-IsHeap m (swap_sync a c i) n c (omega (arith, w.child, i1))
          (omega (arith, w.child, i1, h)) (lowered-IsSunk a n i c i1 v w))
]

down-SameHeld : (m : ℕ) (a : ℕ → Sync) (n i : ℕ) → 0 < i → SameHeld a (down m a n i) n
unfolding down
down-SameHeld zero a n i i1 = record { to = λ x y. y; from = λ x y. y }
down-SameHeld (suc m) a n i i1 = elim (IsLower-cases a n i) [
  | inl w ↦
      subst (λ b. SameHeld a b n) (sym (down_stop m a n i w.found))
        record { to = λ x y. y; from = λ x y. y }
  | inr (c, w) ↦
      let c1 : 0 < c = omega (arith, w.child, i1) in
      let ni : i ≤ n = omega (arith, w.child, w.inside) in
      let next = down-SameHeld m (swap_sync a c i) n c c1 in
      subst (λ b. SameHeld a b n) (sym (down_step m a n i c w.found))
        record {
          to = λ x y. next.to x (swap_sync-Held a c i n x c1 w.inside i1 ni y);
          from = λ x y. Held-swap_sync a c i n x c1 w.inside i1 ni (next.from x y);
        }
]

-- The heap without its first point, and with the last one in its place.
pub drop_first-IsHeap : (a : ℕ → Sync) (n : ℕ) → IsHeap a (suc n) → IsHeap (drop_first a (suc n)) n
unfolding drop_first
drop_first-IsHeap a n h =
    let e : suc n - 1 ≡ n = omega arith in
    subst (λ m. IsHeap (down (suc n) (swap_sync a (suc n) 1) m 1) n) (sym e)
      (down-IsHeap (suc n) (swap_sync a (suc n) 1) n 1 (omega arith) (omega arith) record {
        others = λ k k1 kn ne.
            rw (swap_sync-pos a (suc n) 1 (k / 2), swap_sync-pos a (suc n) 1 k)
              (untouched n k (k / 2) (a 1).pos (a (suc n)).pos (a k).pos (a (k / 2)).pos
                (omega (arith, k1)) (omega (arith, k1)) ne kn (h k k1 (omega (arith, kn))));
        below = λ k k1 kn e i1. absurd (omega (arith, i1));
      })
  where
    untouched :
        (n k hk p1 pn pk phk : ℕ)
        → hk < k
        → 0 < hk
        → hk ≢ 1
        → k ≤ n
        → phk ≤ pk
        → (if hk == suc n then p1 else if hk == 1 then pn else phk)
          ≤ (if k == suc n then p1 else if k == 1 then pn else pk)
    untouched n k hk p1 pn pk phk l l' ne kn h = ground arith

dropped-SameHeld :
    (a : ℕ → Sync) (n : ℕ) → SameHeld (swap_sync a (suc n) 1) (drop_first a (suc n)) n
unfolding drop_first
dropped-SameHeld a n =
    let e : suc n - 1 ≡ n = omega arith in
    let b = swap_sync a (suc n) 1 in
    subst (λ m. SameHeld b (down (suc n) b m 1) n) (sym e)
      (down-SameHeld (suc n) b n 1 (omega arith))

pub Held-drop_first :
    (a : ℕ → Sync) (n : ℕ) (x : Sync) → Held (drop_first a (suc n)) n x → Held a (suc n) x
Held-drop_first a n x y =
    let z = (dropped-SameHeld a n).from x y in
    Held-swap_sync a (suc n) 1 (suc n) x (omega arith) (omega arith) (omega arith) (omega arith)
      record { index = z.index; first = z.first; last = omega (arith, z.last); here = z.here }

pub drop_first-Held :
    (a : ℕ → Sync) (n : ℕ) (x : Sync)
    → Held a (suc n) x
    → Held (drop_first a (suc n)) n x ⊎ (a 1 ≡ x)
drop_first-Held a n x y =
    let z =
      swap_sync-Held a (suc n) 1 (suc n) x (omega arith) (omega arith) (omega arith) (omega arith)
        y in
    elim (Bool-cases (z.index == suc n)) [
      | inl e ↦ inr (
          ap (λ b. if b then a 1 else if z.index == 1 then a (suc n) else a z.index) (sym e)
          ∙ z.here)
      | inr e ↦ inl (
          (dropped-SameHeld a n).to x record {
            index = z.index;
            first = z.first;
            last = ground (arith, e, z.last);
            here = z.here;
          })
    ]
