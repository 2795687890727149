-- ===== src/Disasm/Sync/Points.antt =====
-- `next_sync` of disasm/sync.c: the points come in the order of their positions.
use nasm.Prelude.{
  ℕ, zero, suc, ◌≤◌, ◌≡◌, ◌⊎◌, refl, sym, ap, ◌∙◌, true, false, arith, Bool-cases, inl, inr,
}
use mathlib.Core.Path.{subst}
use nasm.Disasm.Sync.{Sync, Syncs, is_passed, drop_first, drop_passed, first_pos, next_sync}
use nasm.Disasm.Sync.Heap.{IsHeap, Held, IsHeap-first}
use nasm.Disasm.Sync.Down.{drop_first-IsHeap, Held-drop_first, drop_first-Held}

record Dropped (a : ℕ → Sync) (n position : ℕ) (r : (ℕ → Sync) × ℕ) : Type 0 where
  order : IsHeap r.0 r.1
  fewer : r.1 ≤ n
  kept : (x : Sync) → Held r.0 r.1 x → Held a n x
  passed : (x : Sync) → Held a n x → Held r.0 r.1 x ⊎ (is_passed position x ≡ true)
  stops : (r.1 ≡ 0) ⊎ (is_passed position (r.0 1) ≡ false)

drop_step :
    (a : ℕ → Sync) (n position : ℕ)
    → is_passed position (a 1) ≡ true
    → drop_passed a (suc n) position ≡ drop_passed (drop_first a (suc n)) n position
unfolding drop_passed
drop_step a n position e = rw (e) refl

drop_stop :
    (a : ℕ → Sync) (n position : ℕ)
    → is_passed position (a 1) ≡ false
    → drop_passed a (suc n) position ≡ (a, suc n)
unfolding drop_passed
drop_stop a n position e = rw (e) refl

drop_passed-Dropped :
    (a : ℕ → Sync) (n position : ℕ) → IsHeap a n → Dropped a n position (drop_passed a n position)
unfolding drop_passed
drop_passed-Dropped a zero position h = record {
  order = h;
  fewer = omega arith;
  kept = λ x y. y;
  passed = λ x y. inl y;
  stops = inl refl;
}
drop_passed-Dropped a (suc n) position h = elim (Bool-cases (is_passed position (a 1))) [
  | inl e ↦
      let b = drop_first a (suc n) in
      let rest = drop_passed-Dropped b n position (drop_first-IsHeap a n h) in
      subst (Dropped a (suc n) position) (sym (drop_step a n position e)) record {
        order = rest.order;
        fewer = omega (arith, rest.fewer);
        kept = λ x y. Held-drop_first a n x (rest.kept x y);
        passed = λ x y. elim (drop_first-Held a n x y) [
          | inl z ↦ rest.passed x z
          | inr z ↦ inr (ap (is_passed position) (sym z) ∙ e)
        ];
        stops = rest.stops;
      }
  | inr e ↦ subst (Dropped a (suc n) position) (sym (drop_stop a n position e)) record {
    order = h;
    fewer = omega arith;
    kept = λ x y. y;
    passed = λ x y. inl y;
    stops = inr e;
  }
]

-- What `next_sync` gives: the position and the length of a point, and the points after it.
pub record Next (s : Syncs) (position : ℕ) (r : (ℕ × ℕ) × Syncs) : Type 0 where
  pub order : IsHeap r.1.synx r.1.nsynx
  pub fewer : r.1.nsynx ≤ s.nsynx
  pub kept : (x : Sync) → Held r.1.synx r.1.nsynx x → Held s.synx s.nsynx x
  pub passed :
      (x : Sync) → Held s.synx s.nsynx x → Held r.1.synx r.1.nsynx x ⊎ (is_passed position x ≡ true)
  pub point :
      ((r.1.nsynx ≡ 0) × (r.0 ≡ (0, 0)))
      ⊎ ((x : Sync) × (Held r.1.synx r.1.nsynx x
            × ((r.0 ≡ (x.pos, x.length_)) × (is_passed position x ≡ false))))
  pub least : (x : Sync) → Held r.1.synx r.1.nsynx x → r.0.0 ≤ x.pos

first_point :
    (a : ℕ → Sync) (n position : ℕ)
    → (n ≡ 0) ⊎ (is_passed position (a 1) ≡ false)
    → ((n ≡ 0) × (first_pos a n ≡ (0, 0)))
      ⊎ ((x : Sync) × (Held a n x
            × ((first_pos a n ≡ (x.pos, x.length_)) × (is_passed position x ≡ false))))
first_point a zero position h = inl (refl, refl)
first_point a (suc n) position (inl e) = absurd (omega arith)
first_point a (suc n) position (inr e) =
    let here : Held a (suc n) (a 1) = record {
      index = 1;
      first = omega arith;
      last = omega arith;
      here = refl;
    } in
    inr (a 1, (here, (refl, e)))

least_point :
    (a : ℕ → Sync) (n : ℕ) (x : Sync) → IsHeap a n → Held a n x → (first_pos a n).0 ≤ x.pos
least_point a zero x h y = omega (arith, y.first, y.last)
least_point a (suc n) x h y =
    subst (λ z. (a 1).pos ≤ z.pos) y.here
      (IsHeap-first y.index a (suc n) y.index h y.first (omega arith) y.last)

-- For points in order, `next_sync` ends, and leaves points in order. All that it leaves were there,
-- and all that it drops end at the position or before. It gives the position and the length of a
-- point that is left and has not ended, the least position of all that are left; or zeros, when no
-- point is left.
pub next_sync-Next :
    (s : Syncs) (position : ℕ) → IsHeap s.synx s.nsynx → Next s position (next_sync s position)
unfolding next_sync
next_sync-Next s position h =
    let v = drop_passed-Dropped s.synx s.nsynx position h in
    record {
      order = v.order;
      fewer = v.fewer;
      kept = v.kept;
      passed = v.passed;
      point = let (a, n) = drop_passed s.synx s.nsynx position in first_point a n position v.stops;
      least =
          λ x y. let (a, n) = drop_passed s.synx s.nsynx position in least_point a n x v.order y;
    }
