-- ===== src/Disasm/Sync/Add.antt =====
-- What `add_sync` of disasm/sync.c promises.
use nasm.Prelude.{
  ℕ, ◌+◌, ◌/◌, ◌≤◌, ◌<◌, ◌≡◌, ◌⊎◌, refl, sym, ap, ◌∙◌, Bool, true, false, Option, some, leb, ◌==◌,
  if◌then◌else◌, arith, Bool-cases, inl, inr,
}
use nasm.Disasm.Sync.{Sync, Syncs, stored, push, add_sync}
use nasm.Disasm.Sync.Heap.{IsHeap, Held}
use nasm.Disasm.Sync.Up.{IsAlmost, up-IsHeap, up-SameHeld}

-- What adding a point gives.
pub record Added (s : Syncs) (p : Sync) (r : Option Syncs) : Type 0 where
  pub after : Syncs
  pub result : r ≡ some after
  pub count : after.nsynx ≡ s.nsynx + 1
  pub size : after.max_synx ≡ s.max_synx
  pub room : after.nsynx ≤ after.max_synx
  pub order : IsHeap after.synx after.nsynx
  pub new : Held after.synx after.nsynx p
  pub kept : (x : Sync) → Held s.synx s.nsynx x → Held after.synx after.nsynx x
  pub only : (x : Sync) → Held after.synx after.nsynx x → Held s.synx s.nsynx x ⊎ (p ≡ x)

stored-same : (a : ℕ → Sync) (n k : ℕ) (p : Sync) → k < n → stored a n p k ≡ a k
stored-same a n k p h = let e : (k == n) ≡ false = ground arith in rw (e) refl

stored-last : (a : ℕ → Sync) (n : ℕ) (p : Sync) → stored a n p n ≡ p
stored-last a n p = let e : (n == n) ≡ true = ground arith in rw (e) refl

stored-IsAlmost :
    (a : ℕ → Sync) (n : ℕ) (p : Sync) → IsHeap a n → IsAlmost (stored a (n + 1) p) (n + 1) (n + 1)
stored-IsAlmost a n p h = record {
  others = λ k k1 kn ne.
      rw
        (
          stored-same a (n + 1) (k / 2) p (omega (arith, k1, kn)),
          stored-same a (n + 1) k p (omega (arith, kn, ne)),
        )
        (h k k1 (omega (arith, kn, ne)));
  below = λ k k1 kn e i1. absurd (omega (arith, e, kn, k1));
}

-- A point is added to points with room for one more: the order stays, the number grows by one, and
-- the points are those of before and the new one.
pub add_sync-Added :
    (realloc : Bool) (s : Syncs) (pos len : ℕ)
    → IsHeap s.synx s.nsynx
    → s.nsynx < s.max_synx
    → Added s record { pos = pos; length_ = len } (add_sync realloc s pos len)
unfolding add_sync push
add_sync-Added realloc s pos len h room =
    let n = s.nsynx + 1 in
    let p : Sync = record { pos = pos; length_ = len } in
    let a = stored s.synx n p in
    let same = up-SameHeld n a n n (omega arith) in
    let e : leb s.max_synx s.nsynx ≡ false = ground arith in
    record {
      after = push s pos len;
      result = rw (e) refl;
      count = refl;
      size = refl;
      room = omega (arith, room);
      order = up-IsHeap n a n n (omega arith) (omega arith) (stored-IsAlmost s.synx s.nsynx p h);
      new = same.to p record {
        index = n;
        first = omega arith;
        last = omega arith;
        here = stored-last s.synx n p;
      };
      kept = λ x y. same.to x record {
        index = y.index;
        first = y.first;
        last = omega (arith, y.last);
        here = stored-same s.synx n y.index p (omega (arith, y.last)) ∙ y.here;
      };
      only = λ x y. old_or_new s.synx s.nsynx p x (same.from x y);
    }
  where
    old_or_new :
        (a : ℕ → Sync) (n : ℕ) (p x : Sync)
        → Held (stored a (n + 1) p) (n + 1) x
        → Held a n x ⊎ (p ≡ x)
    old_or_new a n p x y = elim (Bool-cases (y.index == n + 1)) [
      | inl e ↦ inr (ap (λ b. if b then p else a y.index) (sym e) ∙ y.here)
      | inr e ↦ inl record {
        index = y.index;
        first = y.first;
        last = ground (arith, e, y.last);
        here = ap (λ b. if b then p else a y.index) (sym e) ∙ y.here;
      }
    ]
