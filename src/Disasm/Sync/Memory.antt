-- ===== src/Disasm/Sync/Memory.antt =====
-- The points of disasm/sync.c when no memory is to be had for more.
use nasm.Prelude.{
  ℕ, zero, suc, ◌+◌, ◌-◌, ◌*◌, ◌%◌, ◌^◌, ◌||◌, not, ◌≤◌, ◌≡◌, ◌⊎◌, refl, ap, ◌∙◌, Bool, true, false,
  List, [], ◌∷◌, Option, none, some, All, length, take, ltb, leb, arith, inl, inr,
}
use nasm.Disasm.Sync.{Sync, Syncs, add_sync}
use nasm.Disasm.Sync.Heap.{IsHeap, Held}
use nasm.Disasm.Sync.Add.{add_sync-Added}

refused :
    (realloc : Bool) (s : Syncs) (pos len : ℕ)
    → leb s.max_synx s.nsynx ≡ true
    → (s.synx_oom || (ltb (s.max_synx * 2 % 2 ^ 64) s.max_synx || not realloc)) ≡ true
    → add_sync realloc s pos len ≡ some (record s { synx_oom = true })
unfolding add_sync
refused realloc s pos len e h = rw (e) rw (h) refl

or_true : (a b : Bool) → (a || (b || true)) ≡ true
or_true true b = refl
or_true false true = refl
or_true false false = refl

-- Points added one after the other, while `realloc` finds no memory.
abbrev pub add_next : List Sync → Option Syncs → (Syncs → Option Syncs) → Option Syncs
add_next rest none f = none
add_next rest (some s) f = f s

unfoldable pub add_all : List Sync → Syncs → Option Syncs
unfolding add_sync
add_all [] s = some s
add_all (p ∷ rest) s = add_next rest (add_sync false s p.pos p.length_) (add_all rest)

abbrev pub Among : Sync → List Sync → Type 0
Among x [] = ⊥
Among x (p ∷ rest) = (p ≡ x) ⊎ Among x rest

-- The points are those of before and the first `room` of the new ones.
pub record AddedFirst (s : Syncs) (room : ℕ) (points : List Sync) (t : Syncs) : Type 0 where
  pub size : t.max_synx ≡ s.max_synx
  pub count : t.nsynx ≡ s.nsynx + length (take room points)
  pub order : IsHeap t.synx t.nsynx
  pub kept : (x : Sync) → Held s.synx s.nsynx x → Held t.synx t.nsynx x
  pub new : All (Held t.synx t.nsynx) (take room points)
  pub only : (x : Sync) → Held t.synx t.nsynx x → Held s.synx s.nsynx x ⊎ Among x (take room points)

nothing_new : (s : Syncs) (room : ℕ) → IsHeap s.synx s.nsynx → AddedFirst s room [] s
nothing_new s zero h = record {
  size = refl;
  count = omega arith;
  order = h;
  kept = λ x y. y;
  new = tt;
  only = λ x y. inl y;
}
nothing_new s (suc room) h = record {
  size = refl;
  count = omega arith;
  order = h;
  kept = λ x y. y;
  new = tt;
  only = λ x y. inl y;
}

-- A point that is dropped.
full_step :
    (s : Syncs) (p : Sync) (rest : List Sync)
    → s.max_synx ≤ s.nsynx
    → add_all (p ∷ rest) s ≡ add_all rest (record s { synx_oom = true })
unfolding add_all
full_step s p rest h =
    ap (λ r. add_next rest r (add_all rest))
      (refused false s p.pos p.length_ full
        (or_true s.synx_oom (ltb (s.max_synx * 2 % 2 ^ 64) s.max_synx)))
  where
    full : leb s.max_synx s.nsynx ≡ true
    full = ground (arith, h)

room_step :
    (s t : Syncs) (p : Sync) (rest : List Sync)
    → add_sync false s p.pos p.length_ ≡ some t
    → add_all (p ∷ rest) s ≡ add_all rest t
unfolding add_all
room_step s t p rest h = ap (λ r. add_next rest r (add_all rest)) h

add_all-steps :
    (points : List Sync) (room : ℕ) (s : Syncs)
    → IsHeap s.synx s.nsynx
    → s.nsynx + room ≡ s.max_synx
    → (t : Syncs) × (add_all points s ≡ some t) × AddedFirst s room points t
unfolding add_all
add_all-steps [] room s h e = (s, refl, nothing_new s room h)
add_all-steps (p ∷ rest) zero s h e =
    let (t, run, a) = add_all-steps rest zero (record s { synx_oom = true }) h (omega (arith, e)) in
    (
      t,
      full_step s p rest (omega (arith, e)) ∙ run,
      record {
        size = a.size;
        count = a.count;
        order = a.order;
        kept = a.kept;
        new = tt;
        only = a.only;
      },
    )
add_all-steps (p ∷ rest) (suc room) s h e =
    let b = add_sync-Added false s p.pos p.length_ h (omega (arith, e)) in
    let (t, run, a) = add_all-steps rest room b.after b.order (omega (arith, e, b.count, b.size)) in
    (
      t,
      room_step s b.after p rest b.result ∙ run,
      record {
        size = a.size ∙ b.size;
        count = omega (arith, a.count, b.count);
        order = a.order;
        kept = λ x y. a.kept x (b.kept x y);
        new = (a.kept p b.new, a.new);
        only = λ x y. elim (a.only x y) [
          | inl z ↦ elim (b.only x z) [ inl old ↦ inl old | inr here ↦ inr (inl here) ]
          | inr later ↦ inr (inr later)
        ];
      },
    )

-- While no memory is to be had for more points, any points are added to points in order without a
-- failure: as many as there is room for, from the first on, are held in order with those of before, and
-- the others are dropped.
pub add_sync_out_of_memory :
    (points : List Sync) (s : Syncs)
    → IsHeap s.synx s.nsynx
    → s.nsynx ≤ s.max_synx
    → (t : Syncs) × (add_all points s ≡ some t) × AddedFirst s (s.max_synx - s.nsynx) points t
add_sync_out_of_memory points s h le =
    add_all-steps points (s.max_synx - s.nsynx) s h (omega (arith, le))
