-- ===== src/Nasmlib/Hashtbl/Rehash.antt =====
-- The nodes of a table of nasmlib/hashtbl.c in one of twice the size.
use nasm.Prelude.{
  ℕ, zero, suc, ◌+◌, ◌^◌, ◌<◌, ◌≡◌, refl, sym, ap, ◌∙◌, Bool, true, false, List, none, some, ◌==◌,
  if◌then◌else◌, arith, Bool-cases, Option-cases, inl, inr,
}
use mathlib.Core.Path.{subst}
use nasm.Nasmlib.Hashtbl.{
  HashNode, Table, Probe, at_miss, search, free_slot, put_node, empty_table, moved_to, rehash_slot,
  rehash,
}
use nasm.Nasmlib.Hashtbl.Keys.{IsKeyed}
use nasm.Nasmlib.Hashtbl.Slots.{slot, slot-lt, two_pow_pos}
use nasm.Nasmlib.Hashtbl.Count.{
  count, occupied, count-empty, count-le, count-put_node, put_node_self,
}
use nasm.Nasmlib.Hashtbl.Probes.{IsMiss, search-cases}
use nasm.Nasmlib.Hashtbl.Invariant.{
  Before, IsNode, IsFilled, empty-IsFilled, IsNode-put_node, put_node-IsNode, put_node-IsFilled,
}

-- The first empty slot for a checksum.
pub record IsFree (t : Table) (size hash p : ℕ) : Type 0 where
  pub round : ℕ
  pub at_ : slot size hash round ≡ p
  pub inside : p < size
  pub free : t p ≡ none
  pub before : Before t size hash round

pub missed-IsFree :
    (same : HashNode → Bool) (t : Table) (size hash : ℕ) (r : Probe)
    → 0 < size
    → (m : IsMiss same t size hash r) → IsFree t size hash (slot size hash m.round)
missed-IsFree same t size hash r some_slot m = record {
  round = m.round;
  at_ = refl;
  inside = slot-lt size hash m.round some_slot;
  free = m.here;
  before = λ i h. let (y, e, d) = m.passed i h in (y, e);
}

free_slot-IsFree :
    (t : Table) (k hash : ℕ)
    → count t (2 ^ k) < 2 ^ k
    → (p : ℕ) × (free_slot t (2 ^ k) hash ≡ some p) × IsFree t (2 ^ k) hash p
unfolding free_slot
free_slot-IsFree t k hash room = elim (search-cases (λ _. false) t k hash room) [
  | inl h ↦ absurd (not_matching h.matching)
  | inr m ↦ (
    slot (2 ^ k) hash m.round,
    ap at_miss m.result,
    missed-IsFree (λ _. false) t (2 ^ k) hash (search (λ _. false) t (2 ^ k) hash) (two_pow_pos k)
        m,
  )
]
  where
    not_matching : false ≡ true → ⊥
    not_matching h = cc

-- After the rounds for the first `i` slots the new table holds the nodes of these; `np` is where the
-- node of the slot `at_` is, if it is one of these.
pub record IsMoved (calc : List ℕ → ℕ) (same : List ℕ → List ℕ → Bool) (old : Table) (new : Table)
    (newsize at_ i np : ℕ) : Type 0 where
  pub filled : IsFilled calc same new newsize
  pub was : (q : ℕ) (y : HashNode) → IsNode new newsize q y → (p : ℕ) × (p < i) × (old p ≡ some y)
  pub is : (p : ℕ) (y : HashNode) → p < i → old p ≡ some y → (q : ℕ) × IsNode new newsize q y
  pub counted : count new newsize ≡ count old i
  pub tracked : (y : HashNode) → at_ < i → old at_ ≡ some y → IsNode new newsize np y

module _ (calc : List ℕ → ℕ) (same : List ℕ → List ℕ → Bool) (keyed : IsKeyed calc same)
    (old : Table) (size k at_ : ℕ) (f : IsFilled calc same old size) (wide : size < 2 ^ k) where
  -- The rounds for an empty slot, and for a node.
  skipped :
      (new : Table) (i np : ℕ)
      → old i ≡ none
      → IsMoved calc same old new (2 ^ k) at_ i np
      → IsMoved calc same old new (2 ^ k) at_ (suc i) np
  skipped new i np e m = record {
    filled = m.filled;
    was = λ q y n. let (p, below, h) = m.was q y n in (p, omega (arith, below), h);
    is = λ p y h e'. m.is p y (not_here p y h e') e';
    counted = (let o : occupied (old i) ≡ 0 = ap occupied e in omega (arith, m.counted, o));
    tracked = λ y h e'. m.tracked y (not_here at_ y h e') e';
  }
    where
      no_node : (y : HashNode) → none ≡ some y → ⊥
      no_node y h = cc

      not_here : (p : ℕ) (y : HashNode) → p < suc i → old p ≡ some y → p < i
      not_here p y h e' = elim (Bool-cases (p == i)) [
        | inl q ↦
            let j : p ≡ i = ground (arith, q) in absurd (no_node y (sym e ∙ ap old (sym j) ∙ e'))
        | inr q ↦ ground (arith, q, h)
      ]

  -- Nodes in the place of one that has just been put there are that one.
  the_node : (x y : HashNode) → some x ≡ some y → x ≡ y
  the_node x y h = cc

  contradict : (b : Bool) → b ≡ true → b ≡ false → ⊥
  contradict b h h' = cc

  taken :
      (new : Table) (i np xp : ℕ) (op : HashNode)
      → i < size
      → old i ≡ some op
      → IsFree new (2 ^ k) op.hash xp
      → IsMoved calc same old new (2 ^ k) at_ i np
      → IsMoved calc same old (put_node new xp op) (2 ^ k) at_ (suc i) (if i == at_ then xp else np)
  taken new i np xp op hi e free m =
      let place = IsNode-put_node calc same new (2 ^ k) xp op m.filled free.free in
      let node : IsNode (put_node new xp op) (2 ^ k) xp op = record {
        inside = free.inside;
        here = put_node_self new xp op;
      } in
      record {
        filled =
            put_node-IsFilled calc same new (2 ^ k) xp op m.filled free.free free.round keyed
              (f.hashed i op record { inside = hi; here = e }) free.at_ free.before
              (λ q y n. elim (Bool-cases (same op.key y.key)) [
                | inl s ↦
                    let (p, below, h) = m.was q y n in
                    let i≡p : i ≡ p =
                      f.apart i p op y record { inside = hi; here = e }
                        record { inside = omega (arith, below, hi); here = h } s in
                    absurd (omega (arith, below, i≡p))
                | inr s ↦ s
              ]);
        was = λ q y n. elim (put_node-IsNode calc same new (2 ^ k) xp op m.filled free.free q y n) [
          | inl (j, y≡op) ↦ (i, omega arith, e ∙ ap some (sym y≡op))
          | inr n' ↦ let (p, below, h) = m.was q y n' in (p, omega (arith, below), h)
        ];
        is = λ p y h e'. elim (Bool-cases (p == i)) [
          | inl b ↦
              let j : p ≡ i = ground (arith, b) in
              (
                xp,
                subst (IsNode (put_node new xp op) (2 ^ k) xp)
                    (the_node op y (sym e ∙ ap old (sym j) ∙ e')) node,
              )
          | inr b ↦ let (q, n) = m.is p y (ground (arith, b, h)) e' in (q, place q y n)
        ];
        counted =
            (let o : occupied (old i) ≡ 1 = ap occupied e in
              omega (arith, m.counted, o, count-put_node new xp op (2 ^ k) free.inside free.free));
        tracked = λ y h e'. elim (Bool-cases (i == at_)) [
          | inl b ↦
              let j : i ≡ at_ = ground (arith, b) in
              subst (λ c. IsNode (put_node new xp op) (2 ^ k) (if c then xp else np) y) (sym b)
                (subst (IsNode (put_node new xp op) (2 ^ k) xp)
                  (the_node op y (sym e ∙ ap old j ∙ e')) node)
          | inr b ↦
              subst (λ c. IsNode (put_node new xp op) (2 ^ k) (if c then xp else np) y) (sym b)
                (place np y (m.tracked y (ground (arith, b, h)) e'))
        ];
      }

  slot_rehashed :
      (new : Table) (i np : ℕ)
      → i < size
      → IsMoved calc same old new (2 ^ k) at_ i np
      → (new' : Table) × (np' : ℕ) × (rehash_slot (old i) new (2 ^ k) at_ i np ≡ some (new', np'))
        × IsMoved calc same old new' (2 ^ k) at_ (suc i) np'
  unfolding rehash_slot
  slot_rehashed new i np hi m = elim (Option-cases (old i)) [
    | inl e ↦ (new, np, ap (λ o. rehash_slot o new (2 ^ k) at_ i np) e, skipped new i np e m)
    | inr (op, e) ↦
        let room : count new (2 ^ k) < 2 ^ k = omega (arith, m.counted, count-le old i, hi, wide) in
        let (xp, step, free) = free_slot-IsFree new k op.hash room in
        (
          put_node new xp op,
          if i == at_ then xp else np,
          ap (λ o. rehash_slot o new (2 ^ k) at_ i np) e
              ∙ ap (moved_to new (2 ^ k) at_ np op i) step,
          taken new i np xp op hi e free m,
        )
  ]

  rehash_step :
      (n : ℕ) (new : Table) (i np : ℕ) (new' : Table) (np' : ℕ)
      → rehash_slot (old i) new (2 ^ k) at_ i np ≡ some (new', np')
      → rehash (suc n) old new (2 ^ k) at_ i np ≡ rehash n old new' (2 ^ k) at_ (suc i) np'
  unfolding rehash
  rehash_step n new i np new' np' h = rw (rehash, h) refl

  -- The loop ends with all nodes in the new table.
  pub rehash-IsMoved :
      (n : ℕ) (new : Table) (i np : ℕ)
      → i + n ≡ size
      → IsMoved calc same old new (2 ^ k) at_ i np
      → (new' : Table) × (np' : ℕ) × (rehash n old new (2 ^ k) at_ i np ≡ some (new', np'))
        × IsMoved calc same old new' (2 ^ k) at_ size np'
  unfolding rehash
  rehash-IsMoved zero new i np h m =
      let e : i ≡ size = omega (arith, h) in
      (new, np, refl, subst (λ j. IsMoved calc same old new (2 ^ k) at_ j np) e m)
  rehash-IsMoved (suc n) new i np h m =
      let (new', np', step, m') = slot_rehashed new i np (omega (arith, h)) m in
      let (t, q, rest, done) = rehash-IsMoved n new' (suc i) np' (omega (arith, h)) m' in
      (t, q, rehash_step n new i np new' np' step ∙ rest, done)

  pub nothing-IsMoved : (np : ℕ) → IsMoved calc same old empty_table (2 ^ k) at_ 0 np
  nothing-IsMoved np = record {
    filled = empty-IsFilled calc same (2 ^ k);
    was = λ q y n. absurd (no_slot y n.here);
    is = λ p y h e. absurd (omega arith);
    counted = count-empty (2 ^ k);
    tracked = λ y h e. absurd (omega arith);
  }
    where
      no_slot : (y : HashNode) → none ≡ some y → ⊥
      no_slot y h = cc
