-- ===== src/Nasmlib/Hashtbl/Invariant.antt =====
-- What holds of the table of nasmlib/hashtbl.c, and that a new node keeps it.
use nasm.Prelude.{
  ℕ, ◌^◌, ◌<◌, ◌≡◌, ◌⊎◌, sym, ap, ◌∙◌, Bool, true, false, ◌&&◌, List, none, some, ltb, ltb→lt, ◌==◌,
  arith, Bool-cases, inl, inr,
}
use mathlib.Core.Path.{subst}
use nasm.Nasmlib.Hashtbl.{HashNode, Table, Probe, hit, search, matches, put_node, empty_table}
use nasm.Nasmlib.Hashtbl.Keys.{IsKeyed}
use nasm.Nasmlib.Hashtbl.Slots.{slot, slot-lt, two_pow_pos}
use nasm.Nasmlib.Hashtbl.Count.{count, put_node_self, put_node_other}
use nasm.Nasmlib.Hashtbl.Probes.{IsMiss, search-cases}

-- The slots that the loop comes to before a round are occupied.
abbrev pub Before : Table → ℕ → ℕ → ℕ → Type 0
Before t size hash m = (i : ℕ) → i < m → (y : HashNode) × (t (slot size hash i) ≡ some y)

-- A node of the table.
pub record IsNode (t : Table) (size p : ℕ) (x : HashNode) : Type 0 where
  pub inside : p < size
  pub here : t p ≡ some x

pub record IsFilled (calc : List ℕ → ℕ) (same : List ℕ → List ℕ → Bool) (t : Table) (size : ℕ)
    : Type 0 where
  pub hashed : (p : ℕ) (x : HashNode) → IsNode t size p x → x.hash ≡ calc x.key
  pub reached :
      (p : ℕ) (x : HashNode)
      → IsNode t size p x
      → (m : ℕ) × (slot size x.hash m ≡ p) × Before t size x.hash m
  pub apart :
      (p q : ℕ) (x y : HashNode)
      → IsNode t size p x
      → IsNode t size q y
      → same x.key y.key ≡ true
      → p ≡ q

no_node : (x : HashNode) → none ≡ some x → ⊥
no_node x h = cc

some_eq : (x y : HashNode) → some x ≡ some y → x ≡ y
some_eq x y h = cc

pub empty-IsFilled :
    (calc : List ℕ → ℕ) (same : List ℕ → List ℕ → Bool) (size : ℕ)
    → IsFilled calc same empty_table size
empty-IsFilled calc same size = record {
  hashed = λ p x n. absurd (no_node x n.here);
  reached = λ p x n. absurd (no_node x n.here);
  apart = λ p q x y n n' h. absurd (no_node x n.here);
}

-- A node with the key, or with one that compares equal.
pub record Bound (same : List ℕ → List ℕ → Bool) (t : Table) (size : ℕ) (key : List ℕ) (p : ℕ)
    (x : HashNode) : Type 0 where
  pub node : IsNode t size p x
  pub equal : same key x.key ≡ true

-- The search finds the node of the key, or comes to an empty slot when there is none.
pub record Absent (same : List ℕ → List ℕ → Bool) (t : Table) (size hash : ℕ) (key : List ℕ)
    (r : Probe) : Type 0 where
  pub missed : IsMiss (matches same hash key) t size hash r
  pub nowhere : (p : ℕ) (x : HashNode) → Bound same t size key p x → ⊥

both_of : (a b : Bool) → (a && b) ≡ true → b ≡ true
both_of a b h = ground arith

both_are : (a b : Bool) → a ≡ true → b ≡ true → (a && b) ≡ true
both_are a b h h' = ground arith

contradict : (a : Bool) → a ≡ true → a ≡ false → ⊥
contradict a h h' = cc

-- A loop that goes through the slots before a node and the node itself does not miss it.
not_missed :
    (same : List ℕ → List ℕ → Bool) (t : Table) (size hash : ℕ) (key : List ℕ) (p : ℕ)
    (x : HashNode) (n : ℕ) (r : Probe)
    → IsMiss (matches same hash key) t size hash r
    → Bound same t size key p x
    → hash ≡ x.hash
    → slot size hash n ≡ p
    → Before t size hash n
    → ⊥
not_missed same t size hash key p x n r m b e at_ before = elim (Bool-cases (ltb n m.round)) [
  | inl earlier ↦
      let (y, there, other) = m.passed n (ltb→lt n m.round earlier) in
      let same_node : y ≡ x = some_eq y x (sym there ∙ ap t at_ ∙ b.node.here) in
      contradict (matches same hash key y)
        (ap (matches same hash key) same_node
          ∙ both_are (hash == x.hash) (same key x.key) (equal_hash e) b.equal)
        other
  | inr later ↦ elim (Bool-cases (ltb m.round n)) [
    | inl k ↦ let (y, there) = before m.round (ltb→lt m.round n k) in no_node y (sym m.here ∙ there)
    | inr k ↦
        let i : m.round ≡ n = ground (arith, later, k) in
        no_node x (sym m.here ∙ ap (λ j. t (slot size hash j)) i ∙ ap t at_ ∙ b.node.here)
  ]
]
  where
    equal_hash : hash ≡ x.hash → (hash == x.hash) ≡ true
    equal_hash e = ground (arith, e)

pub find-cases :
    (calc : List ℕ → ℕ) (same : List ℕ → List ℕ → Bool) (t : Table) (k : ℕ) (key : List ℕ)
    → IsKeyed calc same
    → IsFilled calc same t (2 ^ k)
    → count t (2 ^ k) < 2 ^ k
    → ((p : ℕ) × (x : HashNode) × Bound same t (2 ^ k) key p x
        × (search (matches same (calc key) key) t (2 ^ k) (calc key) ≡ hit p))
      ⊎ Absent same t
          (2 ^ k)
          (calc key)
          key
          (search (matches same (calc key) key) t (2 ^ k) (calc key))
find-cases calc same t k key keyed f room =
    let size = 2 ^ k in
    let hash = calc key in
    elim (search-cases (matches same hash key) t k hash room) [
      | inl h ↦ inl (
        slot size hash h.round,
        h.node,
        record {
          node = record { inside = slot-lt size hash h.round (two_pow_pos k); here = h.here };
          equal = both_of (hash == h.node.hash) (same key h.node.key) h.matching;
        },
        h.result,
      )
      | inr m ↦ inr record {
        missed = m;
        nowhere = λ p x b.
            let e : x.hash ≡ hash = f.hashed p x b.node ∙ sym (keyed.calc-same key x.key b.equal) in
            let (n, at_, before) = f.reached p x b.node in
            not_missed same t size hash key p x n (search (matches same hash key) t size hash) m b
              (sym e) (subst (λ h. slot size h n ≡ p) e at_)
              (subst (λ h. Before t size h n) e before);
      }
    ]

-- A table with one more node, at the first empty slot that the loop comes to.
module _ (calc : List ℕ → ℕ) (same : List ℕ → List ℕ → Bool) (t : Table) (size p : ℕ) (x : HashNode)
    (f : IsFilled calc same t size) (free : t p ≡ none) where
  pub put_node-IsNode :
      (q : ℕ) (y : HashNode)
      → IsNode (put_node t p x) size q y
      → ((q ≡ p) × (y ≡ x)) ⊎ IsNode t size q y
  put_node-IsNode q y n = elim (Bool-cases (q == p)) [
    | inl e ↦
        let i : q ≡ p = ground (arith, e) in
        inl (i, some_eq y x (sym n.here ∙ ap (put_node t p x) i ∙ put_node_self t p x))
    | inr e ↦ inr record { inside = n.inside; here = sym (put_node_other t p q x e) ∙ n.here }
  ]

  -- The slot of a node that was there is another one.
  kept : (q : ℕ) (y : HashNode) → t q ≡ some y → put_node t p x q ≡ some y
  kept q y h = elim (Bool-cases (q == p)) [
    | inl e ↦ let i : q ≡ p = ground (arith, e) in absurd (no_node y (sym free ∙ ap t (sym i) ∙ h))
    | inr e ↦ put_node_other t p q x e ∙ h
  ]

  pub IsNode-put_node :
      (q : ℕ) (y : HashNode) → IsNode t size q y → IsNode (put_node t p x) size q y
  IsNode-put_node q y n = record { inside = n.inside; here = kept q y n.here }

  put_node-Before : (hash m : ℕ) → Before t size hash m → Before (put_node t p x) size hash m
  put_node-Before hash m b i h = let (y, e) = b i h in (y, kept (slot size hash i) y e)

  pub put_node-IsFilled :
      (m : ℕ)
      → IsKeyed calc same
      → x.hash ≡ calc x.key
      → slot size x.hash m ≡ p
      → Before t size x.hash m
      → ((q : ℕ) (y : HashNode) → IsNode t size q y → same x.key y.key ≡ false)
      → IsFilled calc same (put_node t p x) size
  put_node-IsFilled m keyed hashed at_ before fresh = record {
    hashed = λ q y n. elim (put_node-IsNode q y n) [
      | inl (i, e) ↦ subst (λ z. z.hash ≡ calc z.key) (sym e) hashed
      | inr old ↦ f.hashed q y old
    ];
    reached = λ q y n. elim (put_node-IsNode q y n) [
      | inl (i, e) ↦
          subst (λ z. (m : ℕ) × (slot size z.hash m ≡ q) × Before (put_node t p x) size z.hash m)
            (sym e) (m, at_ ∙ sym i, put_node-Before x.hash m before)
      | inr old ↦ let (j, there, b) = f.reached q y old in (j, there, put_node-Before y.hash j b)
    ];
    apart = λ q r y z n n' h. elim (put_node-IsNode q y n) [
      | inl (i, e) ↦ elim (put_node-IsNode r z n') [
        | inl (i', e') ↦ i ∙ sym i'
        | inr old ↦ absurd (
            contradict (same y.key z.key) h
              (subst (λ w. same w.key z.key ≡ false) (sym e) (fresh r z old)))
      ]
      | inr old ↦ elim (put_node-IsNode r z n') [
        | inl (i, e) ↦ absurd (
            contradict (same x.key y.key)
              (keyed.same_symm y.key x.key (subst (λ w. same y.key w.key ≡ true) e h))
              (fresh q y old))
        | inr old' ↦ f.apart q r y z old old' h
      ]
    ];
  }
