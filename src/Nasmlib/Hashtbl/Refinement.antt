-- ===== src/Nasmlib/Hashtbl/Refinement.antt =====
-- Insertions and searches of nasmlib/hashtbl.c, for every table.
use nasm.Prelude.{
  ℕ, zero, suc, ◌≤◌, ◌<◌, ◌||◌, ◌≡◌, ◌⊎◌, refl, sym, ap, ◌∙◌, Bool, true, false, List, Option, none,
  some, if◌then◌else◌, arith, Option-cases, inl, inr,
}
use mathlib.Core.Path.{subst}
use nasm.Nasmlib.Hashtbl.{
  HashNode, Table, HashTable, HashInsert, found, absent, of_probe, matches, search, hash_find_by,
  hash_add,
}
use nasm.Nasmlib.Hashtbl.Keys.{IsKeyed}
use nasm.Nasmlib.Hashtbl.Slots.{slot}
use nasm.Nasmlib.Hashtbl.Invariant.{Bound, Absent}
use nasm.Nasmlib.Hashtbl.Rehash.{IsFree, missed-IsFree}
use nasm.Nasmlib.Hashtbl.Map.{
  IsFull, IsHashTable, slot_data, node_data, hash_get, cases, search_made,
}
use nasm.Nasmlib.Hashtbl.Added.{expand-Added}
use nasm.Nasmlib.Hashtbl.Update.{
  slot_node, IsUpdated, same_insert, not_both, made-Reads, updated, read_back, wellformed,
  table-IsFull, add_step, add_unmade, unmade_find,
}

unequal : (b : Bool) → (b ≡ true → ⊥) → b ≡ false
unequal true h = absurd (h refl)
unequal false h = refl

module _ (calc : List ℕ → ℕ) (same : List ℕ → List ℕ → Bool) (keyed : IsKeyed calc same) where
  -- Where the search for an absent key ended.
  place :
      (head : HashTable) (t : Table) (key : List ℕ) (f : IsFull calc same head t)
      → (a : Absent same t head.size
          (calc key)
          key
          (search (matches same (calc key) key) t head.size (calc key)))
      → IsFree t head.size (calc key) (slot head.size (calc key) a.missed.round)
  place head t key f a =
      missed-IsFree (matches same (calc key) key) t head.size (calc key)
        (search (matches same (calc key) key) t head.size (calc key)) (omega (arith, f.large))
        a.missed

  add_made :
      (head : HashTable) (t : Table) (key : List ℕ) (data_ : ℕ)
      → (e : head.table ≡ some t) → (f : IsFull calc same head t)
      → (a : Absent same t head.size
          (calc key)
          key
          (search (matches same (calc key) key) t head.size (calc key)))
      → IsUpdated calc same keyed head key data_ (
          hash_add head
            record {
              where_ = some (slot head.size (calc key) a.missed.round);
              node_hash = calc key;
              node_key = key;
            }
            data_)
  add_made head t key data_ e f a =
      let np = slot head.size (calc key) a.missed.round in
      let x : HashNode = record { hash = calc key; key = key; data_ = data_ } in
      let (head', np', t', step, done) =
        expand-Added calc same keyed head t np x f (place head t key f a) refl
          (λ q y n. unequal (same key y.key) (λ s. a.nowhere q y record { node = n; equal = s })) in
      (
        head',
        np',
        add_step calc same keyed head t np key data_ e ∙ step,
        wellformed calc same keyed head' t' done.made done.full,
        read_back calc same keyed head' t' head'.size np' x done.made done.there,
        λ key'.
            updated calc same keyed head t head.size x head' t' np' key'
              (made-Reads calc same keyed head t e f) done,
      )

-- A comparison of a key with the node in a slot, and with all nodes in the first slots.
abbrev pub holds : (List ℕ → List ℕ → Bool) → List ℕ → Option HashNode → Bool
holds same key none = false
holds same key (some x) = same key x.key

-- Where a slot has the key, it has data.
pub holds-slot_data :
    (same : List ℕ → List ℕ → Bool) (key : List ℕ) (table : Option Table) (p : ℕ)
    → holds same key (slot_node table p) ≡ true
    → (i : ℕ) × (slot_data table p ≡ some i)
holds-slot_data same key none p h = absurd (impossible h)
  where
    impossible : false ≡ true → ⊥
    impossible h = cc
holds-slot_data same key (some t) p h = node (t p) h
  where
    impossible : false ≡ true → ⊥
    impossible h = cc

    node : (o : Option HashNode) → holds same key o ≡ true → (i : ℕ) × (node_data o ≡ some i)
    node none h = absurd (impossible h)
    node (some x) h = (x.data_, refl)

abbrev pub scan : (List ℕ → List ℕ → Bool) → List ℕ → Option Table → ℕ → Bool
scan same key table zero = false
scan same key table (suc n) = holds same key (slot_node table n) || scan same key table n

neither : (a b : Bool) → a ≡ false → b ≡ false → (a || b) ≡ false
neither a b h h' = ground arith

scan-none :
    (same : List ℕ → List ℕ → Bool) (key : List ℕ) (t : Table) (size n : ℕ)
    → ((p : ℕ) (x : HashNode) → Bound same t size key p x → ⊥)
    → n ≤ size
    → scan same key (some t) n ≡ false
scan-none same key t size zero nowhere h = refl
scan-none same key t size (suc n) nowhere h =
    neither (holds same key (t n)) (scan same key (some t) n)
      (elim (Option-cases (t n)) [
        | inl e ↦ ap (holds same key) e
        | inr (x, e) ↦
            ap (holds same key) e
            ∙ unequal (same key x.key) (λ s.
              nowhere n x
                record { node = record { inside = omega (arith, h); here = e }; equal = s })
      ])
      (scan-none same key t size n nowhere (omega (arith, h)))

scan-unmade : (same : List ℕ → List ℕ → Bool) (key : List ℕ) (n : ℕ) → scan same key none n ≡ false
scan-unmade same key zero = refl
scan-unmade same key (suc n) = scan-unmade same key n

-- For a comparison that is an equivalence which the checksum respects: in a well-formed table whose
-- search says that a key is absent, `hash_add` with what the search stored ends. It leaves a
-- well-formed table, whether it had to be made or has been expanded, and the slot it returns has the
-- data. Every search afterwards leads to the data, for a key that compares equal, and otherwise to
-- what it led to before.
pub hash_add-hash_find :
    (calc : List ℕ → ℕ) (same : List ℕ → List ℕ → Bool) (head : HashTable) (key : List ℕ)
    (data_ : ℕ) (insert : HashInsert)
    → IsKeyed calc same
    → IsHashTable calc same head
    → hash_find_by calc same head key ≡ some (absent insert)
    → (head' : HashTable) × (np : ℕ) × (hash_add head insert data_ ≡ some (head', np))
      × IsHashTable calc same head'
      × (slot_data head'.table np ≡ some data_)
      × ((key' : List ℕ)
          → hash_get calc same head' key'
            ≡ (if same key key' then some data_ else hash_get calc same head key'))
hash_add-hash_find calc same head key data_ insert keyed ok h = elim (Option-cases head.table) [
  | inl e ↦
      subst (λ i. IsUpdated calc same keyed head key data_ (hash_add head i data_))
        (same_insert record { where_ = none; node_hash = calc key; node_key = key } insert
          (sym (unmade_find calc same keyed head key e) ∙ h))
        (add_unmade calc same keyed head key data_ e)
  | inr (t, e) ↦
      let f = table-IsFull calc same keyed head t e ok in
      let made = search_made calc same keyed head t key e in
      elim (cases calc same keyed head t key f) [
        | inl (p, x, b, s) ↦
            absurd (not_both p insert (sym (made ∙ ap (of_probe (calc key) key) s) ∙ h))
        | inr a ↦
            subst (λ i. IsUpdated calc same keyed head key data_ (hash_add head i data_))
              (same_insert
                record {
                  where_ = some (slot head.size (calc key) a.missed.round);
                  node_hash = calc key;
                  node_key = key;
                }
                insert (sym (made ∙ ap (of_probe (calc key) key) a.missed.result) ∙ h))
              (add_made calc same keyed head t key data_ e f a)
      ]
]

-- For such a comparison, a search in a well-formed table ends: at a slot whose node has the key, or,
-- where no slot of the table has one with it, with what an insertion wants.
pub hash_find_ends :
    (calc : List ℕ → ℕ) (same : List ℕ → List ℕ → Bool) (head : HashTable) (key : List ℕ)
    → IsKeyed calc same
    → IsHashTable calc same head
    → ((p : ℕ) × (hash_find_by calc same head key ≡ some (found p))
        × (p < head.size)
        × (holds same key (slot_node head.table p) ≡ true))
      ⊎ ((insert : HashInsert) × (hash_find_by calc same head key ≡ some (absent insert))
          × (scan same key head.table head.size ≡ false))
hash_find_ends calc same head key keyed ok = elim (Option-cases head.table) [
  | inl e ↦ inr (
    record { where_ = none; node_hash = calc key; node_key = key },
    unmade_find calc same keyed head key e,
    ap (λ o. scan same key o head.size) e ∙ scan-unmade same key head.size,
  )
  | inr (t, e) ↦
      let f = table-IsFull calc same keyed head t e ok in
      let made = search_made calc same keyed head t key e in
      elim (cases calc same keyed head t key f) [
        | inl (p, x, b, s) ↦ inl (
          p,
          made ∙ ap (of_probe (calc key) key) s,
          b.node.inside,
          ap (λ o. holds same key (slot_node o p)) e ∙ ap (holds same key) b.node.here ∙ b.equal,
        )
        | inr a ↦ inr (
          record {
            where_ = some (slot head.size (calc key) a.missed.round);
            node_hash = calc key;
            node_key = key;
          },
          made ∙ ap (of_probe (calc key) key) a.missed.result,
          ap (λ o. scan same key o head.size) e
              ∙ scan-none same key t head.size head.size a.nowhere (omega arith),
        )
      ]
]
