-- ===== src/Nasmlib/Hashtbl/Update.antt =====
-- What insertions and searches of nasmlib/hashtbl.c do to the map that a table stands for.
use nasm.Prelude.{
  ℕ, ◌+◌, ◌≡◌, ◌⊎◌, refl, sym, ap, ◌∙◌, Bool, true, false, List, Option, none, some, if◌then◌else◌,
  arith, Bool-cases, inl, inr,
}
use mathlib.Core.Path.{subst}
use nasm.Nasmlib.Hashtbl.{
  HashNode, Table, HashTable, HashInsert, found, absent, hash_find_by, hash_init, hash_init_size,
  hash_pos, empty_table, put_node, expand_if_full, hash_add,
}
use nasm.Nasmlib.Hashtbl.Keys.{IsKeyed}
use nasm.Nasmlib.Hashtbl.Slots.{slot-lt}
use nasm.Nasmlib.Hashtbl.Count.{count-empty}
use nasm.Nasmlib.Hashtbl.Invariant.{IsNode, Bound, empty-IsFilled}
use nasm.Nasmlib.Hashtbl.Rehash.{IsFree}
use nasm.Nasmlib.Hashtbl.Map.{
  IsFull, IsTableOf, IsHashTable, slot_data, found_data, hash_get, node_data, cases, get_node,
  get_none,
}
use nasm.Nasmlib.Hashtbl.Added.{Added, expand-Added}

-- The node in a slot.
abbrev pub slot_node : Option Table → ℕ → Option HashNode
slot_node none p = none
slot_node (some t) p = t p

pub same_insert : (i j : HashInsert) → some (absent i) ≡ some (absent j) → i ≡ j
same_insert i j h = cc

pub not_both : (p : ℕ) (i : HashInsert) → some (found p) ≡ some (absent i) → ⊥
not_both p i h = cc

contradict : (a : Bool) → a ≡ true → a ≡ false → ⊥
contradict a h h' = cc

-- An empty table, as `hash_add` makes it.
init-IsFull :
    (calc : List ℕ → ℕ) (same : List ℕ → List ℕ → Bool) → IsFull calc same hash_init empty_table
init-IsFull calc same = record {
  width = 4;
  is_power = refl;
  large = omega arith;
  filled = empty-IsFilled calc same hash_init_size;
  counted = sym (count-empty hash_init_size);
  light = omega arith;
  limit = refl;
}

empty-IsFree : (hash : ℕ) → IsFree empty_table hash_init_size hash (hash_pos hash hash_init_size)
empty-IsFree hash = record {
  round = 0;
  at_ = refl;
  inside = slot-lt hash_init_size hash 0 (omega arith);
  free = refl;
  before = λ i h. absurd (omega arith);
}

no_node : (y : HashNode) → none ≡ some y → ⊥
no_node y h = cc

module _ (calc : List ℕ → ℕ) (same : List ℕ → List ℕ → Bool) (keyed : IsKeyed calc same) where
  -- What a table says of every key, in terms of its nodes.
  abbrev pub Reads : HashTable → Table → ℕ → Type 0
  Reads head t size =
      (key : List ℕ)
      → ((p : ℕ) × (x : HashNode) × Bound same t size key p x
          × (hash_get calc same head key ≡ some x.data_))
        ⊎ (((p : ℕ) (x : HashNode) → Bound same t size key p x → ⊥)
            × (hash_get calc same head key ≡ none))

  pub made-Reads :
      (head : HashTable) (t : Table)
      → head.table ≡ some t
      → IsFull calc same head t
      → Reads head t head.size
  made-Reads head t e f key = elim (cases calc same keyed head t key f) [
    | inl (p, x, b, s) ↦ inl (p, x, b, get_node calc same keyed head t key p x e f b)
    | inr a ↦ inr (a.nowhere, get_none calc same keyed head t key e f a.nowhere)
  ]

  pub unmade_find :
      (head : HashTable) (key : List ℕ)
      → head.table ≡ none
      → hash_find_by calc same head key
        ≡ some (absent record { where_ = none; node_hash = calc key; node_key = key })
  unfolding hash_find_by
  unmade_find head key e = rw (hash_find_by, e) refl

  unmade-Reads : (head : HashTable) → head.table ≡ none → Reads head empty_table hash_init_size
  unfolding hash_find_by
  unmade-Reads head e key =
      inr ((λ p x b. no_node x b.node.here), ap (found_data head.table) (unmade_find head key e))

  -- A table with one more node, as a map.
  pub updated :
      (old : HashTable) (t : Table) (size : ℕ) (x : HashNode) (head : HashTable) (t' : Table)
      (np : ℕ) (key : List ℕ)
      → Reads old t size
      → Added calc same t size x head t' np
      → hash_get calc same head key
        ≡ (if same x.key key then some x.data_ else hash_get calc same old key)
  updated old t size x head t' np key reads a = elim (Bool-cases (same x.key key)) [
    | inl s ↦
        get_node calc same keyed head t' key np x a.made a.full
          record { node = a.there; equal = keyed.same_symm x.key key s }
        ∙ sym (ap (λ b. if b then some x.data_ else hash_get calc same old key) s)
    | inr s ↦ other s ∙ sym (ap (λ b. if b then some x.data_ else hash_get calc same old key) s)
  ]
    where
      other : same x.key key ≡ false → hash_get calc same head key ≡ hash_get calc same old key
      other s = elim (reads key) [
        | inl (p, y, b, e) ↦
            let (q, n) = a.is p y b.node in
            get_node calc same keyed head t' key q y a.made a.full
              record { node = n; equal = b.equal }
            ∙ sym e
        | inr (nowhere, e) ↦
            get_none calc same keyed head t' key a.made a.full (λ q y b. elim (a.was q y b.node) [
              | inl z ↦
                  contradict (same x.key key)
                    (keyed.same_symm key x.key (subst (λ w. same key w.key ≡ true) z b.equal)) s
              | inr (p, n) ↦ nowhere p y record { node = n; equal = b.equal }
            ])
            ∙ sym e
      ]

  pub read_back :
      (head : HashTable) (t' : Table) (size np : ℕ) (x : HashNode)
      → head.table ≡ some t'
      → IsNode t' size np x
      → slot_data head.table np ≡ some x.data_
  read_back head t' size np x e n = ap (λ o. slot_data o np) e ∙ ap node_data n.here

  pub wellformed :
      (head : HashTable) (t : Table)
      → head.table ≡ some t
      → IsFull calc same head t
      → IsHashTable calc same head
  wellformed head t e f = subst (IsTableOf calc same head) (sym e) f

  pub table-IsFull :
      (head : HashTable) (t : Table)
      → head.table ≡ some t
      → IsHashTable calc same head
      → IsFull calc same head t
  table-IsFull head t e h = subst (IsTableOf calc same head) e h

  -- An insertion has been done: the table stands for the map with the new data at the key.
  abbrev pub IsUpdated : HashTable → List ℕ → ℕ → Option (HashTable × ℕ) → Type 0
  IsUpdated old key data_ r =
      (head : HashTable) × (np : ℕ) × (r ≡ some (head, np))
      × IsHashTable calc same head
      × (slot_data head.table np ≡ some data_)
      × ((key' : List ℕ)
          → hash_get calc same head key'
            ≡ (if same key key' then some data_ else hash_get calc same old key'))

  pub add_unmade :
      (head : HashTable) (key : List ℕ) (data_ : ℕ)
      → head.table ≡ none
      → IsUpdated head key data_
          (hash_add head record { where_ = none; node_hash = calc key; node_key = key } data_)
  unfolding hash_add
  add_unmade head key data_ e =
      let x : HashNode = record { hash = calc key; key = key; data_ = data_ } in
      let (head', np, t', step, a) =
        expand-Added calc same keyed hash_init empty_table (hash_pos (calc key) hash_init_size) x
          (init-IsFull calc same) (empty-IsFree (calc key)) refl
          (λ q y n. absurd (no_node y n.here)) in
      (
        head',
        np,
        step,
        wellformed head' t' a.made a.full,
        read_back head' t' head'.size np x a.made a.there,
        λ key'. updated head empty_table hash_init_size x head' t' np key' (unmade-Reads head e) a,
      )

  pub add_step :
      (head : HashTable) (t : Table) (np : ℕ) (key : List ℕ) (data_ : ℕ)
      → head.table ≡ some t
      → hash_add head record { where_ = some np; node_hash = calc key; node_key = key } data_
        ≡ expand_if_full
            (record head { load = head.load + 1 })
            (put_node t np record { hash = calc key; key = key; data_ = data_ })
            np
  unfolding hash_add
  add_step head t np key data_ e = rw (hash_add, e) refl
