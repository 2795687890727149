-- ===== src/Nasmlib/Hashtbl/Map.antt =====
-- The hash tables of nasmlib/hashtbl.c as maps.
use nasm.Prelude.{
  ℕ, ◌^◌, ◌≤◌, ◌<◌, ◌≡◌, ◌⊎◌, refl, sym, ap, ◌∙◌, Bool, List, Option, none, some, arith, inl, inr,
}
use mathlib.Core.Path.{subst}
use nasm.Nasmlib.Hashtbl.{
  HashNode, Table, HashTable, Found, found, absent, hit, of_probe, matches, search, hash_find_by,
  hash_init_size, hash_max_load,
}
use nasm.Nasmlib.Hashtbl.Keys.{IsKeyed}
use nasm.Nasmlib.Hashtbl.Count.{count}
use nasm.Nasmlib.Hashtbl.Invariant.{IsFilled, Bound, Absent, find-cases}

-- A table that has been made.
pub record IsFull (calc : List ℕ → ℕ) (same : List ℕ → List ℕ → Bool) (head : HashTable) (t : Table)
    : Type 0 where
  pub width : ℕ
  pub is_power : head.size ≡ 2 ^ width
  pub large : hash_init_size ≤ head.size
  pub filled : IsFilled calc same t head.size
  pub counted : head.load ≡ count t head.size
  pub light : head.load ≤ head.max_load
  pub limit : head.max_load ≡ hash_max_load head.size

abbrev pub IsTableOf : (List ℕ → ℕ) → (List ℕ → List ℕ → Bool) → HashTable → Option Table → Type 0
IsTableOf calc same head none = Unit
IsTableOf calc same head (some t) = IsFull calc same head t

abbrev pub IsHashTable : (List ℕ → ℕ) → (List ℕ → List ℕ → Bool) → HashTable → Type 0
IsHashTable calc same head = IsTableOf calc same head head.table

-- The data of the node in a slot.
abbrev pub node_data : Option HashNode → Option ℕ
node_data none = none
node_data (some x) = some x.data_

abbrev pub slot_data : Option Table → ℕ → Option ℕ
slot_data none p = none
slot_data (some t) p = node_data (t p)

abbrev pub found_data : Option Table → Option Found → Option ℕ
found_data table none = none
found_data table (some (absent insert)) = none
found_data table (some (found p)) = slot_data table p

-- The data that the search for a key leads to.
abbrev pub hash_get : (List ℕ → ℕ) → (List ℕ → List ℕ → Bool) → HashTable → List ℕ → Option ℕ
unfolding hash_find_by
hash_get calc same head key = found_data head.table (hash_find_by calc same head key)

module _ (calc : List ℕ → ℕ) (same : List ℕ → List ℕ → Bool) (keyed : IsKeyed calc same) where
  room :
      (head : HashTable) (t : Table) (f : IsFull calc same head t)
      → count t (2 ^ f.width) < 2 ^ f.width
  room head t f =
      subst (λ n. count t n < n) f.is_power (omega (arith, f.counted, f.light, f.limit, f.large))

  pub search_made :
      (head : HashTable) (t : Table) (key : List ℕ)
      → head.table ≡ some t
      → hash_find_by calc same head key
        ≡ of_probe (calc key) key (search (matches same (calc key) key) t head.size (calc key))
  unfolding hash_find_by
  search_made head t key e = rw (hash_find_by, e) refl

  pub cases :
      (head : HashTable) (t : Table) (key : List ℕ)
      → IsFull calc same head t
      → ((p : ℕ) × (x : HashNode) × Bound same t head.size key p x
          × (search (matches same (calc key) key) t head.size (calc key) ≡ hit p))
        ⊎ Absent same t head.size
            (calc key)
            key
            (search (matches same (calc key) key) t head.size (calc key))
  cases head t key f =
      subst
        (λ n.
          ((p : ℕ) × (x : HashNode) × Bound same t n key p x
            × (search (matches same (calc key) key) t n (calc key) ≡ hit p))
          ⊎ Absent same t n (calc key) key (search (matches same (calc key) key) t n (calc key)))
        (sym f.is_power)
        (find-cases calc same t f.width key keyed
          (subst (λ n. IsFilled calc same t n) f.is_power f.filled) (room head t f))

  the_node : (x y : HashNode) → some x ≡ some y → x ≡ y
  the_node x y h = cc

  pub get_found :
      (head : HashTable) (t : Table) (key : List ℕ) (p : ℕ) (x : HashNode)
      → head.table ≡ some t
      → t p ≡ some x
      → search (matches same (calc key) key) t head.size (calc key) ≡ hit p
      → hash_get calc same head key ≡ some x.data_
  unfolding hash_get hash_find_by
  get_found head t key p x e h s =
      ap (found_data head.table) (search_made head t key e ∙ ap (of_probe (calc key) key) s)
      ∙ ap (λ o. slot_data o p) e
      ∙ ap node_data h

  -- A node with the key is what the search leads to.
  pub get_node :
      (head : HashTable) (t : Table) (key : List ℕ) (p : ℕ) (x : HashNode)
      → head.table ≡ some t
      → IsFull calc same head t
      → Bound same t head.size key p x
      → hash_get calc same head key ≡ some x.data_
  unfolding hash_get hash_find_by
  get_node head t key p x e f b = elim (cases head t key f) [
    | inl (q, y, b', s) ↦
        let one : q ≡ p =
          f.filled.apart q p y x b'.node b.node
            (keyed.same_trans y.key key x.key (keyed.same_symm key y.key b'.equal) b.equal) in
        let y≡x : y ≡ x = the_node y x (sym b'.node.here ∙ ap t one ∙ b.node.here) in
        get_found head t key q y e b'.node.here s ∙ ap (λ z. some z.data_) y≡x
    | inr a ↦ absurd (a.nowhere p x b)
  ]

  pub get_none :
      (head : HashTable) (t : Table) (key : List ℕ)
      → head.table ≡ some t
      → IsFull calc same head t
      → ((p : ℕ) (x : HashNode) → Bound same t head.size key p x → ⊥)
      → hash_get calc same head key ≡ none
  unfolding hash_get hash_find_by
  get_none head t key e f nowhere = elim (cases head t key f) [
    | inl (q, y, b, s) ↦ absurd (nowhere q y b)
    | inr a ↦
        ap (found_data head.table)
          (search_made head t key e ∙ ap (of_probe (calc key) key) a.missed.result)
  ]
