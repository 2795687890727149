-- ===== src/Nasmlib/Hashtbl.antt =====
-- nasmlib/hashtbl.c: hash tables with open addressing.
--
-- A key is the list of its bytes, and the data of a node a number or pointer. A slot without a key is
-- none, and so is the table before the first insertion. Pointers into the table are the indices of
-- slots. The size of a table is a power of two, so that `& mask` is `% size`.
--
-- What a search for a key without regard to case does otherwise is its checksum and its comparison:
-- both kinds of search are one function of these two.
pub mod Keys
pub mod Slots
pub mod Count
pub mod Probes
pub mod Invariant
pub mod Rehash
pub mod Map
pub mod Added
pub mod Update
pub mod Refinement
pub mod Iterate
use nasm.Prelude.{
  ℕ, zero, suc, ◌+◌, ◌-◌, ◌*◌, ◌/◌, ◌%◌, ◌^◌, Bool, true, false, ◌&&◌, List, [], ◌∷◌, ◌++◌, Option,
  none, some, ltb, ◌==◌, if◌then◌else◌, length,
}
use nasm.Nasmlib.Crc.{crc64b, crc64ib}

pub record HashNode : Type 0 where
  pub hash : ℕ
  pub key : List ℕ
  pub data_ : ℕ

abbrev pub Table : Type 0
Table = ℕ → Option HashNode

pub record HashTable : Type 0 where
  pub table : Option Table
  pub load : ℕ
  pub size : ℕ
  pub max_load : ℕ

pub record HashInsert : Type 0 where
  pub where_ : Option ℕ
  pub node_hash : ℕ
  pub node_key : List ℕ

abbrev pub crc64_init : ℕ
crc64_init = 2 ^ 64 - 1

abbrev pub hash_init_size : ℕ
hash_init_size = 16

abbrev pub hash_max_load : ℕ → ℕ
hash_max_load size = size * (2 - 1) / 2

abbrev pub hash_pos : ℕ → ℕ → ℕ
hash_pos hash size = hash % size

-- `| 1`
abbrev pub hash_inc : ℕ → ℕ → ℕ
hash_inc hash size = let i = hash / 2 ^ 32 % size in if i % 2 == 0 then i + 1 else i

abbrev pub hash_pos_next : ℕ → ℕ → ℕ → ℕ
hash_pos_next pos inc size = (pos + inc) % size

abbrev pub empty_table : Table
empty_table _ = none

-- A table that is all zero.
abbrev pub new_table : HashTable
new_table = record { table = none; load = 0; size = 0; max_load = 0 }

abbrev pub hash_init : HashTable
hash_init = record {
  table = some empty_table;
  load = 0;
  size = hash_init_size;
  max_load = hash_max_load hash_init_size;
}

-- `memcmp` and `nasm_memicmp`, with the comparison of the lengths.
abbrev pub same_key : List ℕ → List ℕ → Bool
same_key [] [] = true
same_key [] (c ∷ r) = false
same_key (c ∷ r) [] = false
same_key (c ∷ r) (c' ∷ r') = c == c' && same_key r r'

abbrev pub same_key_i : (ℕ → ℕ) → List ℕ → List ℕ → Bool
same_key_i tolower [] [] = true
same_key_i tolower [] (c ∷ r) = false
same_key_i tolower (c ∷ r) [] = false
same_key_i tolower (c ∷ r) (c' ∷ r') = tolower c == tolower c' && same_key_i tolower r r'

-- Where a loop over the slots ends: at a slot that matches, at an empty slot, or not within the rounds.
pub data Probe : Type 0 where
  hit : ℕ → Probe
  miss : ℕ → Probe
  lost : Probe

unfoldable pub probe : ℕ → (HashNode → Bool) → Table → ℕ → ℕ → ℕ → Probe
probe zero same tbl size inc pos = lost
probe (suc n) same tbl size inc pos =
    let rest = probe n same tbl size inc (hash_pos_next pos inc size) in
    elim (tbl pos) [ none ↦ miss pos | some np ↦ if same np then hit pos else rest ]

-- From the slot of a checksum on, as many rounds as there are slots.
unfoldable pub search : (HashNode → Bool) → Table → ℕ → ℕ → Probe
unfolding probe
search same tbl size hash = probe size same tbl size (hash_inc hash size) (hash_pos hash size)

-- What a search returns: the slot of a node, or what `hash_add` wants; none, if it does not end.
pub data Found : Type 0 where
  found : ℕ → Found
  absent : HashInsert → Found

abbrev pub of_probe : ℕ → List ℕ → Probe → Option Found
of_probe hash key (hit pos) = some (found pos)
of_probe hash key (miss pos) =
    some (absent record { where_ = some pos; node_hash = hash; node_key = key })
of_probe hash key lost = none

abbrev pub matches : (List ℕ → List ℕ → Bool) → ℕ → List ℕ → HashNode → Bool
matches same hash key np = hash == np.hash && same key np.key

unfoldable pub hash_find_by :
    (List ℕ → ℕ) → (List ℕ → List ℕ → Bool) → HashTable → List ℕ → Option Found
unfolding search
hash_find_by calc same head key =
    let hash = calc key in
    elim head.table [
      | none ↦ some (absent record { where_ = none; node_hash = hash; node_key = key })
      | some tbl ↦ of_probe hash key (search (matches same hash key) tbl head.size hash)
    ]

abbrev pub hash_findb : HashTable → List ℕ → Option Found
unfolding hash_find_by
hash_findb head key = hash_find_by (crc64b crc64_init) same_key head key

abbrev pub hash_findib : (ℕ → ℕ) → HashTable → List ℕ → Option Found
unfolding hash_find_by
hash_findib tolower head key =
    hash_find_by (crc64ib tolower crc64_init) (same_key_i tolower) head key

-- The same for a C string, whose zero byte is part of the key.
abbrev pub hash_find : HashTable → List ℕ → Option Found
unfolding hash_find_by
hash_find head key = hash_findb head (key ++ (0 ∷ []))

abbrev pub hash_findi : (ℕ → ℕ) → HashTable → List ℕ → Option Found
unfolding hash_find_by
hash_findi tolower head key = hash_findib tolower head (key ++ (0 ∷ []))

abbrev pub put_node : Table → ℕ → HashNode → Table
put_node tbl pos x q = if q == pos then some x else tbl q

abbrev pub at_miss : Probe → Option ℕ
at_miss (miss pos) = some pos
at_miss _ = none

-- The loop that finds an empty slot of the new table.
unfoldable pub free_slot : Table → ℕ → ℕ → Option ℕ
unfolding search
free_slot tbl size hash = at_miss (search (λ _. false) tbl size hash)

-- A round of the loop that fills the new table: it moves the node of slot `i`. The node that has just
-- been inserted is at `at_` in the old table; once it has moved, `np` is where it is.
abbrev pub moved_to : Table → ℕ → ℕ → ℕ → HashNode → ℕ → Option ℕ → Option (Table × ℕ)
moved_to new newsize at_ np op i none = none
moved_to new newsize at_ np op i (some xp) = some (put_node new xp op, if i == at_ then xp else np)

abbrev pub rehash_slot : Option HashNode → Table → ℕ → ℕ → ℕ → ℕ → Option (Table × ℕ)
unfolding free_slot
rehash_slot none new newsize at_ i np = some (new, np)
rehash_slot (some op) new newsize at_ i np =
    moved_to new newsize at_ np op i (free_slot new newsize op.hash)

-- The rounds from slot `i` on, `n` of them.
unfoldable pub rehash : ℕ → Table → Table → ℕ → ℕ → ℕ → ℕ → Option (Table × ℕ)
unfolding rehash_slot
rehash zero old new newsize at_ i np = some (new, np)
rehash (suc n) old new newsize at_ i np = elim (rehash_slot (old i) new newsize at_ i np) [
  | none ↦ none
  | some (new', np') ↦ rehash n old new' newsize at_ (suc i) np'
]

abbrev pub expanded : HashTable → ℕ → Option (Table × ℕ) → Option (HashTable × ℕ)
expanded head newsize none = none
expanded head newsize (some (tbl, np)) = some (
  record { table = some tbl; load = head.load; size = newsize; max_load = hash_max_load newsize },
  np,
)

abbrev pub expand_if_full : HashTable → Table → ℕ → Option (HashTable × ℕ)
unfolding rehash
expand_if_full head tbl np =
    if ltb head.max_load head.load
    then expanded head (head.size * 2) (rehash head.size tbl empty_table (head.size * 2) np 0 np)
    else some (record head { table = some tbl }, np)

abbrev pub add_at : HashTable → Table → ℕ → HashInsert → ℕ → Option (HashTable × ℕ)
unfolding expand_if_full
add_at head tbl np insert data_ =
    let node : HashNode = record {
      hash = insert.node_hash;
      key = insert.node_key;
      data_ = data_;
    } in
    expand_if_full (record head { load = head.load + 1 }) (put_node tbl np node) np

-- The table and the slot of the new node. A table that has not been made is made first; a search that
-- has found the place of a key in it has not been.
unfoldable pub hash_add : HashTable → HashInsert → ℕ → Option (HashTable × ℕ)
unfolding add_at
hash_add head insert data_ = elim insert.where_ [
  | none ↦ add_at hash_init empty_table (hash_pos insert.node_hash hash_init_size) insert data_
  | some np ↦ elim head.table [ none ↦ none | some tbl ↦ add_at head tbl np insert data_ ]
]

-- The iterator: the node at or after a slot, with the slot to go on from. At the end it starts again.
unfoldable pub iterate_from : ℕ → Table → ℕ → ℕ × Option HashNode
iterate_from zero tbl cp = (0, none)
iterate_from (suc n) tbl cp =
    let rest = iterate_from n tbl (suc cp) in
    elim (tbl cp) [ some np ↦ (suc cp, some np) | none ↦ rest ]

unfoldable pub hash_iterate : HashTable → ℕ → ℕ × Option HashNode
unfolding iterate_from
hash_iterate head next = elim head.table [
  | none ↦ (0, none)
  | some tbl ↦ iterate_from (head.size - next) tbl next
]

abbrev pub visit : ℕ × Option HashNode → (ℕ → List HashNode) → List HashNode
visit (next, none) rest = []
visit (next, some np) rest = np ∷ rest next

-- The nodes that a loop over the table visits in `n` rounds.
unfoldable pub hash_for_each : ℕ → HashTable → ℕ → List HashNode
unfolding hash_iterate
hash_for_each zero head next = []
hash_for_each (suc n) head next = visit (hash_iterate head next) (hash_for_each n head)

abbrev pub hash_free : HashTable → HashTable
hash_free head = new_table

-- What is freed besides the table: the data, where it is not NULL, and the keys.
abbrev pub freed : Bool → List HashNode → List ℕ × List (List ℕ)
freed free_keys [] = ([], [])
freed free_keys (np ∷ rest) =
    let (data_, keys) = freed free_keys rest in
    (
      (if np.data_ == 0 then data_ else np.data_ ∷ data_),
      (if free_keys then np.key ∷ keys else keys),
    )

abbrev pub hash_free_all : HashTable → Bool → (List ℕ × List (List ℕ)) × HashTable
unfolding hash_for_each
hash_free_all head free_keys =
    (freed free_keys (hash_for_each (head.size + 1) head 0), hash_free head)
