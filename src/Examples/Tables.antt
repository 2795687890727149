-- ===== src/Examples/Tables.antt =====
-- Hash tables, lists of strings and offsets of segments at concrete inputs.
use nasm.Prelude.{
  ℕ, ◌+◌, ◌<◌, ◌≡◌, ◌⊎◌, ◌^◌, refl, Bool, ◌==◌, arith, sym, ap, true, false, List, [], ◌∷◌, Option,
  none, some, if◌then◌else◌, get_elem?, length,
}
use mathlib.Core.Path.{subst}
use nasm.Word.{add64}
use nasm.Expr.{no_seg}
use nasm.Location.{Assembly, increment_offset}
use nasm.Location.Offsets.{offset_of, IsCurrent, increment_offset-offset_of}
use nasm.Nasmlib.Raa.{Raa, raa_read}
use nasm.Nasmlib.Crc.{crc64b, entry}
use nasm.Nasmlib.Hashtbl.{
  HashTable, HashInsert, Found, found, absent, crc64_init, new_table, same_key, hash_for_each,
  hash_find_by, hash_add,
}
use nasm.Nasmlib.Hashtbl.Keys.{same_key-IsKeyed}
use nasm.Nasmlib.Hashtbl.Map.{IsHashTable, slot_data, hash_get}
use nasm.Nasmlib.Hashtbl.Refinement.{holds, scan, hash_add-hash_find, hash_find_ends}
use nasm.Nasmlib.Hashtbl.Update.{slot_node}
use nasm.Nasmlib.Hashtbl.Iterate.{nodes, hash_for_each-nodes}
use nasm.Nasmlib.Strlist.{
  Strlist, strlist_alloc, add_str, strlist_add, strlist_find, strlist_linearize,
}
use nasm.Nasmlib.Strlist.Unique.{position, add_string, strings, IsStrlist, strlist_alloc-IsStrlist}
use nasm.Nasmlib.Strlist.Add.{strlist_add-add_string}
use nasm.Nasmlib.Strlist.Linear.{slice, strlist_linearize-entries}
use nasm.Nasmlib.Strlist.Find.{strlist_find-position}

abbrev calc : List ℕ → ℕ
calc = crc64b crc64_init

abbrev table_of : Option (HashTable × ℕ) → HashTable
table_of none = new_table
table_of (some (head, np)) = head

-- A table with the key "a".
abbrev one_insert : HashInsert
one_insert = record { where_ = none; node_hash = calc (97 ∷ []); node_key = 97 ∷ [] }

unfoldable one_key : HashTable
unfolding hash_add
one_key = table_of (hash_add new_table one_insert 7)

one_key-IsHashTable : IsHashTable calc same_key one_key
unfolding one_key hash_find_by
one_key-IsHashTable =
    let (head, np, step, ok, at_, rest) =
      hash_add-hash_find calc same_key new_table (97 ∷ []) 7 one_insert same_key-IsKeyed tt refl in
    subst (IsHashTable calc same_key) (sym (ap table_of step)) ok

abbrev insert_of : Option Found → HashInsert
insert_of (some (absent insert)) = insert
insert_of _ = one_insert

b_insert : HashInsert
unfolding one_key hash_find_by
b_insert = insert_of (hash_find_by calc same_key one_key (98 ∷ []))

b_absent : hash_find_by calc same_key one_key (98 ∷ []) ≡ some (absent b_insert)
unfolding one_key hash_find_by b_insert entry
b_absent = refl

b_where : b_insert.where_ ≡ some 8
unfolding one_key hash_find_by b_insert entry
b_where = refl

hash_add-hash_find_example :
    (head : HashTable) × (np : ℕ) × (hash_add one_key b_insert 8 ≡ some (head, np))
    × IsHashTable calc same_key head
    × (slot_data head.table np ≡ some 8)
    × ((key : List ℕ)
        → hash_get calc same_key head key
          ≡ (if same_key (98 ∷ []) key then some 8 else hash_get calc same_key one_key key))
hash_add-hash_find_example =
    hash_add-hash_find calc same_key one_key (98 ∷ []) 8 b_insert same_key-IsKeyed
      one_key-IsHashTable b_absent

hash_find_ends_example :
    ((p : ℕ) × (hash_find_by calc same_key one_key (97 ∷ []) ≡ some (found p))
      × (p < one_key.size)
      × (holds same_key (97 ∷ []) (slot_node one_key.table p) ≡ true))
    ⊎ ((insert : HashInsert) × (hash_find_by calc same_key one_key (97 ∷ []) ≡ some (absent insert))
        × (scan same_key (97 ∷ []) one_key.table one_key.size ≡ false))
hash_find_ends_example =
    hash_find_ends calc same_key one_key (97 ∷ []) same_key-IsKeyed one_key-IsHashTable

hash_for_each-nodes_example : hash_for_each (one_key.size + 1) one_key 0 ≡ nodes one_key
hash_for_each-nodes_example = hash_for_each-nodes one_key

-- A list with the string "ab".
abbrev list_of : Option (Option Strlist × Option ℕ) → Strlist
list_of (some (some list, e)) = list
list_of _ = strlist_alloc true

unfoldable one_string : Strlist
unfolding strlist_add
one_string = list_of (strlist_add (some (strlist_alloc true)) (97 ∷ 98 ∷ []))

one_string-IsStrlist : IsStrlist one_string × (one_string.uniq ≡ true)
unfolding one_string strlist_add
one_string-IsStrlist =
    let (list, i, step, ok, same, place) =
      strlist_add-add_string (strlist_alloc true) (97 ∷ 98 ∷ []) (strlist_alloc-IsStrlist true) in
    let one : list ≡ one_string = sym (ap list_of step) in
    (subst IsStrlist one ok, subst (λ l. l.uniq ≡ true) one same)

strlist_add-add_string_example :
    (list : Strlist) × (i : ℕ) × (strlist_add (some one_string) (99 ∷ [])
      ≡ some (some list, some i))
    × IsStrlist list
    × (list.uniq ≡ one_string.uniq)
    × ((strings list.head, i) ≡ add_string one_string.uniq (99 ∷ 0 ∷ []) (strings one_string.head))
strlist_add-add_string_example = strlist_add-add_string one_string (99 ∷ []) one_string-IsStrlist.0

strlist_find-position_example :
    strlist_find one_string (97 ∷ 98 ∷ [])
    ≡ some (position (97 ∷ 98 ∷ 0 ∷ []) (strings one_string.head))
strlist_find-position_example =
    strlist_find-position one_string (97 ∷ 98 ∷ []) one_string-IsStrlist.0 one_string-IsStrlist.1

first_entry :
    get_elem? one_string.head 0 ≡ some record { offset = 0; size = 3; str = 97 ∷ 98 ∷ 0 ∷ [] }
unfolding one_string strlist_add add_str entry
first_entry = refl

strlist_linearize-entries_example :
    (length (strlist_linearize one_string 10) ≡ one_string.size)
    × (slice 0 3 (strlist_linearize one_string 10) ≡ 97 ∷ 98 ∷ 10 ∷ [])
strlist_linearize-entries_example =
    strlist_linearize-entries one_string 10 0
      record { offset = 0; size = 3; str = 97 ∷ 98 ∷ 0 ∷ [] } one_string-IsStrlist.0 first_entry

-- At the start of a pass, in segment 2.
abbrev pub start : Assembly
start = record {
  location = record { offset = 0; segment = 2; known = true };
  absolute = record { offset = 0; segment = 0; known = true };
  in_absolute = false;
  offsets = Raa.absent;
}

start-IsCurrent : IsCurrent start
unfolding offset_of raa_read
start-IsCurrent = record {
  array = tt;
  here = refl;
  kind = refl;
  small = omega arith;
  word = λ segment h. zeros (segment == no_seg);
}
  where
    zeros : (b : Bool) → (if b then 0 else 0) < 2 ^ 64
    zeros true = omega arith
    zeros false = omega arith

increment_offset-offset_of_example :
    IsCurrent (increment_offset start 16).0
    × (offset_of (increment_offset start 16).0 2 ≡ add64 (offset_of start 2) 16)
increment_offset-offset_of_example =
    increment_offset-offset_of start 16 2 start-IsCurrent (omega arith)
