-- ===== src/Nasmlib/Strlist.antt =====
-- nasmlib/strlist.c and include/strlist.h: lists of strings in order, which can be made unique.
--
-- An entry is pointed to by its place in the list; the pointer `tailp` is the end of the list. A string
-- is the list of its bytes, without the zero byte; that of an entry has the zero byte. The field `pvt`
-- belongs to the users of a list. The result is none where a search in the hash table does not end.
pub mod Unique
pub mod Add
pub mod Linear
pub mod Find
use nasm.Prelude.{
  ℕ, ◌+◌, ◌-◌, Bool, true, false, List, [], ◌∷◌, ◌++◌, Option, none, some, length, set, take,
  if◌then◌else◌,
}
use nasm.Nasmlib.Hashtbl.{
  HashTable, HashInsert, Found, found, absent, new_table, hash_find, hash_find_by, hash_add,
  hash_free,
}
use nasm.Nasmlib.Hashtbl.Map.{slot_data}

pub record StrlistEntry : Type 0 where
  pub offset : ℕ
  pub size : ℕ
  pub str : List ℕ

pub record Strlist : Type 0 where
  pub hash : HashTable
  pub head : List StrlistEntry
  pub nstr : ℕ
  pub size : ℕ
  pub uniq : Bool

abbrev pub strlist_alloc : Bool → Strlist
strlist_alloc uniq = record { hash = new_table; head = []; nstr = 0; size = 0; uniq = uniq }

abbrev pub strlist_count : Option Strlist → ℕ
strlist_count none = 0
strlist_count (some list) = list.nstr

abbrev pub strlist_size : Option Strlist → ℕ
strlist_size none = 0
strlist_size (some list) = list.size

-- The list with the new entry, before the hash table has it.
abbrev pub appended : Strlist → StrlistEntry → Strlist
appended list e = record {
  hash = list.hash;
  head = list.head ++ (record e { offset = list.size } ∷ []);
  nstr = list.nstr + 1;
  size = list.size + e.size;
  uniq = list.uniq;
}

abbrev pub with_hash : Strlist → ℕ → Option (HashTable × ℕ) → Option (Strlist × ℕ)
with_hash list e none = none
with_hash list e (some (hash, np)) = some (record list { hash = hash }, e)

unfoldable pub strlist_add_common : Strlist → StrlistEntry → HashInsert → Option (Strlist × ℕ)
unfolding hash_add
strlist_add_common list e hi =
    let added = with_hash (appended list e) list.nstr (hash_add list.hash hi list.nstr) in
    if list.uniq then added else some (appended list e, list.nstr)

abbrev pub new_entry : List ℕ → StrlistEntry
new_entry str =
    let bytes : List ℕ = str ++ (0 ∷ []) in record { offset = 0; size = length bytes; str = bytes }

-- What is on the stack before a search has filled it; nothing reads it.
abbrev pub unset_insert : HashInsert
unset_insert = record { where_ = none; node_hash = 0; node_key = [] }

abbrev pub existing : Strlist → Option ℕ → Option (Strlist × ℕ)
existing list none = none
existing list (some e) = some (list, e)

abbrev pub add_found : Strlist → StrlistEntry → Option Found → Option (Strlist × ℕ)
unfolding strlist_add_common
add_found list e none = none
add_found list e (some (found p)) = existing list (slot_data list.hash.table p)
add_found list e (some (absent hi)) = strlist_add_common list e hi

unfoldable pub add_str : Strlist → List ℕ → Option (Strlist × ℕ)
unfolding strlist_add_common hash_find_by
add_str list str =
    if list.uniq
    then add_found list (new_entry str) (hash_find list.hash str)
    else strlist_add_common list (new_entry str) unset_insert

-- The list and the entry; the entry is NULL where there is no list.
abbrev pub returned : Option (Strlist × ℕ) → Option (Option Strlist × Option ℕ)
returned none = none
returned (some (list, e)) = some (some list, some e)

unfoldable pub strlist_add : Option Strlist → List ℕ → Option (Option Strlist × Option ℕ)
unfolding add_str
strlist_add none str = some (none, none)
strlist_add (some list) str = returned (add_str list str)

abbrev pub found_entry : Strlist → Option Found → Option (Option ℕ)
found_entry list none = none
found_entry list (some (found p)) = some (slot_data list.hash.table p)
found_entry list (some (absent hi)) = some none

-- Only for a unique list, which the source asserts.
unfoldable pub strlist_find : Strlist → List ℕ → Option (Option ℕ)
unfolding hash_find_by
strlist_find list str = found_entry list (hash_find list.hash str)

-- The strings one after the other, the last byte of each replaced.
abbrev pub linear : List StrlistEntry → ℕ → List ℕ
linear [] sep = []
linear (sl ∷ rest) sep = set (take sl.size sl.str) (sl.size - 1) sep ++ linear rest sep

abbrev pub strlist_linearize : Strlist → ℕ → List ℕ
strlist_linearize list sep = linear list.head sep

-- What is written to the file.
abbrev pub written : List StrlistEntry → List ℕ → List ℕ
written [] sep = []
written (sl ∷ rest) sep = take (sl.size - 1) sl.str ++ (sep ++ written rest sep)

abbrev pub strlist_write : Strlist → List ℕ → List ℕ
strlist_write list sep = written list.head sep

-- The entries are freed with the list.
abbrev pub strlist_free : Option Strlist → Option Strlist
strlist_free list = none
