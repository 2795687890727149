-- ===== src/Nasmlib/Strlist/Find.antt =====
-- Searches in a unique list of nasmlib/strlist.c.
use nasm.Prelude.{
  ℕ, ◌≡◌, sym, ap, ◌∙◌, true, List, [], ◌∷◌, ◌++◌, Option, none, some, if◌then◌else◌, inl, inr,
}
use nasm.Nasmlib.Crc.{crc64b}
use nasm.Nasmlib.Hashtbl.{Found, found, absent, crc64_init, same_key, hash_find_by, hash_find}
use nasm.Nasmlib.Hashtbl.Keys.{same_key-IsKeyed}
use nasm.Nasmlib.Hashtbl.Map.{found_data}
use nasm.Nasmlib.Hashtbl.Refinement.{hash_find_ends}
use nasm.Nasmlib.Strlist.{Strlist, found_entry, strlist_find}
use nasm.Nasmlib.Strlist.Unique.{IsStrlist, position, strings}

-- The entry is what the search in the hash table leads to.
find_of :
    (list : Strlist) (r : Option Found) (o : Found)
    → r ≡ some o
    → found_entry list r ≡ some (found_data list.hash.table r)
find_of list r (found p) h =
    ap (found_entry list) h ∙ ap (λ r. some (found_data list.hash.table r)) (sym h)
find_of list r (absent hi) h =
    ap (found_entry list) h ∙ ap (λ r. some (found_data list.hash.table r)) (sym h)

-- A search in a well-formed unique list ends with the entry that first has the string, or NULL.
pub strlist_find-position :
    (list : Strlist) (str : List ℕ)
    → IsStrlist list
    → list.uniq ≡ true
    → strlist_find list str ≡ some (position (str ++ (0 ∷ [])) (strings list.head))
unfolding strlist_find hash_find_by
strlist_find-position list str ok u =
    let key = str ++ (0 ∷ []) in
    let known = ok.known key ∙ ap (λ b. if b then position key (strings list.head) else none) u in
    elim (hash_find_ends (crc64b crc64_init) same_key list.hash key same_key-IsKeyed ok.hashed) [
      | inl (p, h, inside, held) ↦
          find_of list (hash_find list.hash str) (found p) h ∙ ap some known
      | inr (hi, h, unseen) ↦ find_of list (hash_find list.hash str) (absent hi) h ∙ ap some known
    ]
