-- ===== src/Nasmlib/Strlist/Add.antt =====
-- What an addition to a list of nasmlib/strlist.c does.
use nasm.Prelude.{
  ℕ, ◌+◌, ◌≡◌, refl, sym, ap, ◌∙◌, true, false, List, [], ◌∷◌, ◌++◌, Option, none, some, length,
  if◌then◌else◌, Bool-cases, inl, inr, length-append,
}
use nasm.Nasmlib.Crc.{crc64b}
use nasm.Nasmlib.Hashtbl.{
  HashTable, HashInsert, found, absent, crc64_init, same_key, hash_find_by, hash_find, hash_add,
}
use nasm.Nasmlib.Hashtbl.Keys.{same_key-IsKeyed}
use nasm.Nasmlib.Hashtbl.Map.{slot_data, found_data}
use nasm.Nasmlib.Hashtbl.Refinement.{hash_add-hash_find, hash_find_ends, holds-slot_data}
use nasm.Nasmlib.Strlist.{
  Strlist, appended, with_hash, new_entry, existing, add_found, strlist_add_common, add_str,
  returned, strlist_add,
}
use nasm.Nasmlib.Strlist.Unique.{
  position, added_at, add_string, strings, IsPlaced, get, IsStrlist, strings-append,
  append-IsPlaced, position-append,
}

abbrev bytes : List ℕ → List ℕ
bytes str = str ++ (0 ∷ [])

-- The addition has been done.
abbrev pub IsAdded : Strlist → List ℕ → Option (Strlist × ℕ) → Type 0
IsAdded list str r =
    (list' : Strlist) × (i : ℕ) × (r ≡ some (list', i))
    × IsStrlist list'
    × (list'.uniq ≡ list.uniq)
    × ((strings list'.head, i) ≡ add_string list.uniq (str ++ (0 ∷ [])) (strings list.head))

length-snoc : (l : List (List ℕ)) (s : List ℕ) → length (l ++ (s ∷ [])) ≡ length l + 1
length-snoc l s = length-append l (s ∷ [])

module _ (list : Strlist) (str : List ℕ) (ok : IsStrlist list) where
  -- The list with the new entry, whatever hash table goes with it.
  new_strings : strings (appended list (new_entry str)).head ≡ strings list.head ++ (bytes str ∷ [])
  new_strings =
      strings-append list.head
        record { offset = list.size; size = length (bytes str); str = bytes str }

  new_counted : list.nstr + 1 ≡ length (strings (appended list (new_entry str)).head)
  new_counted =
      ap (λ n. n + 1) ok.counted
      ∙ sym (length-snoc (strings list.head) (bytes str))
      ∙ sym (ap length new_strings)

  new_placed : IsPlaced 0 (appended list (new_entry str)).head (list.size + length (bytes str))
  new_placed =
      append-IsPlaced 0 list.head list.size
        record { offset = list.size; size = length (bytes str); str = bytes str } ok.placed refl
        refl

  new_place :
      (strings (appended list (new_entry str)).head, list.nstr)
      ≡ added_at (bytes str) (strings list.head) none
  new_place =
      ap (λ l. (l, list.nstr)) new_strings
      ∙ ap (λ n. (strings list.head ++ (bytes str ∷ []), n)) ok.counted

  add_plain : list.uniq ≡ false → IsAdded list str (add_str list str)
  unfolding add_str strlist_add_common
  add_plain u = (
    appended list (new_entry str),
    list.nstr,
    rw (add_str, strlist_add_common, u) refl,
    record {
      hashed = ok.hashed;
      counted = new_counted;
      placed = new_placed;
      known = λ key.
          ok.known key
          ∙ ap (λ b. if b then position key (strings list.head) else none) u
          ∙ sym (
              ap
                (λ b.
                  if b then position key (strings (appended list (new_entry str)).head) else none)
                u);
    },
    refl,
    new_place
        ∙ sym (
            ap
              (λ b.
                added_at (bytes str) (strings list.head)
                  (if b then position (bytes str) (strings list.head) else none))
              u),
  )

  add_searched :
      list.uniq ≡ true → add_str list str ≡ add_found list (new_entry str) (hash_find list.hash str)
  unfolding add_str hash_find_by
  add_searched u = rw (add_str, u) refl

  -- What the hash table says, for a unique list.
  get-position :
      list.uniq ≡ true → (key : List ℕ) → get list.hash key ≡ position key (strings list.head)
  get-position u key =
      ok.known key ∙ ap (λ b. if b then position key (strings list.head) else none) u

  add_uniq :
      list.uniq ≡ true
      → (o : Option ℕ) → position (bytes str) (strings list.head) ≡ o
      → add_string list.uniq (bytes str) (strings list.head)
        ≡ added_at (bytes str) (strings list.head) o
  add_uniq u o h =
      ap
        (λ b.
          added_at (bytes str) (strings list.head)
            (if b then position (bytes str) (strings list.head) else none))
        u
      ∙ ap (added_at (bytes str) (strings list.head)) h

  add_old :
      (p i : ℕ)
      → list.uniq ≡ true
      → hash_find list.hash str ≡ some (found p)
      → slot_data list.hash.table p ≡ some i
      → IsAdded list str (add_str list str)
  unfolding hash_find_by add_found
  add_old p i u h k = (
    list,
    i,
    add_searched u ∙ ap (add_found list (new_entry str)) h ∙ ap (existing list) k,
    ok,
    refl,
    sym (
        add_uniq u (some i)
          (sym (get-position u (bytes str)) ∙ ap (found_data list.hash.table) h ∙ k)),
  )

  new_known :
      (hash : HashTable)
      → list.uniq ≡ true
      → position (bytes str) (strings list.head) ≡ none
      → ((key : List ℕ)
          → get hash key ≡ (if same_key (bytes str) key then some list.nstr else get list.hash key))
      → (key : List ℕ)
      → get hash key
        ≡ (if list.uniq then position key (strings (appended list (new_entry str)).head) else none)
  new_known hash u fresh h key =
      h key
      ∙ ap (λ n. if same_key (bytes str) key then some n else get list.hash key) ok.counted
      ∙ ap (λ o. if same_key (bytes str) key then some (length (strings list.head)) else o)
          (get-position u key)
      ∙ sym (position-append key (bytes str) (strings list.head) fresh)
      ∙ ap (position key) (sym new_strings)
      ∙ sym (
          ap (λ b. if b then position key (strings (appended list (new_entry str)).head) else none)
            u)

  add_hashed :
      (hi : HashInsert) (hash : HashTable) (np : ℕ)
      → list.uniq ≡ true
      → hash_find list.hash str ≡ some (absent hi)
      → hash_add list.hash hi list.nstr ≡ some (hash, np)
      → add_str list str ≡ some (record (appended list (new_entry str)) { hash = hash }, list.nstr)
  unfolding hash_find_by add_found strlist_add_common
  add_hashed hi hash np u h step =
      add_searched u
      ∙ ap (add_found list (new_entry str)) h
      ∙ ap
          (λ b.
            if b
            then with_hash (appended list (new_entry str)) list.nstr
                (hash_add list.hash hi list.nstr)
            else some (appended list (new_entry str), list.nstr))
          u
      ∙ ap (with_hash (appended list (new_entry str)) list.nstr) step

  add_new :
      (hi : HashInsert)
      → list.uniq ≡ true
      → hash_find list.hash str ≡ some (absent hi)
      → IsAdded list str (add_str list str)
  unfolding hash_find_by
  add_new hi u h =
      let (hash, np, step, hashed, data_, reads) =
        hash_add-hash_find (crc64b crc64_init) same_key list.hash (bytes str) list.nstr hi
          same_key-IsKeyed ok.hashed h in
      let fresh : position (bytes str) (strings list.head) ≡ none =
        sym (get-position u (bytes str)) ∙ ap (found_data list.hash.table) h in
      (
        record (appended list (new_entry str)) { hash = hash },
        list.nstr,
        add_hashed hi hash np u h step,
        record {
          hashed = hashed;
          counted = new_counted;
          placed = new_placed;
          known = new_known hash u fresh reads;
        },
        refl,
        new_place ∙ sym (add_uniq u none fresh),
      )

  pub add_str-IsAdded : IsAdded list str (add_str list str)
  unfolding hash_find_by
  add_str-IsAdded = elim (Bool-cases list.uniq) [
    | inl u ↦
        elim (hash_find_ends (crc64b crc64_init) same_key list.hash (bytes str) same_key-IsKeyed
          ok.hashed) [
            | inl (p, h, inside, k) ↦
                let (i, e) = holds-slot_data same_key (bytes str) list.hash.table p k in
                add_old p i u h e
            | inr (hi, h, unseen) ↦ add_new hi u h
          ]
    | inr u ↦ add_plain u
  ]

-- An addition to a well-formed list ends and leaves a well-formed list of the same kind. If the list
-- is unique and has the string, its strings stay and the entry is the first with it; otherwise the
-- string is added behind the others, and the entry is the new one.
pub strlist_add-add_string :
    (list : Strlist) (str : List ℕ)
    → IsStrlist list
    → (list' : Strlist) × (i : ℕ) × (strlist_add (some list) str ≡ some (some list', some i))
      × IsStrlist list'
      × (list'.uniq ≡ list.uniq)
      × ((strings list'.head, i) ≡ add_string list.uniq (str ++ (0 ∷ [])) (strings list.head))
unfolding strlist_add
strlist_add-add_string list str ok =
    let (list', i, step, ok', same, place) = add_str-IsAdded list str ok in
    (list', i, ap returned step, ok', same, place)
