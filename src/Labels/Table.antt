-- ===== src/Labels/Table.antt =====
-- The table of asm/labels.c as a list of labels with different names.
use nasm.Prelude.{
  ℕ, zero, suc, ◌≡◌, refl, sym, ap, ◌∙◌, Bool, true, false, List, [], ◌∷◌, ◌++◌, length, get_elem?,
  set, Option, none, some, inl, inr, arith, if◌then◌else◌,
}
use nasm.Nasmlib.Crc.{crc64b}
use nasm.Nasmlib.Hashtbl.{
  HashTable, HashInsert, found, absent, crc64_init, same_key, hash_find, hash_find_by,
}
use nasm.Nasmlib.Hashtbl.Keys.{same_key-IsKeyed}
use nasm.Nasmlib.Hashtbl.Map.{IsHashTable, slot_data, found_data}
use nasm.Nasmlib.Hashtbl.Refinement.{hash_add-hash_find, hash_find_ends, holds-slot_data}
use nasm.Nasmlib.Strlist.Unique.{position, get, position-append, position-behind, later}
use nasm.Labels.{Label, Symbols, Env, new_label, full_name, created_label, label_found, find_label}

-- The keys of labels.
abbrev pub names : List Label → List (List ℕ)
names [] = []
names (l ∷ rest) = (l.label ++ (0 ∷ [])) ∷ names rest

pub record IsSymbols (s : Symbols) : Type 0 where
  pub hashed : IsHashTable (crc64b crc64_init) same_key s.ltab
  pub known : (key : List ℕ) → get s.ltab key ≡ position key (names s.ldata)

names-append :
    (l : List Label) (x : Label) → names (l ++ (x ∷ [])) ≡ names l ++ ((x.label ++ (0 ∷ [])) ∷ [])
names-append [] x = refl
names-append (y ∷ l) x = ap (λ r. (y.label ++ (0 ∷ [])) ∷ r) (names-append l x)

length-names : (l : List Label) → length (names l) ≡ length l
length-names [] = refl
length-names (x ∷ l) = ap suc (length-names l)

pub names-set :
    (l : List Label) (i : ℕ) (x y : Label)
    → get_elem? l i ≡ some x
    → y.label ≡ x.label
    → names (set l i y) ≡ names l
names-set [] i x y h k = refl
names-set (z ∷ l) zero x y h k = ap (λ n. (n ++ (0 ∷ [])) ∷ names l) (k ∙ sym (same z x h))
  where
    same : (z x : Label) → some z ≡ some x → z.label ≡ x.label
    same z x h = cc
names-set (z ∷ l) (suc i) x y h k = ap (λ r. (z.label ++ (0 ∷ [])) ∷ r) (names-set l i x y h k)

pub get_elem?-set :
    (l : List Label) (i : ℕ) (x y : Label)
    → get_elem? l i ≡ some x
    → get_elem? (set l i y) i ≡ some y
get_elem?-set [] i x y h = absurd (nothing x h)
  where
    nothing : (x : Label) → none ≡ some x → ⊥
    nothing x h = cc
get_elem?-set (z ∷ l) zero x y h = refl
get_elem?-set (z ∷ l) (suc i) x y h = get_elem?-set l i x y h

get_elem?-append : (l : List Label) (x : Label) → get_elem? (l ++ (x ∷ [])) (length l) ≡ some x
get_elem?-append [] x = refl
get_elem?-append (y ∷ l) x = get_elem?-append l x

-- A position is that of a label.
label_at :
    (key : List ℕ) (l : List Label) (i : ℕ)
    → position key (names l) ≡ some i
    → (x : Label) × (get_elem? l i ≡ some x)
label_at key [] i h = absurd (nothing i h)
  where
    nothing : (i : ℕ) → none ≡ some i → ⊥
    nothing i h = cc
label_at key (x ∷ l) zero h = (x, refl)
label_at key (x ∷ l) (suc i) h =
    label_at key l i (behind (same_key key (x.label ++ (0 ∷ []))) (position key (names l)) h)
  where
    not_first : some 0 ≡ some (suc i) → ⊥
    not_first h = absurd (zero_suc (index h))
      where
        index : some 0 ≡ some (suc i) → 0 ≡ suc i
        index h = cc

        zero_suc : 0 ≡ suc i → ⊥
        zero_suc h = omega (arith, h)

    not_none : none ≡ some (suc i) → ⊥
    not_none h = cc

    before : (j : ℕ) → some (suc j) ≡ some (suc i) → some j ≡ some i
    before j h = ap some (omega (arith, index h))
      where
        index : some (suc j) ≡ some (suc i) → suc j ≡ suc i
        index h = cc

    behind : (b : Bool) (o : Option ℕ) → (if b then some 0 else later o) ≡ some (suc i) → o ≡ some i
    behind true o h = absurd (not_first h)
    behind false none h = absurd (not_none h)
    behind false (some j) h = before j h

-- What `find_label` has found or created.
pub record Held (env : Env) (s : Symbols) (name : List ℕ) (s' : Symbols) (i : ℕ) (l : Label)
    : Type 0 where
  pub symbols : IsSymbols s'
  pub place : position (full_name env s name ++ (0 ∷ [])) (names s'.ldata) ≡ some i
  pub here : get_elem? s'.ldata i ≡ some l
  pub prevlabel : s'.prevlabel ≡ s.prevlabel
  pub initialized : s'.initialized ≡ s.initialized

module _ (env : Env) (s : Symbols) (name : List ℕ) (ok : IsSymbols s) where
  abbrev key : List ℕ
  key = full_name env s name ++ (0 ∷ [])

  old_label :
      (create : Bool) (p i : ℕ)
      → hash_find s.ltab (full_name env s name) ≡ some (found p)
      → position key (names s.ldata) ≡ some i
      → find_label env s name create ≡ some (s, some i, false)
  unfolding find_label label_found hash_find_by
  old_label create p i h e =
      let data_ : slot_data s.ltab.table p ≡ some i =
        sym (ap (found_data s.ltab.table) h) ∙ ok.known key ∙ e in
      ap (label_found s (full_name env s name) create) h ∙ ap (λ o. some (s, o, false)) data_

  new_place :
      (ip : HashInsert)
      → hash_find s.ltab (full_name env s name) ≡ some (absent ip)
      → position key (names s.ldata) ≡ none
  unfolding hash_find_by
  new_place ip h = sym (ok.known key) ∙ ap (found_data s.ltab.table) h

  created_known :
      (ltab : HashTable)
      → position key (names s.ldata) ≡ none
      → ((k : List ℕ)
          → get ltab k ≡ (if same_key key k then some (length s.ldata) else get s.ltab k))
      → (k : List ℕ)
      → get ltab k ≡ position k (names (s.ldata ++ (new_label (full_name env s name) ∷ [])))
  created_known ltab fresh h k =
      h k
      ∙ ap (λ o. if same_key key k then some (length s.ldata) else o) (ok.known k)
      ∙ ap (λ n. if same_key key k then some n else position k (names s.ldata))
          (sym (length-names s.ldata))
      ∙ sym (position-append k key (names s.ldata) fresh)
      ∙ ap (position k) (sym (names-append s.ldata (new_label (full_name env s name))))

  new_held :
      (ip : HashInsert)
      → hash_find s.ltab (full_name env s name) ≡ some (absent ip)
      → (s' : Symbols) × (i : ℕ) × (l : Label) × (find_label env s name true
          ≡ some (s', some i, true))
        × Held env s name s' i l
  unfolding find_label label_found hash_find_by
  new_held ip h =
      let l = new_label (full_name env s name) in
      let fresh = new_place ip h in
      let (ltab, np, step, hashed, data_, reads) =
        hash_add-hash_find (crc64b crc64_init) same_key s.ltab key (length s.ldata) ip
          same_key-IsKeyed ok.hashed h in
      (
        record s { ltab = ltab; ldata = s.ldata ++ (l ∷ []) },
        length s.ldata,
        l,
        ap (label_found s (full_name env s name) true) h
            ∙ ap (created_label s (full_name env s name)) step,
        record {
          symbols = record { hashed = hashed; known = created_known ltab fresh reads };
          place =
              ap (position key) (names-append s.ldata l)
              ∙ position-behind key (names s.ldata) fresh
              ∙ ap some (length-names s.ldata);
          here = get_elem?-append s.ldata l;
          prevlabel = refl;
          initialized = refl;
        },
      )

  old_held :
      (p : ℕ)
      → hash_find s.ltab (full_name env s name) ≡ some (found p)
      → (i : ℕ) × (slot_data s.ltab.table p ≡ some i)
      → (i : ℕ) × (l : Label) × (find_label env s name true ≡ some (s, some i, false))
        × Held env s name s i l
  unfolding hash_find_by
  old_held p h (i, e) =
      let place : position key (names s.ldata) ≡ some i =
        sym (ok.known key) ∙ ap (found_data s.ltab.table) h ∙ e in
      let (l, here) = label_at key s.ldata i place in
      (
        i,
        l,
        old_label true p i h place,
        record { symbols = ok; place = place; here = here; prevlabel = refl; initialized = refl },
      )

  pub find_label-Held :
      (s' : Symbols) × (i : ℕ) × (l : Label) × (created : Bool) × (find_label env s name true
        ≡ some (s', some i, created))
      × Held env s name s' i l
  unfolding hash_find_by
  find_label-Held =
      elim (hash_find_ends (crc64b crc64_init) same_key s.ltab key same_key-IsKeyed ok.hashed) [
        | inl (p, h, inside, k) ↦
            let (i, l, step, held) = old_held p h (holds-slot_data same_key key s.ltab.table p k) in
            (s, i, l, false, step, held)
        | inr (ip, h, unseen) ↦
            let (s', i, l, step, held) = new_held ip h in (s', i, l, true, step, held)
      ]

  -- A label that is in the table is found without being created.
  pub find_again :
      (i : ℕ)
      → position key (names s.ldata) ≡ some i
      → find_label env s name false ≡ some (s, some i, false)
  unfolding hash_find_by
  find_again i e =
      elim (hash_find_ends (crc64b crc64_init) same_key s.ltab key same_key-IsKeyed ok.hashed) [
        | inl (p, h, inside, k) ↦ old_label false p i h e
        | inr (ip, h, unseen) ↦ absurd (not_none i (sym (new_place ip h) ∙ e))
      ]
    where
      not_none : (i : ℕ) → none ≡ some i → ⊥
      not_none i h = cc
