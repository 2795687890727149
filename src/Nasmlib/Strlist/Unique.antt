-- ===== src/Nasmlib/Strlist/Unique.antt =====
-- Strings of a list of nasmlib/strlist.c that are found again.
use nasm.Prelude.{
  ℕ, suc, ◌+◌, ◌≡◌, refl, sym, ap, ◌∙◌, Bool, true, false, List, [], ◌∷◌, ◌++◌, Option, none, some,
  length, if◌then◌else◌, Bool-cases, inl, inr,
}
use mathlib.Core.Path.{subst}
use nasm.Nasmlib.Crc.{crc64b}
use nasm.Nasmlib.Hashtbl.{HashTable, crc64_init, same_key, hash_find_by}
use nasm.Nasmlib.Hashtbl.Keys.{same_key→≡, same_key_refl, same_key-IsKeyed}
use nasm.Nasmlib.Hashtbl.Map.{IsHashTable, hash_get}
use nasm.Nasmlib.Strlist.{StrlistEntry, Strlist, strlist_alloc}

-- Where a list of strings first has one.
abbrev pub later : Option ℕ → Option ℕ
later none = none
later (some i) = some (suc i)

abbrev pub position : List ℕ → List (List ℕ) → Option ℕ
position key [] = none
position key (s ∷ rest) = if same_key key s then some 0 else later (position key rest)

-- An addition to a list of strings, unique or not: the strings, and where the string is.
abbrev pub added_at : List ℕ → List (List ℕ) → Option ℕ → List (List ℕ) × ℕ
added_at key strs (some i) = (strs, i)
added_at key strs none = (strs ++ (key ∷ []), length strs)

abbrev pub add_string : Bool → List ℕ → List (List ℕ) → List (List ℕ) × ℕ
add_string uniq key strs = added_at key strs (if uniq then position key strs else none)

abbrev pub strings : List StrlistEntry → List (List ℕ)
strings [] = []
strings (e ∷ rest) = e.str ∷ strings rest

-- Every entry starts where the ones before it end, and has the size of its string.
abbrev pub IsPlaced : ℕ → List StrlistEntry → ℕ → Type 0
IsPlaced at_ [] end = at_ ≡ end
IsPlaced at_ (e ∷ rest) end =
    (e.offset ≡ at_) × (e.size ≡ length e.str) × IsPlaced (at_ + e.size) rest end

abbrev pub get : HashTable → List ℕ → Option ℕ
unfolding hash_find_by
get hash key = hash_get (crc64b crc64_init) same_key hash key

pub record IsStrlist (list : Strlist) : Type 0 where
  pub hashed : IsHashTable (crc64b crc64_init) same_key list.hash
  pub counted : list.nstr ≡ length (strings list.head)
  pub placed : IsPlaced 0 list.head list.size
  pub known :
      (key : List ℕ)
      → get list.hash key ≡ (if list.uniq then position key (strings list.head) else none)

pub strings-append :
    (l : List StrlistEntry) (e : StrlistEntry) → strings (l ++ (e ∷ [])) ≡ strings l ++ (e.str ∷ [])
strings-append [] e = refl
strings-append (x ∷ l) e = ap (λ r. x.str ∷ r) (strings-append l e)

pub append-IsPlaced :
    (at_ : ℕ) (l : List StrlistEntry) (size : ℕ) (e : StrlistEntry)
    → IsPlaced at_ l size
    → e.offset ≡ size
    → e.size ≡ length e.str
    → IsPlaced at_ (l ++ (e ∷ [])) (size + e.size)
append-IsPlaced at_ [] size e p h k = (h ∙ sym p, k, ap (λ n. n + e.size) p)
append-IsPlaced at_ (x ∷ l) size e (o, s, p) h k =
    (o, s, append-IsPlaced (at_ + x.size) l size e p h k)

pub no_place : (i : ℕ) → some i ≡ none → ⊥
no_place i h = cc

no_later : (o : Option ℕ) → later o ≡ none → o ≡ none
no_later none h = refl
no_later (some i) h = absurd (no_place (suc i) h)

unequal_keys : (k l : List ℕ) → same_key k l ≡ false → same_key l k ≡ false
unequal_keys k l h = elim (Bool-cases (same_key l k)) [
  | inl e ↦ absurd (contradict (same_key k l) (same_key-IsKeyed.same_symm l k e) h)
  | inr e ↦ e
]
  where
    contradict : (b : Bool) → b ≡ true → b ≡ false → ⊥
    contradict b h h' = cc

pub position-behind :
    (s : List ℕ) (l : List (List ℕ))
    → position s l ≡ none
    → position s (l ++ (s ∷ [])) ≡ some (length l)
position-behind s [] h = ap (λ b. if b then some 0 else none) (same_key_refl s)
position-behind s (x ∷ l) h = elim (Bool-cases (same_key s x)) [
  | inl e ↦ absurd (no_place 0 (sym (ap (λ b. if b then some 0 else later (position s l)) e) ∙ h))
  | inr e ↦
      let rest : position s l ≡ none =
        no_later (position s l)
          (sym (ap (λ b. if b then some 0 else later (position s l)) e) ∙ h) in
      ap (λ b. if b then some 0 else later (position s (l ++ (s ∷ [])))) e
      ∙ ap later (position-behind s l rest)
]

position-other :
    (key s : List ℕ) (l : List (List ℕ))
    → same_key key s ≡ false
    → position key (l ++ (s ∷ [])) ≡ position key l
position-other key s [] e = ap (λ b. if b then some 0 else none) e
position-other key s (x ∷ l) e =
    ap (λ o. if same_key key x then some 0 else later o) (position-other key s l e)

-- The new string is last, so that the others stay where they are.
pub position-append :
    (key s : List ℕ) (strs : List (List ℕ))
    → position s strs ≡ none
    → position key (strs ++ (s ∷ []))
      ≡ (if same_key s key then some (length strs) else position key strs)
position-append key s strs h = elim (Bool-cases (same_key s key)) [
  | inl e ↦
      subst
        (λ k.
          position k (strs ++ (s ∷ []))
          ≡ (if same_key s k then some (length strs) else position k strs))
        (same_key→≡ s key e)
        (position-behind s strs h
          ∙ sym (ap (λ b. if b then some (length strs) else position s strs) (same_key_refl s)))
  | inr e ↦
      position-other key s strs (unequal_keys s key e)
      ∙ sym (ap (λ b. if b then some (length strs) else position key strs) e)
]

pub strlist_alloc-IsStrlist : (uniq : Bool) → IsStrlist (strlist_alloc uniq)
unfolding hash_find_by
strlist_alloc-IsStrlist uniq = record {
  hashed = tt;
  counted = refl;
  placed = refl;
  known = λ key. unseen uniq;
}
  where
    nothing : Option ℕ
    nothing = none

    unseen : (b : Bool) → none ≡ (if b then nothing else nothing)
    unseen true = refl
    unseen false = refl
