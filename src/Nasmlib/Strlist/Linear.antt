-- ===== src/Nasmlib/Strlist/Linear.antt =====
-- The buffer with all strings of a list of nasmlib/strlist.c.
use nasm.Prelude.{
  ℕ, zero, suc, ◌+◌, ◌-◌, ◌≤◌, ◌≡◌, refl, sym, ap, ◌∙◌, List, [], ◌∷◌, ◌++◌, none, some, length,
  get_elem?, set, take, drop, arith, length-append, length-set,
}
use mathlib.Core.Path.{subst}
use nasm.Nasmlib.Strlist.{StrlistEntry, Strlist, linear, strlist_linearize}
use nasm.Nasmlib.Strlist.Unique.{IsPlaced, IsStrlist}

module _ {ℓ} {A : Type ℓ} where
  take-length : (xs : List A) → take (length xs) xs ≡ xs
  take-length [] = refl
  take-length (x ∷ xs) = ap (λ r. x ∷ r) (take-length xs)

  take-append : (xs ys : List A) → take (length xs) (xs ++ ys) ≡ xs
  take-append [] ys = refl
  take-append (x ∷ xs) ys = ap (λ r. x ∷ r) (take-append xs ys)

  drop-append : (xs ys : List A) (n : ℕ) → drop (length xs + n) (xs ++ ys) ≡ drop n ys
  drop-append [] ys n = ap (λ m. drop m ys) (omega arith)
  drop-append (x ∷ xs) ys n = ap (λ m. drop m (x ∷ (xs ++ ys))) shift ∙ drop-append xs ys n
    where
      shift : suc (length xs) + n ≡ suc (length xs + n)
      shift = omega arith

-- The bytes of one entry in the buffer.
abbrev pub terminated : StrlistEntry → ℕ → List ℕ
terminated e sep = set e.str (e.size - 1) sep

-- The bytes that a pointer and a size stand for.
abbrev pub slice : ℕ → ℕ → List ℕ → List ℕ
slice offset size buf = take size (drop offset buf)

entry_bytes :
    (e : StrlistEntry) (sep : ℕ)
    → e.size ≡ length e.str
    → set (take e.size e.str) (e.size - 1) sep ≡ terminated e sep
entry_bytes e sep h =
    ap (λ s. set s (e.size - 1) sep) (ap (λ n. take n e.str) h ∙ take-length e.str)

entry_length :
    (e : StrlistEntry) (sep : ℕ)
    → e.size ≡ length e.str
    → length (set (take e.size e.str) (e.size - 1) sep) ≡ e.size
entry_length e sep h = ap length (entry_bytes e sep h) ∙ length-set e.str (e.size - 1) sep ∙ sym h

length-linear :
    (at_ : ℕ) (l : List StrlistEntry) (end sep : ℕ)
    → IsPlaced at_ l end
    → at_ + length (linear l sep) ≡ end
length-linear at_ [] end sep p = omega (arith, p)
length-linear at_ (e ∷ l) end sep (o, s, p) = omega (
  arith,
  entry_length e sep s,
  length-append (set (take e.size e.str) (e.size - 1) sep) (linear l sep),
  length-linear (at_ + e.size) l end sep p,
)

first_slice :
    (at_ : ℕ) (e : StrlistEntry) (sep : ℕ) (rest : List ℕ)
    → e.offset ≡ at_
    → e.size ≡ length e.str
    → slice (e.offset - at_) e.size (set (take e.size e.str) (e.size - 1) sep ++ rest)
      ≡ terminated e sep
first_slice at_ e sep rest o s =
    let bytes = set (take e.size e.str) (e.size - 1) sep in
    let start : e.offset - at_ ≡ 0 = omega (arith, o) in
    ap (λ n. slice n e.size (bytes ++ rest)) start
    ∙ ap (λ n. take n (bytes ++ rest)) (sym (entry_length e sep s))
    ∙ take-append bytes rest
    ∙ entry_bytes e sep s

later_slice :
    (at_ : ℕ) (e x : StrlistEntry) (sep : ℕ) (rest : List ℕ)
    → e.size ≡ length e.str
    → at_ + e.size ≤ x.offset
    → slice (x.offset - at_) x.size (set (take e.size e.str) (e.size - 1) sep ++ rest)
      ≡ slice (x.offset - (at_ + e.size)) x.size rest
later_slice at_ e x sep rest s h =
    let bytes = set (take e.size e.str) (e.size - 1) sep in
    ap (λ n. slice n x.size (bytes ++ rest)) (omega (arith, h, entry_length e sep s))
    ∙ ap (take x.size) (drop-append bytes rest (x.offset - (at_ + e.size)))

slice-linear :
    (at_ : ℕ) (l : List StrlistEntry) (end sep i : ℕ) (x : StrlistEntry)
    → IsPlaced at_ l end
    → get_elem? l i ≡ some x
    → (at_ ≤ x.offset) × (slice (x.offset - at_) x.size (linear l sep) ≡ terminated x sep)
slice-linear at_ [] end sep i x p h = absurd (nothing x h)
  where
    nothing : (x : StrlistEntry) → none ≡ some x → ⊥
    nothing x h = cc
slice-linear at_ (e ∷ l) end sep zero x (o, s, p) h =
    subst
      (λ y.
        (at_ ≤ y.offset) × (slice (y.offset - at_) y.size (linear (e ∷ l) sep) ≡ terminated y sep))
      (same e x h) (omega (arith, o), first_slice at_ e sep (linear l sep) o s)
  where
    same : (e x : StrlistEntry) → some e ≡ some x → e ≡ x
    same e x h = cc
slice-linear at_ (e ∷ l) end sep (suc i) x (o, s, p) h =
    let (after, rest) = slice-linear (at_ + e.size) l end sep i x p h in
    (omega (arith, after), later_slice at_ e x sep (linear l sep) s after ∙ rest)

-- The buffer of a well-formed list has the size that is allocated for it; and at the offset of each
-- entry it has the string of the entry, with the separator for the last byte.
pub strlist_linearize-entries :
    (list : Strlist) (sep i : ℕ) (e : StrlistEntry)
    → IsStrlist list
    → get_elem? list.head i ≡ some e
    → (length (strlist_linearize list sep) ≡ list.size)
      × (slice e.offset e.size (strlist_linearize list sep) ≡ terminated e sep)
strlist_linearize-entries list sep i e ok h =
    let (after, bytes) = slice-linear 0 list.head list.size sep i e ok.placed h in
    let offset : e.offset ≡ e.offset - 0 = omega arith in
    (
      omega (arith, length-linear 0 list.head list.size sep ok.placed),
      ap (λ n. slice n e.size (strlist_linearize list sep)) offset ∙ bytes,
    )
