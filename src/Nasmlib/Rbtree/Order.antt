-- ===== src/Nasmlib/Rbtree/Order.antt =====
-- The entries of the trees of nasmlib/rbtree.c, before and after an insertion.
use nasm.Prelude.{
  ℕ, ◌≤◌, ◌≡◌, refl, sym, ap, ◌∙◌, Bool, true, false, List, [], ◌∷◌, ◌++◌, All, ltb, arith,
  append_assoc, Bool-cases, inl, inr, if◌then◌else◌,
}
use nasm.Nasmlib.Rbtree.Rounds.{
  left_inserted, right_inserted, insert_flipped-left, insert_flipped-right,
}
use nasm.Nasmlib.Rbtree.{
  Link, thread, node, recolour, rotate_left, rotate_right, handed_over, fix_left, fix_right,
  is_red_right, is_red_left_left, is_red_both, attach_left, attach_right, insert_flipped, rb_insert,
  entries,
}

-- The entries in ascending order of their keys.
abbrev pub IsSorted : List (ℕ × ℕ) → Type 0
IsSorted [] = Unit
IsSorted (x ∷ xs) = All (λ y. x.0 ≤ y.0) xs × IsSorted xs

-- A new entry behind those of the same key.
unfoldable pub insert_sorted : ℕ → ℕ → List (ℕ × ℕ) → List (ℕ × ℕ)
insert_sorted key id [] = (key, id) ∷ []
insert_sorted key id (x ∷ xs) =
    if ltb key x.0 then (key, id) ∷ x ∷ xs else x ∷ insert_sorted key id xs

pub All-append {ℓ} :
    {A : Type ℓ} (P : A → Type 0) (xs : List A) (y : A) (ys : List A)
    → All P (xs ++ y ∷ ys)
    → All P xs × P y × All P ys
All-append P [] y ys h = (tt, h.0, h.1)
All-append P (x ∷ xs) y ys (p, h) = let (a, b, c) = All-append P xs y ys h in ((p, a), b, c)

pub IsSorted-append :
    (xs : List (ℕ × ℕ)) (y : ℕ × ℕ) (ys : List (ℕ × ℕ))
    → IsSorted (xs ++ y ∷ ys)
    → All (λ x. x.0 ≤ y.0) xs × IsSorted xs × IsSorted ys × All (λ x. y.0 ≤ x.0) ys
IsSorted-append [] y ys (a, h) = (tt, tt, h, a)
IsSorted-append (x ∷ xs) y ys (a, h) =
    let (below, sorted, rest, above) = IsSorted-append xs y ys h in
    let (p, q, r) = All-append (λ z. x.0 ≤ z.0) xs y ys a in ((q, below), (p, sorted), rest, above)

insert_sorted-left :
    (key id : ℕ) (xs : List (ℕ × ℕ)) (y : ℕ × ℕ) (ys : List (ℕ × ℕ))
    → ltb key y.0 ≡ true
    → insert_sorted key id (xs ++ y ∷ ys) ≡ insert_sorted key id xs ++ y ∷ ys
unfolding insert_sorted
insert_sorted-left key id [] y ys h = rw h refl
insert_sorted-left key id (x ∷ xs) y ys h = ground (arith, insert_sorted-left key id xs y ys h)

insert_sorted-right :
    (key id : ℕ) (xs : List (ℕ × ℕ)) (y : ℕ × ℕ) (ys : List (ℕ × ℕ))
    → All (λ x. x.0 ≤ y.0) xs
    → ltb key y.0 ≡ false
    → insert_sorted key id (xs ++ y ∷ ys) ≡ xs ++ y ∷ insert_sorted key id ys
unfolding insert_sorted
insert_sorted-right key id [] y ys a h = rw h refl
insert_sorted-right key id (x ∷ xs) y ys (p, a) h =
    ground (arith, insert_sorted-right key id xs y ys a h)

entries-recolour : (flip : Bool) (t : Link) → entries (recolour flip t) ≡ entries t
unfolding entries
entries-recolour flip (thread p) = refl
entries-recolour flip (node k i b l r) = refl

entries-handed_over : (x : ℕ) (t : Link) → entries (handed_over x t) ≡ entries t
unfolding entries
entries-handed_over x (thread p) = refl
entries-handed_over x (node k i b l r) = refl

entries-rotate_left : (t : Link) → entries (rotate_left t) ≡ entries t
unfolding entries
entries-rotate_left (thread p) = refl
entries-rotate_left (node k i b l (thread p)) = refl
entries-rotate_left (node k i b l (node xk xi xb xl xr)) =
    rw (entries-handed_over xi xl, append_assoc) refl

entries-rotate_right : (t : Link) → entries (rotate_right t) ≡ entries t
unfolding entries
entries-rotate_right (thread p) = refl
entries-rotate_right (node k i b (thread p) r) = refl
entries-rotate_right (node k i b (node xk xi xb xl xr) r) =
    rw (entries-handed_over xi xr, append_assoc) refl

entries-fix : (t : Link) → entries (fix_left (fix_right t)) ≡ entries t
entries-fix t = left (fix_right t) (is_red_left_left (fix_right t)) ∙ right t (is_red_right t)
  where
    left : (t : Link) (b : Bool) → entries (if b then rotate_right t else t) ≡ entries t
    left t true = entries-rotate_right t
    left t false = refl

    right : (t : Link) (b : Bool) → entries (if b then rotate_left t else t) ≡ entries t
    right t true = entries-rotate_left t
    right t false = refl

-- What the recursive call makes of a child, whichever child it is.
abbrev Inserted : Link → ℕ → ℕ → Type 0
Inserted t key id =
    (flip : Bool) (up : ℕ)
    → IsSorted (entries t)
    → (entries (attach_left key id up t (insert_flipped flip t key id))
        ≡ insert_sorted key id (entries t))
      × (entries (attach_right key id up t (insert_flipped flip t key id))
          ≡ insert_sorted key id (entries t))

Inserted-node :
    (flipped : Bool) (k i : ℕ) (b : Bool) (l r : Link) (key id : ℕ)
    → IsSorted (entries (node k i b l r))
    → Inserted l key id
    → Inserted r key id
    → entries (insert_flipped flipped (node k i b l r) key id)
      ≡ insert_sorted key id (entries (node k i b l r))
unfolding entries
Inserted-node flipped k i b l r key id h hl hr =
    let flip = is_red_both (node k i b l r) in
    let (below, sorted_l, sorted_r, above) = IsSorted-append (entries l) (k, i) (entries r) h in
    elim (Bool-cases (ltb key k)) [
      | inl e ↦
          ap entries (insert_flipped-left flipped k i b l r key id e)
          ∙ entries-fix (left_inserted flipped k i b l r key id)
          ∙ rw (entries-recolour flip r, (hl flip i sorted_l).0)
              (sym (insert_sorted-left key id (entries l) (k, i) (entries r) e))
      | inr e ↦
          ap entries (insert_flipped-right flipped k i b l r key id e)
          ∙ entries-fix (right_inserted flipped k i b l r key id)
          ∙ rw (entries-recolour flip l, (hr flip i sorted_r).1)
              (sym (insert_sorted-right key id (entries l) (k, i) (entries r) below e))
    ]

Inserted_lem : (t : Link) (key id : ℕ) → Inserted t key id
unfolding entries insert_sorted
Inserted_lem (thread p) key id flip up h = (refl, refl)
Inserted_lem (node k i b l r) key id flip up h =
    let e = Inserted-node flip k i b l r key id h (Inserted_lem l key id) (Inserted_lem r key id) in
    (e, e)

-- An insertion into a tree in ascending order puts the new entry behind those of the same key, and
-- changes nothing else of the sequence.
pub rb_insert-entries :
    (tree : Link) (key id : ℕ)
    → IsSorted (entries tree)
    → entries (rb_insert tree key id) ≡ insert_sorted key id (entries tree)
unfolding rb_insert
rb_insert-entries (thread p) key id h = unfold entries insert_sorted in refl
rb_insert-entries (node k i b l r) key id h = (Inserted_lem (node k i b l r) key id false 0 h).0

All-insert_sorted :
    (P : ℕ → Type 0) (key id : ℕ) (xs : List (ℕ × ℕ))
    → P key
    → All (λ x. P x.0) xs
    → All (λ x. P x.0) (insert_sorted key id xs)
unfolding insert_sorted
All-insert_sorted P key id [] p h = (p, tt)
All-insert_sorted P key id (x ∷ xs) p (q, h) = elim (Bool-cases (ltb key x.0)) [
  | inl e ↦ rw e (p, (q, h))
  | inr e ↦ rw e (q, All-insert_sorted P key id xs p h)
]

All-trans : (a b : ℕ) (xs : List (ℕ × ℕ)) → a ≤ b → All (λ x. b ≤ x.0) xs → All (λ x. a ≤ x.0) xs
All-trans a b [] le h = tt
All-trans a b (x ∷ xs) le (p, h) = (omega arith, All-trans a b xs le h)

pub insert_sorted-IsSorted :
    (key id : ℕ) (xs : List (ℕ × ℕ)) → IsSorted xs → IsSorted (insert_sorted key id xs)
unfolding insert_sorted
insert_sorted-IsSorted key id [] h = (tt, tt)
insert_sorted-IsSorted key id (x ∷ xs) (a, h) = elim (Bool-cases (ltb key x.0)) [
  | inl e ↦ let le : key ≤ x.0 = ground (arith, e) in rw e ((le, All-trans key x.0 xs le a), (a, h))
  | inr e ↦
      let le : x.0 ≤ key = ground (arith, e) in
      rw e (All-insert_sorted (λ n. x.0 ≤ n) key id xs le a, insert_sorted-IsSorted key id xs h)
]

-- An insertion keeps the entries in ascending order.
pub rb_insert-IsSorted :
    (tree : Link) (key id : ℕ)
    → IsSorted (entries tree)
    → IsSorted (entries (rb_insert tree key id))
rb_insert-IsSorted tree key id h =
    rw (rb_insert-entries tree key id h) (insert_sorted-IsSorted key id (entries tree) h)
