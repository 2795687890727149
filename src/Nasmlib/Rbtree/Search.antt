-- ===== src/Nasmlib/Rbtree/Search.antt =====
-- The search of nasmlib/rbtree.c.
use nasm.Prelude.{
  ℕ, ◌≤◌, ◌<◌, ◌≡◌, refl, sym, ap, ◌∙◌, Bool, true, false, List, [], ◌∷◌, ◌++◌, Option, none, some,
  All, ltb, ◌==◌, arith, Bool-cases, inl, inr, if◌then◌else◌,
}
use nasm.Nasmlib.Rbtree.{Link, thread, node, null, search_loop, rb_search, entries}
use nasm.Nasmlib.Rbtree.Order.{IsSorted, IsSorted-append}

-- The last key of a sequence that is not above `key`, or else `best`.
unfoldable pub floor_key : Option ℕ → ℕ → List (ℕ × ℕ) → Option ℕ
floor_key best key [] = best
floor_key best key (x ∷ xs) = floor_key (if ltb key x.0 then best else some x.0) key xs

abbrev pub key_of : Link → Option ℕ
key_of (thread p) = none
key_of (node k i b l r) = some k

floor_key-append :
    (best : Option ℕ) (key : ℕ) (xs ys : List (ℕ × ℕ))
    → floor_key best key (xs ++ ys) ≡ floor_key (floor_key best key xs) key ys
unfolding floor_key
floor_key-append best key [] ys = refl
floor_key-append best key (x ∷ xs) ys =
    floor_key-append (if ltb key x.0 then best else some x.0) key xs ys

-- Keys above the one looked for change nothing.
floor_key_above :
    (best : Option ℕ) (key : ℕ) (xs : List (ℕ × ℕ))
    → All (λ x. key < x.0) xs
    → floor_key best key xs ≡ best
unfolding floor_key
floor_key_above best key [] h = refl
floor_key_above best key (x ∷ xs) (p, h) =
    let e : ltb key x.0 ≡ true = ground arith in rw e (floor_key_above best key xs h)

-- Nor do equal ones, once there is one.
floor_key_equal :
    (key : ℕ) (xs : List (ℕ × ℕ)) → All (λ x. key ≤ x.0) xs → floor_key (some key) key xs ≡ some key
unfolding floor_key
floor_key_equal key [] h = refl
floor_key_equal key (x ∷ xs) (p, h) = ground (arith, floor_key_equal key xs h)

All-above :
    (key k : ℕ) (xs : List (ℕ × ℕ)) → key < k → All (λ x. k ≤ x.0) xs → All (λ x. key < x.0) xs
All-above key k [] lt h = tt
All-above key k (x ∷ xs) lt (p, h) = (omega arith, All-above key k xs lt h)

search_loop-left :
    (best l r : Link) (k i key : ℕ) (b : Bool)
    → ltb key k ≡ true
    → search_loop best (node k i b l r) key ≡ search_loop best l key
unfolding search_loop
search_loop-left best l r k i key b e = rw (search_loop, e) refl

search_loop_found :
    (best l r : Link) (k i key : ℕ) (b : Bool)
    → ltb key k ≡ false
    → (k == key) ≡ true
    → search_loop best (node k i b l r) key ≡ node k i b l r
unfolding search_loop
search_loop_found best l r k i key b e e' = rw (search_loop, e, e') refl

search_loop-right :
    (best l r : Link) (k i key : ℕ) (b : Bool)
    → ltb key k ≡ false
    → (k == key) ≡ false
    → search_loop best (node k i b l r) key ≡ search_loop (node k i b l r) r key
unfolding search_loop
search_loop-right best l r k i key b e e' = rw (search_loop, e, e') refl

floor_key-node :
    (best : Option ℕ) (key k i : ℕ) (b : Bool) (l r : Link)
    → floor_key best key (entries (node k i b l r))
      ≡ floor_key (if ltb key k then floor_key best key (entries l) else some k) key (entries r)
unfolding floor_key entries
floor_key-node best key k i b l r = floor_key-append best key (entries l) ((k, i) ∷ entries r)

search_loop-floor_key :
    (best tree : Link) (key : ℕ)
    → IsSorted (entries tree)
    → key_of (search_loop best tree key) ≡ floor_key (key_of best) key (entries tree)
search_loop-floor_key best (thread p) key h = unfold search_loop floor_key entries in refl
search_loop-floor_key best (node k i b l r) key h =
    let (below, sorted_l, sorted_r, above) =
      IsSorted-append (entries l) (k, i) (entries r) (unfold entries in h) in
    let split = floor_key-node (key_of best) key k i b l r in
    elim (Bool-cases (ltb key k)) [
      | inl e ↦
          ap key_of (search_loop-left best l r k i key b e)
          ∙ search_loop-floor_key best l key sorted_l
          ∙ sym (
              split
              ∙ rw e (
                  floor_key_above (floor_key (key_of best) key (entries l)) key (entries r)
                    (All-above key k (entries r) (ground (arith, e)) above)))
      | inr e ↦ elim (Bool-cases (k == key)) [
        | inl e' ↦
            let same : k ≡ key = ground (arith, e') in
            ap key_of (search_loop_found best l r k i key b e e')
            ∙ sym (split ∙ rw e (rw same (floor_key_equal key (entries r) (rw same at above))))
        | inr e' ↦
            ap key_of (search_loop-right best l r k i key b e e')
            ∙ search_loop-floor_key (node k i b l r) r key sorted_r
            ∙ sym (split ∙ rw e refl)
      ]
    ]

-- The search finds a node of the greatest key that is not above the one looked for, and NULL if there
-- is none.
pub rb_search-floor_key :
    (tree : Link) (key : ℕ)
    → IsSorted (entries tree)
    → key_of (rb_search tree key) ≡ floor_key none key (entries tree)
unfolding rb_search
rb_search-floor_key tree key h = search_loop-floor_key null tree key h
