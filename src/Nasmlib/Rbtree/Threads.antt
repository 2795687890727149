-- ===== src/Nasmlib/Rbtree/Threads.antt =====
-- The threads of the trees of nasmlib/rbtree.c.
use nasm.Prelude.{
  ℕ, ◌≡◌, refl, sym, Bool, true, false, Option, none, some, ltb, Bool-cases, inl, inr,
  if◌then◌else◌,
}
use mathlib.Core.Path.{subst}
use nasm.Nasmlib.Rbtree.Rounds.{
  left_inserted, right_inserted, insert_flipped-left, insert_flipped-right,
}
use nasm.Nasmlib.Rbtree.{
  Link, thread, node, recolour, rotate_left, rotate_right, handed_over, fix_left, fix_right,
  is_red_right, is_red_left_left, is_red_both, attach_left, attach_right, insert_flipped, rb_insert,
}

pub data Side : Type 0 where
  left right : Side

abbrev pub end_of : Side → Option ℕ → Option ℕ → Option ℕ
end_of left p s = p
end_of right p s = s

-- A link on a side, between the nodes `p` and `s`: each thread is to the neighbour in order.
abbrev pub IsThreaded : Side → Option ℕ → Option ℕ → Link → Type 0
IsThreaded side p s (thread q) = q ≡ end_of side p s
IsThreaded side p s (node k i b l r) = IsThreaded left p (some i) l × IsThreaded right (some i) s r

recolour-IsThreaded :
    (side : Side) (p s : Option ℕ) (flip : Bool) (t : Link)
    → IsThreaded side p s t
    → IsThreaded side p s (recolour flip t)
recolour-IsThreaded side p s flip (thread q) h = h
recolour-IsThreaded side p s flip (node k i b l r) h = h

handed_over-left :
    (i x : ℕ) (t : Link)
    → IsThreaded left (some i) (some x) t
    → IsThreaded right (some i) (some x) (handed_over x t)
handed_over-left i x (thread q) h = refl
handed_over-left i x (node k j b l r) h = h

handed_over-right :
    (i x : ℕ) (t : Link)
    → IsThreaded right (some x) (some i) t
    → IsThreaded left (some x) (some i) (handed_over x t)
handed_over-right i x (thread q) h = refl
handed_over-right i x (node k j b l r) h = h

rotate_left-IsThreaded :
    (side : Side) (p s : Option ℕ) (t : Link)
    → IsThreaded side p s t
    → IsThreaded side p s (rotate_left t)
rotate_left-IsThreaded side p s (thread q) h = h
rotate_left-IsThreaded side p s (node k i b l (thread q)) h = h
rotate_left-IsThreaded side p s (node k i b l (node xk xi xb xl xr)) (hl, (hxl, hxr)) =
    ((hl, handed_over-left i xi xl hxl), hxr)

rotate_right-IsThreaded :
    (side : Side) (p s : Option ℕ) (t : Link)
    → IsThreaded side p s t
    → IsThreaded side p s (rotate_right t)
rotate_right-IsThreaded side p s (thread q) h = h
rotate_right-IsThreaded side p s (node k i b (thread q) r) h = h
rotate_right-IsThreaded side p s (node k i b (node xk xi xb xl xr) r) ((hxl, hxr), hr) =
    (hxl, (handed_over-right i xi xr hxr, hr))

fix-IsThreaded :
    (side : Side) (p s : Option ℕ) (t : Link)
    → IsThreaded side p s t
    → IsThreaded side p s (fix_left (fix_right t))
fix-IsThreaded side p s t h =
    lefts (fix_right t) (is_red_left_left (fix_right t)) (rights t (is_red_right t) h)
  where
    lefts :
        (t : Link) (b : Bool)
        → IsThreaded side p s t
        → IsThreaded side p s (if b then rotate_right t else t)
    lefts t true h = rotate_right-IsThreaded side p s t h
    lefts t false h = h

    rights :
        (t : Link) (b : Bool)
        → IsThreaded side p s t
        → IsThreaded side p s (if b then rotate_left t else t)
    rights t true h = rotate_left-IsThreaded side p s t h
    rights t false h = h

-- What an insertion below makes of the link to a child.
abbrev Attached : Link → ℕ → ℕ → Type 0
Attached t key id =
    (flip : Bool) (up : ℕ) (n : Option ℕ)
    → (IsThreaded left n (some up) t
        → IsThreaded left n (some up) (attach_left key id up t (insert_flipped flip t key id)))
      × (IsThreaded right (some up) n t
          → IsThreaded right (some up) n (attach_right key id up t (insert_flipped flip t key id)))

Attached-node :
    (flipped : Bool) (k i : ℕ) (b : Bool) (l r : Link) (key id : ℕ) (side : Side) (p s : Option ℕ)
    → IsThreaded side p s (node k i b l r)
    → Attached l key id
    → Attached r key id
    → IsThreaded side p s (insert_flipped flipped (node k i b l r) key id)
Attached-node flipped k i b l r key id side p s (hl, hr) al ar =
    let flip = is_red_both (node k i b l r) in
    elim (Bool-cases (ltb key k)) [
      | inl e ↦
          subst (λ t. IsThreaded side p s t) (sym (insert_flipped-left flipped k i b l r key id e))
            (fix-IsThreaded side p s (left_inserted flipped k i b l r key id)
              ((al flip i p).0 hl, recolour-IsThreaded right (some i) s flip r hr))
      | inr e ↦
          subst (λ t. IsThreaded side p s t) (sym (insert_flipped-right flipped k i b l r key id e))
            (fix-IsThreaded side p s (right_inserted flipped k i b l r key id)
              (recolour-IsThreaded left p (some i) flip l hl, (ar flip i s).1 hr))
    ]

Attached_lem : (t : Link) (key id : ℕ) → Attached t key id
Attached_lem (thread q) key id flip up n = (λ h. (h, refl), λ h. (refl, h))
Attached_lem (node k i b l r) key id flip up n =
    let al = Attached_lem l key id in
    let ar = Attached_lem r key id in
    (
      λ h. Attached-node flip k i b l r key id left n (some up) h al ar,
      λ h. Attached-node flip k i b l r key id right (some up) n h al ar,
    )

-- A tree, or NULL.
abbrev pub IsTree : Link → Type 0
IsTree t = IsThreaded left none none t

-- An insertion keeps every thread on the neighbour in order.
pub rb_insert-IsTree : (tree : Link) (key id : ℕ) → IsTree tree → IsTree (rb_insert tree key id)
unfolding rb_insert
rb_insert-IsTree (thread p) key id h = (refl, refl)
rb_insert-IsTree (node k i b l r) key id h =
    Attached-node false k i b l r key id left none none h (Attached_lem l key id)
      (Attached_lem r key id)
