-- ===== src/Nasmlib/Rbtree/Rounds.antt =====
-- The two ways down of an insertion of nasmlib/rbtree.c.
use nasm.Prelude.{ℕ, ◌≡◌, refl, Bool, true, false, ltb}
use nasm.Nasmlib.Rbtree.{
  Link, node, recolour, flip_if, fix_left, fix_right, is_red_both, attach_left, attach_right,
  insert_flipped,
}

module _ (flipped : Bool) (k i : ℕ) (b : Bool) (l r : Link) (key id : ℕ) where
  abbrev flip : Bool
  flip = is_red_both (node k i b l r)

  -- The node that an insertion to the left, or to the right, leaves to be fixed.
  abbrev pub left_inserted : Link
  left_inserted =
      node k i (flip_if flip (flip_if flipped b))
        (attach_left key id i l (insert_flipped flip l key id)) (recolour flip r)

  abbrev pub right_inserted : Link
  right_inserted =
      node k i (flip_if flip (flip_if flipped b)) (recolour flip l)
        (attach_right key id i r (insert_flipped flip r key id))

  pub insert_flipped-left :
      ltb key k ≡ true
      → insert_flipped flipped (node k i b l r) key id ≡ fix_left (fix_right left_inserted)
  unfolding insert_flipped
  insert_flipped-left e = rw (insert_flipped, e) refl

  pub insert_flipped-right :
      ltb key k ≡ false
      → insert_flipped flipped (node k i b l r) key id ≡ fix_left (fix_right right_inserted)
  unfolding insert_flipped
  insert_flipped-right e = rw (insert_flipped, e) refl
