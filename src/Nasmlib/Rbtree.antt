-- ===== src/Nasmlib/Rbtree.antt =====
-- nasmlib/rbtree.c: threaded trees of 64-bit keys.
--
-- A pointer to a node is the node itself, and `thread` is a pointer with RBTREE_NODE_PRED or
-- RBTREE_NODE_SUCC: to the predecessor or successor, by its identity, or NULL. The flag
-- RBTREE_NODE_BLACK is the Boolean of a node. A tree that is NULL is `thread none`.
pub mod Order
pub mod Search
pub mod Threads
pub mod Rounds
pub mod Walk
use nasm.Prelude.{
  ℕ, Bool, true, false, not, ◌&&◌, List, [], ◌∷◌, ◌++◌, Option, none, some, ltb, ◌==◌,
  if◌then◌else◌,
}

-- The key, the identity, the colour, and the two pointers.
pub data Link : Type 0 where
  thread : Option ℕ → Link
  node : ℕ → ℕ → Bool → Link → Link → Link

abbrev pub null : Link
null = thread none

-- The `while` loop, with `best`; it ends where the pointer to follow is a thread.
unfoldable pub search_loop : Link → Link → ℕ → Link
search_loop best (thread p) key = best
search_loop best (node k i b l r) key = elim (ltb key k) [
  | true ↦ search_loop best l key
  | false ↦ elim (k == key) [ true ↦ node k i b l r | false ↦ search_loop (node k i b l r) r key ]
]

unfoldable pub rb_search : Link → ℕ → Link
unfolding search_loop
rb_search tree key = search_loop null tree key

abbrev pub has_key : Link → ℕ → Bool
has_key (thread p) key = false
has_key (node k i b l r) key = k == key

unfoldable pub rb_search_exact : Link → ℕ → Link
unfolding rb_search
rb_search_exact tree key = let rv = rb_search tree key in if has_key rv key then rv else null

-- Neither test looks at the colour of a thread.
abbrev pub is_red_left_left : Link → Bool
is_red_left_left (node k i b (node lk li false (node llk lli llb lll llr) lr) r) = not llb
is_red_left_left _ = false

abbrev pub is_red_right : Link → Bool
is_red_right (node k i b l (node rk ri rb rl rr)) = not rb
is_red_right _ = false

abbrev pub is_red_both : Link → Bool
is_red_both (node k i b (node lk li lb ll lr) (node rk ri rb rl rr)) = not (lb && rb)
is_red_both _ = false

-- The link of the node that goes down: where the other node had no child it is a thread to that
-- node.
abbrev pub handed_over : ℕ → Link → Link
handed_over x (thread p) = thread (some x)
handed_over x (node k i b l r) = node k i b l r

abbrev pub rotate_left : Link → Link
rotate_left (node k i b l (node xk xi xb xl xr)) =
    node xk xi b (node k i false l (handed_over xi xl)) xr
rotate_left t = t

abbrev pub rotate_right : Link → Link
rotate_right (node k i b (node xk xi xb xl xr) r) =
    node xk xi b xl (node k i false (handed_over xi xr) r)
rotate_right t = t

-- `m.flags ^= RBTREE_NODE_BLACK`, if `flip`
abbrev pub flip_if : Bool → Bool → Bool
flip_if true b = not b
flip_if false b = b

abbrev pub recolour : Bool → Link → Link
recolour flip (thread p) = thread p
recolour flip (node k i b l r) = node k i (flip_if flip b) l r

abbrev pub color_flip : Link → Link
color_flip (thread p) = thread p
color_flip (node k i b l r) = node k i (not b) (recolour true l) (recolour true r)

abbrev pub fix_right : Link → Link
fix_right tree = if is_red_right tree then rotate_left tree else tree

abbrev pub fix_left : Link → Link
fix_left tree = if is_red_left_left tree then rotate_right tree else tree

-- A new node in place of the thread of the node `up`; and the result of the recursive call where
-- there is a child.
abbrev pub attach_left : ℕ → ℕ → ℕ → Link → Link → Link
attach_left key id up (thread p) below = node key id false (thread p) (thread (some up))
attach_left key id up (node k i b l r) below = below

abbrev pub attach_right : ℕ → ℕ → ℕ → Link → Link → Link
attach_right key id up (thread p) below = node key id false (thread (some up)) (thread p)
attach_right key id up (node k i b l r) below = below

-- `_rb_insert`, of a tree whose root has first been recoloured if `flipped`, as `color_flip` has done
-- in the caller.
unfoldable pub insert_flipped : Bool → Link → ℕ → ℕ → Link
insert_flipped flipped (thread p) key id = thread p
insert_flipped flipped (node k i b l r) key id =
    let flip = is_red_both (node k i b l r) in
    let below_left = insert_flipped flip l key id in
    let below_right = insert_flipped flip r key id in
    let b' = flip_if flip (flip_if flipped b) in
    elim (ltb key k) [
      | true ↦
          fix_left (fix_right (node k i b' (attach_left key id i l below_left) (recolour flip r)))
      | false ↦
          fix_left (fix_right (node k i b' (recolour flip l) (attach_right key id i r below_right)))
    ]

unfoldable pub rb_insert : Link → ℕ → ℕ → Link
unfolding insert_flipped
rb_insert (thread p) key id = node key id false (thread none) (thread none)
rb_insert (node k i b l r) key id = insert_flipped false (node k i b l r) key id

unfoldable pub rb_first : Link → Link
rb_first (thread p) = null
rb_first (node k i b (thread p) r) = node k i b (thread p) r
rb_first (node k i b (node lk li lb ll lr) r) = rb_first (node lk li lb ll lr)

unfoldable pub rb_last : Link → Link
rb_last (thread p) = null
rb_last (node k i b l (thread p)) = node k i b l (thread p)
rb_last (node k i b l (node rk ri rb rl rr)) = rb_last (node rk ri rb rl rr)

-- A pointer as an identity.
abbrev pub identity : Link → Option ℕ
identity (thread p) = p
identity (node k i b l r) = some i

unfoldable pub rb_prev : Link → Option ℕ
unfolding rb_last
rb_prev (node k i b (thread p) r) = p
rb_prev (node k i b (node lk li lb ll lr) r) = identity (rb_last (node lk li lb ll lr))
rb_prev (thread p) = none

unfoldable pub rb_next : Link → Option ℕ
unfolding rb_first
rb_next (node k i b l (thread p)) = p
rb_next (node k i b l (node rk ri rb rl rr)) = identity (rb_first (node rk ri rb rl rr))
rb_next (thread p) = none

-- The keys and identities in order.
unfoldable pub entries : Link → List (ℕ × ℕ)
entries (thread p) = []
entries (node k i b l r) = entries l ++ (k, i) ∷ entries r
