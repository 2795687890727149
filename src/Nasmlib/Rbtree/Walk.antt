-- ===== src/Nasmlib/Rbtree/Walk.antt =====
-- The successor and the predecessor of a node in nasmlib/rbtree.c.
use nasm.Prelude.{ℕ, ◌≡◌, refl, sym, ap, ◌∙◌, Bool, List, [], ◌∷◌, ◌++◌, Option, some, append_assoc}
use nasm.Nasmlib.Rbtree.Threads.{Side, left, right, IsThreaded}
use nasm.Nasmlib.Rbtree.{Link, thread, node, entries, rb_next, rb_prev, rb_first, rb_last, identity}

-- Where a pointer is to a node, the node is in the tree: at its root, or below.
pub data IsWithin (u : Link) : Link → Type 0 where
  here : IsWithin u u
  in_left : {k i : ℕ} {b : Bool} {l r : Link} → IsWithin u l → IsWithin u (node k i b l r)
  in_right : {k i : ℕ} {b : Bool} {l r : Link} → IsWithin u r → IsWithin u (node k i b l r)

-- The identity of the first entry, or of the last, or else what follows, or precedes.
abbrev pub first_or : List (ℕ × ℕ) → Option ℕ → Option ℕ
first_or [] s = s
first_or (x ∷ xs) s = some x.1

abbrev pub last_or : Option ℕ → List (ℕ × ℕ) → Option ℕ
last_or p [] = p
last_or p (x ∷ xs) = last_or (some x.1) xs

first_or-append :
    (xs ys : List (ℕ × ℕ)) (s : Option ℕ) → first_or (xs ++ ys) s ≡ first_or xs (first_or ys s)
first_or-append [] ys s = refl
first_or-append (x ∷ xs) ys s = refl

last_or-append :
    (p : Option ℕ) (xs ys : List (ℕ × ℕ)) → last_or p (xs ++ ys) ≡ last_or (last_or p xs) ys
last_or-append p [] ys = refl
last_or-append p (x ∷ xs) ys = last_or-append (some x.1) xs ys

rb_first-first :
    (k i : ℕ) (b : Bool) (l r : Link) (s : Option ℕ)
    → identity (rb_first (node k i b l r)) ≡ first_or (entries (node k i b l r)) s
unfolding rb_first entries
rb_first-first k i b (thread p) r s = refl
rb_first-first k i b (node lk li lb ll lr) r s =
    rb_first-first lk li lb ll lr (some i)
    ∙ sym (first_or-append (entries (node lk li lb ll lr)) ((k, i) ∷ entries r) s)

rb_last-last :
    (k i : ℕ) (b : Bool) (l r : Link) (p : Option ℕ)
    → identity (rb_last (node k i b l r)) ≡ last_or p (entries (node k i b l r))
unfolding rb_last entries
rb_last-last k i b l (thread q) p = sym (last_or-append p (entries l) ((k, i) ∷ []))
rb_last-last k i b l (node rk ri rb rl rr) p =
    rb_last-last rk ri rb rl rr (some i)
    ∙ sym (last_or-append p (entries l) ((k, i) ∷ entries (node rk ri rb rl rr)))

rb_next-first :
    (side : Side) (p s : Option ℕ) (k i : ℕ) (b : Bool) (l r : Link)
    → IsThreaded side p s (node k i b l r)
    → rb_next (node k i b l r) ≡ first_or (entries r) s
unfolding rb_next entries
rb_next-first side p s k i b l (thread q) h = h.1
rb_next-first side p s k i b l (node rk ri rb rl rr) h = rb_first-first rk ri rb rl rr s

rb_prev-last :
    (side : Side) (p s : Option ℕ) (k i : ℕ) (b : Bool) (l r : Link)
    → IsThreaded side p s (node k i b l r)
    → rb_prev (node k i b l r) ≡ last_or p (entries l)
unfolding rb_prev entries
rb_prev-last side p s k i b (thread q) r h = h.0
rb_prev-last side p s k i b (node lk li lb ll lr) r h = rb_last-last lk li lb ll lr p

-- The entry of the node `u` stands in the sequence of the tree between those of the nodes that
-- `rb_prev` and `rb_next` return.
abbrev pub Stands : Option ℕ → Option ℕ → Link → List (ℕ × ℕ) → Type 0
Stands p s (thread q) es = Unit
Stands p s (node k i b l r) es =
    (xs : List (ℕ × ℕ)) × (ys : List (ℕ × ℕ)) × (es ≡ xs ++ (k, i) ∷ ys)
    × (rb_prev (node k i b l r) ≡ last_or p xs)
    × (rb_next (node k i b l r) ≡ first_or ys s)

Stands-left :
    (u : Link) (p s : Option ℕ) (k i : ℕ) (es fs : List (ℕ × ℕ))
    → Stands p (some i) u es
    → Stands p s u (es ++ (k, i) ∷ fs)
Stands-left (thread q) p s k i es fs h = tt
Stands-left (node uk ui ub ul ur) p s k i es fs (xs, ys, e, prev, next) = (
  xs,
  ys ++ (k, i) ∷ fs,
  ap (λ t. t ++ (k, i) ∷ fs) e ∙ append_assoc xs ((uk, ui) ∷ ys) ((k, i) ∷ fs),
  prev,
  next ∙ sym (first_or-append ys ((k, i) ∷ fs) s),
)

Stands-right :
    (u : Link) (p s : Option ℕ) (k i : ℕ) (es fs : List (ℕ × ℕ))
    → Stands (some i) s u fs
    → Stands p s u (es ++ (k, i) ∷ fs)
Stands-right (thread q) p s k i es fs h = tt
Stands-right (node uk ui ub ul ur) p s k i es fs (xs, ys, e, prev, next) = (
  es ++ (k, i) ∷ xs,
  ys,
  ap (λ t. es ++ (k, i) ∷ t) e ∙ sym (append_assoc es ((k, i) ∷ xs) ((uk, ui) ∷ ys)),
  prev ∙ sym (last_or-append p es ((k, i) ∷ xs)),
  next,
)

Stands-root :
    (u : Link) (side : Side) (p s : Option ℕ) → IsThreaded side p s u → Stands p s u (entries u)
unfolding entries
Stands-root (thread q) side p s h = tt
Stands-root (node k i b l r) side p s h = (
  entries l,
  entries r,
  refl,
  rb_prev-last side p s k i b l r h,
  rb_next-first side p s k i b l r h,
)

-- In a threaded tree `rb_prev` and `rb_next` of each node return its neighbours in order, and NULL
-- at the ends.
pub rb_next-Stands :
    (u t : Link) (side : Side) (p s : Option ℕ)
    → IsThreaded side p s t
    → IsWithin u t
    → Stands p s u (entries t)
unfolding entries
rb_next-Stands u t side p s h here = Stands-root u side p s h
rb_next-Stands u (node k i b l r) side p s h (in_left w) =
    Stands-left u p s k i (entries l) (entries r) (rb_next-Stands u l left p (some i) h.0 w)
rb_next-Stands u (node k i b l r) side p s h (in_right w) =
    Stands-right u p s k i (entries l) (entries r) (rb_next-Stands u r right (some i) s h.1 w)
