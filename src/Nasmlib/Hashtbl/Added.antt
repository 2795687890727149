-- ===== src/Nasmlib/Hashtbl/Added.antt =====
-- A new node in a table of nasmlib/hashtbl.c that has been made.
use nasm.Prelude.{
  ℕ, suc, ◌+◌, ◌*◌, ◌^◌, ◌≤◌, ◌<◌, ◌≡◌, ◌⊎◌, refl, sym, ap, ◌∙◌, Bool, false, List, some, ltb,
  if◌then◌else◌, arith, Bool-cases, inl, inr,
}
use mathlib.Core.Path.{subst}
use native.Mathlib.Nat.{pow-suc}
use nasm.Nasmlib.Hashtbl.{
  HashNode, Table, HashTable, HashInsert, hash_max_load, empty_table, put_node, rehash, expanded,
  expand_if_full,
}
use nasm.Nasmlib.Hashtbl.Keys.{IsKeyed}
use nasm.Nasmlib.Hashtbl.Count.{count, count-put_node, put_node_self}
use nasm.Nasmlib.Hashtbl.Invariant.{
  IsNode, IsFilled, IsNode-put_node, put_node-IsNode, put_node-IsFilled,
}
use nasm.Nasmlib.Hashtbl.Rehash.{IsFree, IsMoved, rehash-IsMoved, nothing-IsMoved}
use nasm.Nasmlib.Hashtbl.Map.{IsFull}

-- The nodes of a table are those of an older one and one more.
pub record Added (calc : List ℕ → ℕ) (same : List ℕ → List ℕ → Bool) (t : Table) (size : ℕ)
    (x : HashNode) (head : HashTable) (t' : Table) (np : ℕ) : Type 0 where
  pub full : IsFull calc same head t'
  pub made : head.table ≡ some t'
  pub there : IsNode t' head.size np x
  pub was :
      (q : ℕ) (y : HashNode) → IsNode t' head.size q y → (y ≡ x) ⊎ ((p : ℕ) × IsNode t size p y)
  pub is : (p : ℕ) (y : HashNode) → IsNode t size p y → (q : ℕ) × IsNode t' head.size q y

abbrev pub node_of : HashInsert → ℕ → HashNode
node_of insert data_ = record { hash = insert.node_hash; key = insert.node_key; data_ = data_ }

module _ (calc : List ℕ → ℕ) (same : List ℕ → List ℕ → Bool) (keyed : IsKeyed calc same)
    (head : HashTable) (t : Table) (np : ℕ) (x : HashNode) (f : IsFull calc same head t)
    (free : IsFree t head.size x.hash np) (hashed : x.hash ≡ calc x.key)
    (fresh : (q : ℕ) (y : HashNode) → IsNode t head.size q y → same x.key y.key ≡ false) where
  put-IsFilled : IsFilled calc same (put_node t np x) head.size
  put-IsFilled =
      put_node-IsFilled calc same t head.size np x f.filled free.free free.round keyed hashed
        free.at_ free.before fresh

  put_counted : head.load + 1 ≡ count (put_node t np x) head.size
  put_counted = omega (arith, f.counted, count-put_node t np x head.size free.inside free.free)

  put_there : IsNode (put_node t np x) head.size np x
  put_there = record { inside = free.inside; here = put_node_self t np x }

  put_was :
      (q : ℕ) (y : HashNode)
      → IsNode (put_node t np x) head.size q y
      → (y ≡ x) ⊎ ((p : ℕ) × IsNode t head.size p y)
  put_was q y n = elim (put_node-IsNode calc same t head.size np x f.filled free.free q y n) [
    | inl (i, e) ↦ inl e
    | inr old ↦ inr (q, old)
  ]

  put_is :
      (p : ℕ) (y : HashNode)
      → IsNode t head.size p y
      → (q : ℕ) × IsNode (put_node t np x) head.size q y
  put_is p y n = (p, IsNode-put_node calc same t head.size np x f.filled free.free p y n)

  -- The table is large enough.
  stays :
      head.load + 1 ≤ head.max_load
      → Added calc same t head.size x
          (record head { table = some (put_node t np x); load = head.load + 1 })
          (put_node t np x)
          np
  stays h = record {
    full = record {
      width = f.width;
      is_power = f.is_power;
      large = f.large;
      filled = put-IsFilled;
      counted = put_counted;
      light = h;
      limit = f.limit;
    };
    made = refl;
    there = put_there;
    was = put_was;
    is = put_is;
  }

  doubled : head.size * 2 ≡ 2 ^ suc f.width
  doubled = ap (λ n. n * 2) f.is_power ∙ sym (pow-suc 2 f.width)

  wide : head.size < 2 ^ suc f.width
  wide = omega (arith, doubled, f.large)

  -- The nodes are moved to a table of twice the size.
  moved :
      (new : Table) × (np' : ℕ) × (rehash head.size
          (put_node t np x)
          empty_table
          (head.size * 2)
          np
          0
          np
        ≡ some (new, np'))
      × IsMoved calc same (put_node t np x) new (head.size * 2) np head.size np'
  moved =
      subst
        (λ n.
          (new : Table) × (np' : ℕ) × (rehash head.size (put_node t np x) empty_table n np 0 np
            ≡ some (new, np'))
          × IsMoved calc same (put_node t np x) new n np head.size np')
        (sym doubled)
        (rehash-IsMoved calc same keyed (put_node t np x) head.size (suc f.width) np put-IsFilled
          wide head.size empty_table 0 np (omega arith)
          (nothing-IsMoved calc same keyed (put_node t np x) head.size (suc f.width) np put-IsFilled
            wide np))

  grows :
      (new : Table) (np' : ℕ)
      → IsMoved calc same (put_node t np x) new (head.size * 2) np head.size np'
      → Added calc same t head.size x
          record {
            table = some new;
            load = head.load + 1;
            size = head.size * 2;
            max_load = hash_max_load (head.size * 2);
          }
          new
          np'
  grows new np' m = record {
    full = record {
      width = suc f.width;
      is_power = doubled;
      large = omega (arith, f.large);
      filled = m.filled;
      counted = put_counted ∙ sym m.counted;
      light = omega (arith, f.light, f.limit, f.large);
      limit = refl;
    };
    made = refl;
    there = m.tracked x free.inside put_there.here;
    was =
        λ q y n. let (p, below, h) = m.was q y n in put_was p y record { inside = below; here = h };
    is = λ p y n. let (q, n') = put_is p y n in m.is q y n'.inside n'.here;
  }

  abbrev fuller : HashTable
  fuller = record head { load = head.load + 1 }

  pub expand-Added :
      (head' : HashTable) × (np' : ℕ) × (t' : Table) × (expand_if_full
          (record head { load = head.load + 1 })
          (put_node t np x)
          np
        ≡ some (head', np'))
      × Added calc same t head.size x head' t' np'
  unfolding expand_if_full
  expand-Added = elim (Bool-cases (ltb head.max_load (head.load + 1))) [
    | inl more ↦
        let (new, np', step, m) = moved in
        (
          record {
            table = some new;
            load = head.load + 1;
            size = head.size * 2;
            max_load = hash_max_load (head.size * 2);
          },
          np',
          new,
          ap
                (λ b.
                  if b
                  then expanded fuller (head.size * 2)
                      (rehash head.size (put_node t np x) empty_table (head.size * 2) np 0 np)
                  else some (record fuller { table = some (put_node t np x) }, np))
                more
              ∙ ap (expanded fuller (head.size * 2)) step,
          grows new np' m,
        )
    | inr less ↦ (
      record head { table = some (put_node t np x); load = head.load + 1 },
      np,
      put_node t np x,
      ap
          (λ b.
            if b
            then expanded fuller (head.size * 2)
                (rehash head.size (put_node t np x) empty_table (head.size * 2) np 0 np)
            else some (record fuller { table = some (put_node t np x) }, np))
          less,
      stays (ground (arith, less)),
    )
  ]
