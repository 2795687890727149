-- ===== src/Nasmlib/Hashtbl/Iterate.antt =====
-- The loop over the nodes of a table of nasmlib/hashtbl.c.
use nasm.Prelude.{
  ℕ, zero, suc, ◌+◌, ◌-◌, ◌≤◌, ◌<◌, ◌≡◌, ◌⊎◌, refl, sym, ap, ◌∙◌, List, [], ◌∷◌, Option, none, some,
  arith, Option-cases, inl, inr,
}
use nasm.Nasmlib.Hashtbl.{
  HashNode, Table, HashTable, iterate_from, hash_iterate, visit, hash_for_each,
}

-- The nodes in `n` slots from a slot on, in the order of the slots.
abbrev pub with_node : Option HashNode → List HashNode → List HashNode
with_node none rest = rest
with_node (some np) rest = np ∷ rest

abbrev pub nodes_from : ℕ → Table → ℕ → List HashNode
nodes_from zero t p = []
nodes_from (suc n) t p = with_node (t p) (nodes_from n t (suc p))

abbrev pub nodes : HashTable → List HashNode
nodes head = elim head.table [ none ↦ [] | some t ↦ nodes_from head.size t 0 ]

-- Where the iterator stops.
pub record Next (t : Table) (n p : ℕ) (q : ℕ) (x : HashNode) : Type 0 where
  pub inside : q ≤ n + p
  pub beyond : p < q
  pub rest : nodes_from n t p ≡ x ∷ nodes_from (n + p - q) t q

iterate-cases :
    (n : ℕ) (t : Table) (p : ℕ)
    → ((iterate_from n t p ≡ (0, none)) × (nodes_from n t p ≡ []))
      ⊎ ((q : ℕ) × (x : HashNode) × (iterate_from n t p ≡ (q, some x)) × Next t n p q x)
unfolding iterate_from
iterate-cases zero t p = inl (refl, refl)
iterate-cases (suc n) t p = elim (Option-cases (t p)) [
  | inl e ↦
      let skip : nodes_from (suc n) t p ≡ nodes_from n t (suc p) =
        ap (λ o. with_node o (nodes_from n t (suc p))) e in
      let step : iterate_from (suc n) t p ≡ iterate_from n t (suc p) = rw (iterate_from, e) refl in
      elim (iterate-cases n t (suc p)) [
        | inl (i, none_left) ↦ inl (step ∙ i, skip ∙ none_left)
        | inr (q, x, i, next) ↦ inr (
          q,
          x,
          step ∙ i,
          record {
            inside = omega (arith, next.inside);
            beyond = omega (arith, next.beyond);
            rest = skip ∙ next.rest ∙ ap (λ m. x ∷ nodes_from m t q) (omega arith);
          },
        )
      ]
  | inr (x, e) ↦ inr (
    suc p,
    x,
    rw (iterate_from, e) refl,
    record {
      inside = omega arith;
      beyond = omega arith;
      rest =
          ap (λ o. with_node o (nodes_from n t (suc p))) e
          ∙ ap (λ m. x ∷ nodes_from m t (suc p)) (omega arith);
    },
  )
]

end_round :
    (n : ℕ) (head : HashTable) (p : ℕ)
    → hash_iterate head p ≡ (0, none)
    → hash_for_each (suc n) head p ≡ []
unfolding hash_for_each
end_round n head p h = ap (λ r. visit r (hash_for_each n head)) h

node_round :
    (n : ℕ) (head : HashTable) (p q : ℕ) (x : HashNode)
    → hash_iterate head p ≡ (q, some x)
    → hash_for_each (suc n) head p ≡ x ∷ hash_for_each n head q
unfolding hash_for_each
node_round n head p q x h = ap (λ r. visit r (hash_for_each n head)) h

iterate_made :
    (head : HashTable) (t : Table) (p : ℕ)
    → head.table ≡ some t
    → hash_iterate head p ≡ iterate_from (head.size - p) t p
unfolding hash_iterate
iterate_made head t p e = rw (hash_iterate, e) refl

iterate_unmade : (head : HashTable) (p : ℕ) → head.table ≡ none → hash_iterate head p ≡ (0, none)
unfolding hash_iterate
iterate_unmade head p e = rw (hash_iterate, e) refl

for_each-made :
    (n : ℕ) (head : HashTable) (t : Table) (p : ℕ)
    → head.table ≡ some t
    → p ≤ head.size
    → head.size < n + p
    → hash_for_each n head p ≡ nodes_from (head.size - p) t p
for_each-made zero head t p e h k = absurd (omega (arith, h, k))
for_each-made (suc n) head t p e h k = elim (iterate-cases (head.size - p) t p) [
  | inl (i, all) ↦ end_round n head p (iterate_made head t p e ∙ i) ∙ sym all
  | inr (q, x, i, next) ↦
      let inside : q ≤ head.size = omega (arith, next.inside, h) in
      node_round n head p q x (iterate_made head t p e ∙ i)
      ∙ ap (λ l. x ∷ l)
          (for_each-made n head t q e inside (omega (arith, next.beyond, k))
            ∙ ap (λ m. nodes_from m t q) (omega (arith, h)))
      ∙ sym next.rest
]

nodes_made :
    (head : HashTable) (t : Table) → head.table ≡ some t → nodes head ≡ nodes_from head.size t 0
nodes_made head t e = rw (e) refl

nodes_unmade : (head : HashTable) → head.table ≡ none → nodes head ≡ []
nodes_unmade head e = rw (e) refl

-- A loop over any table visits every node once, in the order of the slots, in as many rounds as there
-- are slots and one more.
pub hash_for_each-nodes : (head : HashTable) → hash_for_each (head.size + 1) head 0 ≡ nodes head
hash_for_each-nodes head = elim (Option-cases head.table) [
  | inl e ↦
      ap (λ n. hash_for_each n head 0) (omega arith)
      ∙ end_round head.size head 0 (iterate_unmade head 0 e)
      ∙ sym (nodes_unmade head e)
  | inr (t, e) ↦
      for_each-made (head.size + 1) head t 0 e (omega arith) (omega arith)
      ∙ ap (λ m. nodes_from m t 0) (omega arith)
      ∙ sym (nodes_made head t e)
]
