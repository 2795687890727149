-- ===== src/Nasmlib/Hashtbl/Probes.antt =====
-- How the loops over the slots of nasmlib/hashtbl.c end.
use nasm.Prelude.{
  ℕ, zero, suc, ◌+◌, ◌^◌, ◌<◌, ◌≡◌, ◌⊎◌, refl, sym, ap, ◌∙◌, Bool, true, false, none, some, ltb,
  if◌then◌else◌, arith, Bool-cases, Option-cases, inl, inr,
}
use mathlib.Core.Path.{subst}
use nasm.Nasmlib.Hashtbl.{HashNode, Table, Probe, hit, miss, probe, search, hash_inc}
use nasm.Nasmlib.Hashtbl.Slots.{slot, slot_onto}
use nasm.Nasmlib.Hashtbl.Count.{count, some_empty}

-- The first `m` slots that the loop comes to hold nodes that do not match.
abbrev pub Passed : (HashNode → Bool) → Table → ℕ → ℕ → ℕ → Type 0
Passed same t size hash m =
    (i : ℕ) → i < m → (x : HashNode) × (t (slot size hash i) ≡ some x) × (same x ≡ false)

pub record IsHit (same : HashNode → Bool) (t : Table) (size hash : ℕ) (r : Probe) : Type 0 where
  pub round : ℕ
  pub few : round < size
  pub node : HashNode
  pub here : t (slot size hash round) ≡ some node
  pub matching : same node ≡ true
  pub result : r ≡ hit (slot size hash round)

pub record IsMiss (same : HashNode → Bool) (t : Table) (size hash : ℕ) (r : Probe) : Type 0 where
  pub round : ℕ
  pub few : round < size
  pub here : t (slot size hash round) ≡ none
  pub passed : Passed same t size hash round
  pub result : r ≡ miss (slot size hash round)

module _ (same : HashNode → Bool) (t : Table) (size hash : ℕ) where
  abbrev from : ℕ → ℕ → Probe
  unfolding probe
  from n j = probe n same t size (hash_inc hash size) (slot size hash j)

  probe-empty : (n j : ℕ) → t (slot size hash j) ≡ none → from (suc n) j ≡ miss (slot size hash j)
  unfolding probe
  probe-empty n j e = rw (probe, e) refl

  probe-node :
      (n j : ℕ) (x : HashNode)
      → t (slot size hash j) ≡ some x
      → from (suc n) j ≡ (if same x then hit (slot size hash j) else from n (suc j))
  unfolding probe
  probe-node n j x e = rw (probe, e) refl

  one_more :
      (j : ℕ) (x : HashNode)
      → Passed same t size hash j
      → t (slot size hash j) ≡ some x
      → same x ≡ false
      → Passed same t size hash (suc j)
  one_more j x p e s i h = elim (Bool-cases (ltb i j)) [
    | inl b ↦ p i (ground (arith, b))
    | inr b ↦
        let k : j ≡ i = ground (arith, b, h) in (x, ap (λ q. t (slot size hash q)) (sym k) ∙ e, s)
  ]

  probe-cases :
      (n j : ℕ)
      → j + n ≡ size
      → Passed same t size hash j
      → IsHit same t size hash (from n j)
        ⊎ (IsMiss same t size hash (from n j) ⊎ Passed same t size hash size)
  unfolding probe
  probe-cases zero j h p =
      let e : j ≡ size = omega (arith, h) in inr (inr (subst (Passed same t size hash) e p))
  probe-cases (suc n) j h p = elim (Option-cases (t (slot size hash j))) [
    | inl e ↦ inr (
        inl record {
          round = j;
          few = omega (arith, h);
          here = e;
          passed = p;
          result = probe-empty n j e;
        })
    | inr (x, e) ↦
        let rest = probe-cases n (suc j) (omega (arith, h)) in
        elim (Bool-cases (same x)) [
          | inl s ↦ inl record {
            round = j;
            few = omega (arith, h);
            node = x;
            here = e;
            matching = s;
            result =
                probe-node n j x e
                ∙ ap (λ b. if b then hit (slot size hash j) else from n (suc j)) s;
          }
          | inr s ↦
              let step : from (suc n) j ≡ from n (suc j) =
                probe-node n j x e
                ∙ ap (λ b. if b then hit (slot size hash j) else from n (suc j)) s in
              subst
                (λ r.
                  IsHit same t size hash r
                  ⊎ (IsMiss same t size hash r ⊎ Passed same t size hash size))
                (sym step) (rest (one_more j x p e s))
        ]
  ]

-- In a table with an empty slot the loop ends.
pub search-cases :
    (same : HashNode → Bool) (t : Table) (k hash : ℕ)
    → count t (2 ^ k) < 2 ^ k
    → IsHit same t (2 ^ k) hash (search same t (2 ^ k) hash)
      ⊎ IsMiss same t (2 ^ k) hash (search same t (2 ^ k) hash)
unfolding search
search-cases same t k hash room =
    let nothing : Passed same t (2 ^ k) hash 0 = λ i h. absurd (omega arith) in
    elim (probe-cases same t (2 ^ k) hash (2 ^ k) 0 (omega arith) nothing) [
      | inl h ↦ inl h
      | inr (inl m) ↦ inr m
      | inr (inr all) ↦
          let (i, below, e) = some_empty t (2 ^ k) room in
          let (n, few, at_) = slot_onto k hash i below in
          let (x, full, other) = all n few in absurd (impossible x (sym e ∙ ap t (sym at_) ∙ full))
    ]
  where
    impossible : (x : HashNode) → none ≡ some x → ⊥
    impossible x h = cc
