-- ===== src/Disasm/Sync/Lower.antt =====
-- The child that a round of `next_sync` in disasm/sync.c moves up.
use nasm.Prelude.{
  ℕ, ◌+◌, ◌*◌, ◌/◌, ◌≤◌, ◌<◌, ◌≡◌, ◌⊎◌, refl, ◌&&◌, ◌||◌, none, some, ltb, leb, ◌==◌, arith,
  Bool-cases, inl, inr,
}
use nasm.Disasm.Sync.{Sync, lower}

-- The child that takes the place is the least of the two and less than the point.
pub record IsLower (a : ℕ → Sync) (n i c : ℕ) : Type 0 where
  pub found : lower a n i ≡ some c
  pub child : c / 2 ≡ i
  pub inside : c ≤ n
  pub less : (a c).pos < (a i).pos
  pub least : (k : ℕ) → k ≤ n → k / 2 ≡ i → (a c).pos ≤ (a k).pos

pub record IsLowest (a : ℕ → Sync) (n i : ℕ) : Type 0 where
  pub found : lower a n i ≡ none
  pub least : (k : ℕ) → k ≤ n → k / 2 ≡ i → (a i).pos ≤ (a k).pos

children : (k i : ℕ) → k / 2 ≡ i → (k ≡ i * 2) ⊎ (k ≡ i * 2 + 1)
children k i h = elim (Bool-cases (k == i * 2)) [
  | inl e ↦ inl (ground arith)
  | inr e ↦ inr (ground arith)
]

pub IsLower-cases : (a : ℕ → Sync) (n i : ℕ) → IsLowest a n i ⊎ ((c : ℕ) × IsLower a n i c)
IsLower-cases a n i =
    let j = i * 2 in
    elim (Bool-cases (ltb n j)) [
      | inl e ↦ inl record { found = rw (e) refl; least = λ k kn h. absurd (ground arith) }
      | inr e ↦
          elim (Bool-cases
            (ltb (a j).pos (a i).pos && (ltb n (j + 1) || ltb (a j).pos (a (j + 1)).pos))) [
              | inl e1 ↦ inr (
                j,
                record {
                  found = rw (e) rw (e1) refl;
                  child = omega arith;
                  inside = ground arith;
                  less = ground arith;
                  least = λ k kn h. elim (children k i h) [
                    | inl q ↦ rw (q) ground arith
                    | inr q ↦ rw (q) ground arith
                  ];
                },
              )
              | inr e1 ↦ elim (Bool-cases (leb (j + 1) n && ltb (a (j + 1)).pos (a i).pos)) [
                | inl e2 ↦ inr (
                  j + 1,
                  record {
                    found = rw (e) rw (e1) rw (e2) refl;
                    child = omega arith;
                    inside = ground arith;
                    less = ground arith;
                    least = λ k kn h. elim (children k i h) [
                      | inl q ↦ rw (q) ground arith
                      | inr q ↦ rw (q) ground arith
                    ];
                  },
                )
                | inr e2 ↦ inl record {
                  found = rw (e) rw (e1) rw (e2) refl;
                  least = λ k kn h. elim (children k i h) [
                    | inl q ↦ rw (q) ground arith
                    | inr q ↦ rw (q) ground arith
                  ];
                }
              ]
            ]
    ]
