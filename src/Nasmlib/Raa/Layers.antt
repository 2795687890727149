-- ===== src/Nasmlib/Raa/Layers.antt =====
-- The layers of nasmlib/raa.c: what a write does below the top.
use nasm.Prelude.{
  ℕ, zero, suc, ◌+◌, ◌-◌, ◌*◌, ◌/◌, ◌%◌, ◌^◌, ◌≤◌, ◌<◌, ◌≡◌, refl, sym, ap, ◌∙◌, Bool, true, ◌&&◌,
  none, some, ◌==◌, if◌then◌else◌, arith, two_pow_add, Bool-cases, inl, inr,
}
use mathlib.Core.Path.{subst}
use native.Mathlib.Nat.{
  div-add-mod, mod-lt, one-le-pow, mul-add-mod_self_left, mod-eq_of_lt, mul-le-mul_left,
}
use nasm.Nasmlib.Raa.{
  Raa, absent, leaf, branch, layershift, layersize, find, put, update, or_init, raa_init_layer,
}

-- The positions that a layer tells apart.
abbrev pub span : ℕ → ℕ
span n = 2 ^ (layershift * (n + 1))

-- A layer with `n` layers below it.
abbrev pub IsLayer : ℕ → Raa → Type 0
IsLayer n absent = Unit
IsLayer n (leaf e items) = n ≡ 0
IsLayer zero (branch layers shift e items) = ⊥
IsLayer (suc n) (branch layers shift e items) =
    (layers ≡ suc n) × (shift ≡ suc n * layershift) × ((i : ℕ) → IsLayer n (items i))

-- The item at a position, or 0.
unfoldable pub item : Raa → ℕ → ℕ
unfolding find
item r posn = elim (find r posn) [ some i ↦ i | none ↦ 0 ]

pub item-branch :
    (l sh e q : ℕ) (items : ℕ → Raa)
    → item (branch l sh e items) q ≡ item (items (q / 2 ^ sh % layersize)) q
unfolding item
item-branch l sh e q items = refl

split_mod : (x m k : ℕ) → 0 < m → 0 < k → x % (m * k) ≡ x % m + m * (x / m % k)
split_mod x m k hm hk =
    ap (λ t. t % (m * k)) regrouped
    ∙ mul-add-mod_self_left (m * k) (x / m / k) (x % m + m * (x / m % k))
    ∙ mod-eq_of_lt below
  where
    regrouped : x ≡ m * k * (x / m / k) + (x % m + m * (x / m % k))
    regrouped =
        sym (div-add-mod x m) ∙ ap (λ t. m * t + x % m) (sym (div-add-mod (x / m) k)) ∙ grind arith

    below : x % m + m * (x / m % k) < m * k
    below =
        let le : m * (x / m % k + 1) ≤ m * k =
          mul-le-mul_left m (omega (arith, mod-lt (x / m) hk)) in
        omega (arith, mod-lt x hm)

-- Two positions that a layer and those below it do not tell apart.
abbrev pub digit : ℕ → ℕ → ℕ
digit n p = p / span n % layersize

abbrev pub agree : ℕ → ℕ → ℕ → Bool
agree zero p q = p % layersize == q % layersize
agree (suc n) p q = digit n p == digit n q && agree n p q

span-suc : (n : ℕ) → span (suc n) ≡ span n * layersize
span-suc n =
    let e : layershift * (suc n + 1) ≡ layershift * (n + 1) + 11 = omega arith in
    ap (λ t. 2 ^ t) e ∙ two_pow_add (layershift * (n + 1)) 11

pub span-shift : (n : ℕ) → 2 ^ (suc n * layershift) ≡ span n
span-shift n = ap (λ t. 2 ^ t) (omega arith)

same_mod :
    (x y m k : ℕ)
    → 0 < m
    → 0 < k
    → x % m ≡ y % m
    → x / m % k ≡ y / m % k
    → x % (m * k) ≡ y % (m * k)
same_mod x y m k hm hk e e' = split_mod x m k hm hk ∙ rw (e, e') (sym (split_mod y m k hm hk))

and_both : (a b : Bool) → (a && b) ≡ true → (a ≡ true) × (b ≡ true)
and_both a b h = ground arith

pub agree-mod : (n p q : ℕ) → agree n p q ≡ true → p % span n ≡ q % span n
agree-mod zero p q h = ground arith
agree-mod (suc n) p q h =
    let pos = one-le-pow (layershift * (n + 1)) 2 (omega arith) in
    let (high, low) = and_both (digit n p == digit n q) (agree n p q) h in
    let same : digit n p ≡ digit n q = ground (arith, high) in
    subst (λ t. p % t ≡ q % t) (sym (span-suc n))
      (same_mod p q (span n) layersize pos (omega arith) (agree-mod n p q low) same)

pub agree_refl : (n p : ℕ) → agree n p p ≡ true
agree_refl zero p = ground arith
agree_refl (suc n) p = ground (arith, agree_refl n p)

pub item-init : (n posn q : ℕ) → item (raa_init_layer posn n) q ≡ 0
unfolding raa_init_layer item
item-init zero posn q = refl
item-init (suc n) posn q = refl

pub raa_init_layer-IsLayer : (n posn : ℕ) → IsLayer n (raa_init_layer posn n)
unfolding raa_init_layer
raa_init_layer-IsLayer zero posn = refl
raa_init_layer-IsLayer (suc n) posn = (refl, refl, λ i. tt)

or_init-IsLayer : (n posn : ℕ) (r : Raa) → IsLayer n r → IsLayer n (or_init r posn n)
or_init-IsLayer n posn absent h = raa_init_layer-IsLayer n posn
or_init-IsLayer n posn (leaf e items) h = h
or_init-IsLayer n posn (branch l sh e items) h = h

item-or_init : (n posn q : ℕ) (r : Raa) → item (or_init r posn n) q ≡ item r q
unfolding item
item-or_init n posn q absent = item-init n posn q
item-or_init n posn q (leaf e items) = refl
item-or_init n posn q (branch l sh e items) = refl

abbrev pub IsPresent : Raa → Type 0
IsPresent absent = ⊥
IsPresent _ = Unit

or_init-IsPresent : (n posn : ℕ) (r : Raa) → IsPresent (or_init r posn n)
unfolding raa_init_layer
or_init-IsPresent zero posn absent = tt
or_init-IsPresent (suc n) posn absent = tt
or_init-IsPresent n posn (leaf e items) = tt
or_init-IsPresent n posn (branch l sh e items) = tt

put-child :
    (n : ℕ) (c : Raa) (p q value : ℕ)
    → item (put n (or_init c p n) p value) q
      ≡ (if agree n p q then value else item (or_init c p n) q)
    → item (put n (or_init c p n) p value) q ≡ (if agree n p q then value else item c q)
put-child n c p q value h = h ∙ rw (item-or_init n p q c) refl

-- The child at `q` of a branch whose child at `p` has been written to.
put-branch :
    (n a b p q value : ℕ) (items : ℕ → Raa)
    → item (put n (or_init (items a) p n) p value) q
      ≡ (if agree n p q then value else item (items a) q)
    → item (update items a (put n (or_init (items a) p n) p value) b) q
      ≡ (if a == b && agree n p q then value else item (items b) q)
put-branch n a b p q value items h = elim (Bool-cases (a == b)) [
  | inl e ↦ let same : a ≡ b = ground (arith, e) in rw e (h ∙ rw same refl)
  | inr e ↦ rw e refl
]

-- A write below a layer changes the items at the positions that agree.
pub item-put :
    (n : ℕ) (r : Raa) (p q value : ℕ)
    → IsLayer n r
    → IsPresent r
    → item (put n r p value) q ≡ (if agree n p q then value else item r q)
unfolding put
item-put n absent p q value h h' = absurd h'
item-put zero (leaf e items) p q value h h' = unfold item in ground arith
item-put (suc n) (leaf e items) p q value h h' = absurd (omega arith)
item-put zero (branch l sh e items) p q value h h' = absurd h
item-put (suc n) (branch l sh e items) p q value (hl, hsh, hi) h' =
    let S : 2 ^ sh ≡ span n = ap (λ t. 2 ^ t) hsh ∙ span-shift n in
    let L : l - 1 ≡ n = omega arith in
    let i = digit n p in
    rw
      (
        item-branch l sh e q items,
        item-branch l sh e q (
            update items (p / 2 ^ sh % layersize)
              (put n (or_init (items (p / 2 ^ sh % layersize)) p (l - 1)) p value)),
        S,
        L,
      )
      (put-branch n i (digit n q) p q value items (
        put-child n (items i) p q value (
          item-put n (or_init (items i) p n) p q value (or_init-IsLayer n p (items i) (hi i))
            (or_init-IsPresent n p (items i)))))

put-IsLayer-branch :
    (n a p value : ℕ) (items : ℕ → Raa) (c : Raa)
    → ((i : ℕ) → IsLayer n (items i))
    → IsLayer n c
    → (i : ℕ) → IsLayer n (update items a c i)
put-IsLayer-branch n a p value items c h h' i = elim (Bool-cases (a == i)) [
  | inl e ↦ rw e h'
  | inr e ↦ rw e (h i)
]

pub put-IsLayer : (n : ℕ) (r : Raa) (p value : ℕ) → IsLayer n r → IsLayer n (put n r p value)
unfolding put
put-IsLayer n absent p value h = h
put-IsLayer n (leaf e items) p value h = h
put-IsLayer zero (branch l sh e items) p value h = absurd h
put-IsLayer (suc n) (branch l sh e items) p value (hl, hsh, hi) =
    let L : n ≡ l - 1 = omega arith in
    let i = p / 2 ^ sh % layersize in
    (
      hl,
      hsh,
      put-IsLayer-branch n i p value items (put n (or_init (items i) p (l - 1)) p value) hi (
          put-IsLayer n (or_init (items i) p (l - 1)) p value (
            subst (λ m. IsLayer n (or_init (items i) p m)) L
              (or_init-IsLayer n p (items i) (hi i)))),
    )
