-- ===== src/Nasmlib/Raa/Store.antt =====
-- The arrays of nasmlib/raa.c as maps from positions to items.
use nasm.Prelude.{
  ℕ, zero, suc, ◌+◌, ◌*◌, ◌/◌, ◌%◌, ◌^◌, ◌≤◌, ◌<◌, ◌≡◌, refl, sym, ap, ◌∙◌, Bool, true, false, not,
  ltb, ◌==◌, if◌then◌else◌, arith, Bool-cases, inl, inr,
}
use mathlib.Core.Path.{subst}
use nasm.Nasmlib.Raa.{
  Raa, absent, leaf, branch, layershift, layersize, real_raa_read, raa_read, raa_init_layer, grow,
  add_layer, first_item, endposn, layers_of, posmask, last_position,
}
use nasm.Nasmlib.Raa.Layers.{
  span, IsLayer, item, item-branch, IsPresent, span-shift, raa_init_layer-IsLayer, item-init,
}
use nasm.Nasmlib.Raa.Masks.{within_mask, last_position_lem, mask_below, first_digit}

-- An array that has a layer at least.
pub record IsTop (r : Raa) : Type 0 where
  pub present : IsPresent r
  pub few : layers_of r ≤ 5
  pub layer : IsLayer (layers_of r) r
  pub ends : endposn r ≡ posmask (layers_of r)

-- NULL, or such an array.
abbrev pub IsArray : Raa → Type 0
IsArray absent = Unit
IsArray (leaf e items) = IsTop (leaf e items)
IsArray (branch l sh e items) = IsTop (branch l sh e items)

pub raa_read-item :
    (r : Raa) (q : ℕ) → IsPresent r → raa_read r q ≡ (if ltb (endposn r) q then 0 else item r q)
unfolding raa_read real_raa_read item
raa_read-item absent q h = absurd h
raa_read-item (leaf e items) q h = ground arith
raa_read-item (branch l sh e items) q h = ground arith

-- A layer more leaves what is read.
add_layer-IsTop : (r : Raa) → IsTop r → layers_of r < 5 → IsTop (add_layer r)
add_layer-IsTop r t h =
    let n = layers_of r in
    let (small, inside) = mask_below n t.few h in
    record {
      present = tt;
      few = omega arith;
      layer = (refl, refl, first_item-IsLayer n r t.layer);
      ends =
          ap (λ e. last_position e (suc n)) t.ends
          ∙ last_position_lem (suc n) (omega arith) (posmask n) small inside;
    }
  where
    first_item-IsLayer : (n : ℕ) (r : Raa) → IsLayer n r → (i : ℕ) → IsLayer n (first_item r i)
    first_item-IsLayer n r h i = elim (Bool-cases (i == 0)) [ inl e ↦ rw e h | inr e ↦ rw e tt ]

chosen :
    (r : Raa) (q : ℕ) (b : Bool)
    → item (if not b then r else absent) q ≡ (if b then 0 else item r q)
unfolding item
chosen r q true = refl
chosen r q false = refl

item-add_layer :
    (r : Raa) (q : ℕ)
    → IsTop r
    → layers_of r < 5
    → q < 2 ^ 63
    → q ≤ posmask (suc (layers_of r))
    → item (add_layer r) q ≡ (if ltb (posmask (layers_of r)) q then 0 else item r q)
item-add_layer r q t h hq inside =
    let n = layers_of r in
    let zero_digit = first_digit n t.few q h hq inside in
    item-branch (suc n) (suc n * layershift) (last_position (endposn r) (suc n)) q (first_item r)
    ∙ ap (λ t. item (first_item r (q / t % layersize)) q) (span-shift n)
    ∙ ap (λ b. item (if b then r else absent) q) zero_digit
    ∙ chosen r q (ltb (posmask n) q)

guards :
    (M M' q i j : ℕ)
    → M ≤ M'
    → (q ≤ M' → j ≡ (if ltb M q then 0 else i))
    → (if ltb M' q then 0 else j) ≡ (if ltb M q then 0 else i)
guards M M' q i j le h = ground arith

raa_read-add_layer :
    (r : Raa) (q : ℕ)
    → IsTop r
    → layers_of r < 5
    → q < 2 ^ 63
    → raa_read (add_layer r) q ≡ raa_read r q
raa_read-add_layer r q t h hq =
    let n = layers_of r in
    let (small, inside) = mask_below n t.few h in
    let grows = within_mask (suc n) (omega arith) (posmask n) small inside in
    raa_read-item (add_layer r) q tt
    ∙ ap (λ e. if ltb e q then 0 else item (add_layer r) q) (add_layer-IsTop r t h).ends
    ∙ guards (posmask n) (posmask (suc n)) q (item r q) (item (add_layer r) q) grows
        (item-add_layer r q t h hq)
    ∙ ap (λ e. if ltb e q then 0 else item r q) (sym t.ends)
    ∙ sym (raa_read-item r q t.present)

-- An array that reads as `r` does, and has room for the position.
pub record Holds (r : Raa) (posn : ℕ) (r' : Raa) : Type 0 where
  pub top : IsTop r'
  pub room : posn ≤ endposn r'
  pub same : (q : ℕ) → q < 2 ^ 63 → raa_read r' q ≡ raa_read r q

grow-stop : (n : ℕ) (r : Raa) (posn : ℕ) → ltb (endposn r) posn ≡ false → grow (suc n) r posn ≡ r
unfolding grow
grow-stop n r posn e = rw (grow, e) refl

grow-more :
    (n : ℕ) (r : Raa) (posn : ℕ)
    → ltb (endposn r) posn ≡ true
    → grow (suc n) r posn ≡ grow n (add_layer r) posn
unfolding grow
grow-more n r posn e = rw (grow, e) refl

last_mask : (n posn e : ℕ) → e ≡ posmask n → n ≡ 5 → posn < 2 ^ 63 → posn ≤ e
last_mask n posn e h five hp = let m : posmask n ≡ posmask 5 = ap posmask five in omega arith

pub grow-Holds :
    (n : ℕ) (r : Raa) (posn : ℕ)
    → IsTop r
    → posn < 2 ^ 63
    → 5 < n + layers_of r
    → Holds r posn (grow n r posn)
grow-Holds zero r posn t hp hn = absurd (omega (arith, t.few))
grow-Holds (suc n) r posn t hp hn = elim (Bool-cases (ltb (endposn r) posn)) [
  | inr e ↦
      subst (λ r'. Holds r posn r') (sym (grow-stop n r posn e))
        (record { top = t; room = ground (arith, e); same = λ q hq. refl })
  | inl e ↦
      let below : layers_of r < 5 = not_last (layers_of r) posn (endposn r) t.few t.ends hp e in
      let h = grow-Holds n (add_layer r) posn (add_layer-IsTop r t below) hp (omega arith) in
      subst (λ r'. Holds r posn r') (sym (grow-more n r posn e))
        (record {
          top = h.top;
          room = h.room;
          same = λ q hq. h.same q hq ∙ raa_read-add_layer r q t below hq;
        })
]
  where
    not_last : (n posn e : ℕ) → n ≤ 5 → e ≡ posmask n → posn < 2 ^ 63 → ltb e posn ≡ true → n < 5
    not_last n posn e hn he hp h = elim (Bool-cases (ltb n 5)) [
      | inl t ↦ ground (arith, t)
      | inr t ↦ let le = last_mask n posn e he (ground (arith, t)) hp in absurd (ground (arith, h))
    ]

init-layers : (posn n : ℕ) → layers_of (raa_init_layer posn n) ≡ n
unfolding raa_init_layer
init-layers posn zero = refl
init-layers posn (suc n) = refl

init-ends : (posn n : ℕ) → endposn (raa_init_layer posn n) ≡ last_position posn n
unfolding raa_init_layer
init-ends posn zero = refl
init-ends posn (suc n) = refl

init-IsPresent : (posn n : ℕ) → IsPresent (raa_init_layer posn n)
unfolding raa_init_layer
init-IsPresent posn zero = tt
init-IsPresent posn (suc n) = tt

unread : (q : ℕ) {i : ℕ} (b : Bool) → i ≡ 0 → (if b then 0 else i) ≡ raa_read absent q
unfolding raa_read real_raa_read
unread q true h = refl
unread q false h = h

pub init-Holds :
    (posn n : ℕ) → posn < 2 ^ 63 → n ≤ 5 → posn < span n → Holds absent posn (raa_init_layer posn n)
init-Holds posn n hp hn hs =
    let r = raa_init_layer posn n in
    let e = init-layers posn n in
    let ends = init-ends posn n ∙ last_position_lem n hn posn hp hs in
    record {
      top = record {
        present = init-IsPresent posn n;
        few = omega arith;
        layer = subst (λ m. IsLayer m r) (sym e) (raa_init_layer-IsLayer n posn);
        ends = ends ∙ ap posmask (sym e);
      };
      room = omega (arith, within_mask n hn posn hp hs);
      same = λ q hq.
          raa_read-item r q (init-IsPresent posn n)
          ∙ unread q (ltb (endposn r) q) (item-init n posn q);
    }
