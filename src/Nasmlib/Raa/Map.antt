-- ===== src/Nasmlib/Raa/Map.antt =====
-- Reads after writes of nasmlib/raa.c.
use nasm.Prelude.{
  ℕ, zero, suc, ◌/◌, ◌^◌, ◌≤◌, ◌<◌, ◌≡◌, refl, sym, ap, ◌∙◌, Bool, ltb, ◌==◌, if◌then◌else◌, arith,
}
use mathlib.Core.Path.{subst}
use nasm.Nasmlib.Raa.{
  Raa, absent, leaf, branch, layershift, raa_read, put, raa_write, with_room, endposn, layers_of,
  posmask,
}
use nasm.Nasmlib.Raa.Layers.{IsLayer, item, item-put, put-IsLayer, IsPresent, agree}
use nasm.Nasmlib.Raa.Masks.{within_span, agree-eq, enough_layers}
use nasm.Nasmlib.Raa.Store.{IsTop, IsArray, Holds, grow-Holds, init-Holds, raa_read-item}
use nasm.Nasmlib.Ilog2.{ilog2_64}

put-IsPresent : (n : ℕ) (r : Raa) (p v : ℕ) → IsPresent r → IsPresent (put n r p v)
unfolding put
put-IsPresent n absent p v h = absurd h
put-IsPresent n (leaf e items) p v h = tt
put-IsPresent zero (branch l sh e items) p v h = tt
put-IsPresent (suc n) (branch l sh e items) p v h = tt

put-layers : (n : ℕ) (r : Raa) (p v : ℕ) → layers_of (put n r p v) ≡ layers_of r
unfolding put
put-layers n absent p v = refl
put-layers n (leaf e items) p v = refl
put-layers zero (branch l sh e items) p v = refl
put-layers (suc n) (branch l sh e items) p v = refl

put-endposn : (n : ℕ) (r : Raa) (p v : ℕ) → endposn (put n r p v) ≡ endposn r
unfolding put
put-endposn n absent p v = refl
put-endposn n (leaf e items) p v = refl
put-endposn zero (branch l sh e items) p v = refl
put-endposn (suc n) (branch l sh e items) p v = refl

put-IsTop : (r : Raa) (p v : ℕ) → IsTop r → IsTop (put (layers_of r) r p v)
put-IsTop r p v t =
    let n = layers_of r in
    let e = put-layers n r p v in
    record {
      present = put-IsPresent n r p v t.present;
      few = omega (arith, t.few);
      layer = subst (λ m. IsLayer m (put n r p v)) (sym e) (put-IsLayer n r p v t.layer);
      ends = put-endposn n r p v ∙ t.ends ∙ ap posmask (sym e);
    }

IsArray-top : (r : Raa) → IsTop r → IsArray r
IsArray-top absent t = tt
IsArray-top (leaf e items) t = t
IsArray-top (branch l sh e items) t = t

-- Room for the position is made before the item is set, and changes nothing that is read.
with_room-Holds : (r : Raa) (p : ℕ) → IsArray r → p < 2 ^ 63 → Holds r p (with_room r p)
with_room-Holds absent p h hp =
    let (few, inside) = enough_layers p hp in init-Holds p (ilog2_64 p / layershift) hp few inside
with_room-Holds (leaf e items) p h hp = grow-Holds 6 (leaf e items) p h hp (omega arith)
with_room-Holds (branch l sh e items) p h hp =
    grow-Holds 6 (branch l sh e items) p h hp (omega arith)

written :
    (e p q v i : ℕ) (a : Bool)
    → p ≤ e
    → (q ≤ e → a ≡ (p == q))
    → (if ltb e q then 0 else if a then v else i) ≡ (if p == q then v else if ltb e q then 0 else i)
written e p q v i a hp h = ground arith

raa_read-put :
    (r : Raa) (p q v : ℕ)
    → IsTop r
    → p ≤ endposn r
    → p < 2 ^ 63
    → q < 2 ^ 63
    → raa_read (put (layers_of r) r p v) q ≡ (if p == q then v else raa_read r q)
raa_read-put r p q v t room hp hq =
    let n = layers_of r in
    let inside = λ (x : ℕ) (hx : x < 2 ^ 63) (h : x ≤ endposn r).
      within_span n t.few x hx (omega (arith, h, t.ends)) in
    raa_read-item (put n r p v) q (put-IsPresent n r p v t.present)
    ∙ ap (λ e. if ltb e q then 0 else item (put n r p v) q) (put-endposn n r p v)
    ∙ ap (λ i. if ltb (endposn r) q then 0 else i) (item-put n r p q v t.layer t.present)
    ∙ written (endposn r) p q v (item r q) (agree n p q) room
        (λ h. agree-eq n p q (inside p hp room) (inside q hq h))
    ∙ ap (λ i. if p == q then v else i) (sym (raa_read-item r q t.present))

-- After a write the item at its position is the one written, and every other item, below 2 ^ 63, is
-- as it was.
pub raa_read-raa_write :
    (r : Raa) (p q v : ℕ)
    → IsArray r
    → p < 2 ^ 63
    → q < 2 ^ 63
    → raa_read (raa_write r p v) q ≡ (if p == q then v else raa_read r q)
unfolding raa_write
raa_read-raa_write r p q v h hp hq =
    let made = with_room-Holds r p h hp in
    raa_read-put (with_room r p) p q v made.top made.room hp hq
    ∙ ap (λ i. if p == q then v else i) (made.same q hq)

-- A write below 2 ^ 63 keeps an array well formed.
pub raa_write-IsArray : (r : Raa) (p v : ℕ) → IsArray r → p < 2 ^ 63 → IsArray (raa_write r p v)
unfolding raa_write
raa_write-IsArray r p v h hp =
    let made = with_room-Holds r p h hp in IsArray-top _ (put-IsTop (with_room r p) p v made.top)
