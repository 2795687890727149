-- ===== src/Nasmlib/Raa.antt =====
-- nasmlib/raa.c: arrays that grow, as trees of layers of 2048 items.
--
-- The items of a layer are a function of the index. An item is 64 bits, a number or a pointer; a
-- pointer to no layer is `absent`. Positions from 2 ^ 63 on, which the source asserts not to be written,
-- are left out of the theorems.
pub mod Layers
pub mod Masks
pub mod Store
pub mod Map
use nasm.Prelude.{
  ℕ, zero, suc, ◌+◌, ◌-◌, ◌*◌, ◌/◌, ◌%◌, ◌^◌, Bool, true, false, ◌||◌, Option, none, some, ltb,
  ◌==◌, if◌then◌else◌,
}
use nasm.Nasmlib.Ilog2.{ilog2_64}

abbrev pub layershift : ℕ
layershift = 11

abbrev pub layersize : ℕ
layersize = 2 ^ 11

-- `endposn`, and the items; and for a branch `layers` and `shift`, which of a leaf are 0.
pub data Raa : Type 0 where
  absent : Raa
  leaf : ℕ → (ℕ → ℕ) → Raa
  branch : ℕ → ℕ → ℕ → (ℕ → Raa) → Raa

abbrev pub endposn : Raa → ℕ
endposn absent = 0
endposn (leaf e items) = e
endposn (branch layers shift e items) = e

abbrev pub layers_of : Raa → ℕ
layers_of (branch layers shift e items) = layers
layers_of _ = 0

-- `posmask`, in 64 bits, and `posn | posmask`, of which `posmask` is the lowest bits.
abbrev pub posmask : ℕ → ℕ
posmask layers = (2 ^ (layershift * (layers + 1)) % 2 ^ 64 + (2 ^ 64 - 1)) % 2 ^ 64

abbrev pub last_position : ℕ → ℕ → ℕ
last_position posn layers =
    let span = 2 ^ (layershift * (layers + 1)) in posn / span * span + posmask layers

unfoldable pub raa_init_layer : ℕ → ℕ → Raa
raa_init_layer posn zero = leaf (last_position posn 0) (λ _. 0)
raa_init_layer posn (suc n) =
    branch (suc n) (suc n * layershift) (last_position posn (suc n)) (λ _. absent)

-- The loop of `real_raa_read`.
unfoldable pub find : Raa → ℕ → Option ℕ
find absent posn = none
find (leaf e items) posn = some (items (posn % layersize))
find (branch layers shift e items) posn = find (items (posn / 2 ^ shift % layersize)) posn

abbrev pub is_absent : Raa → Bool
is_absent absent = true
is_absent _ = false

unfoldable pub real_raa_read : Raa → ℕ → Option ℕ
unfolding find
real_raa_read r posn = if is_absent r || ltb (endposn r) posn then none else find r posn

unfoldable pub raa_read : Raa → ℕ → ℕ
unfolding real_raa_read
raa_read r pos = elim (real_raa_read r pos) [ some i ↦ i | none ↦ 0 ]

abbrev pub update {ℓ} : {A : Type ℓ} → (ℕ → A) → ℕ → A → ℕ → A
update f i a j = if i == j then a else f j

-- A layer more, whose first item is the array so far.
abbrev pub first_item : Raa → ℕ → Raa
first_item r i = if i == 0 then r else absent

abbrev pub add_layer : Raa → Raa
add_layer r =
    branch (suc (layers_of r)) (suc (layers_of r) * layershift)
      (last_position (endposn r) (suc (layers_of r))) (first_item r)

-- The loop that adds layers, `n` times at most.
unfoldable pub grow : ℕ → Raa → ℕ → Raa
grow zero r posn = r
grow (suc n) r posn = elim (ltb (endposn r) posn) [ true ↦ grow n (add_layer r) posn | false ↦ r ]

abbrev pub or_init : Raa → ℕ → ℕ → Raa
or_init absent posn layers = raa_init_layer posn layers
or_init r posn layers = r

-- The loop that goes down `n` layers and sets the item.
unfoldable pub put : ℕ → Raa → ℕ → ℕ → Raa
put n absent posn value = absent
put n (leaf e items) posn value = leaf e (update items (posn % layersize) value)
put zero (branch layers shift e items) posn value = branch layers shift e items
put (suc n) (branch layers shift e items) posn value =
    let l = posn / 2 ^ shift % layersize in
    branch layers shift e (update items l (put n (or_init (items l) posn (layers - 1)) posn value))

abbrev pub with_room : Raa → ℕ → Raa
with_room r posn =
    if is_absent r then raa_init_layer posn (ilog2_64 posn / layershift) else grow 6 r posn

unfoldable pub raa_write : Raa → ℕ → ℕ → Raa
unfolding grow put raa_init_layer
raa_write r posn value = let r' = with_room r posn in put (layers_of r') r' posn value
