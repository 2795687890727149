-- ===== src/Nasmlib/Saa/Place.antt =====
-- The bytes that an array of nasmlib/saa.c holds, by their positions, and what a round of
-- `saa_wbytes` does to them.
use nasm.Prelude.{
  ℕ, zero, suc, ◌+◌, ◌-◌, ◌*◌, ◌/◌, ◌%◌, ◌≤◌, ◌<◌, ◌≡◌, refl, ap, ◌∙◌, Bool, true, false, ◌&&◌,
  some, ltb, ltb→lt, leb, ◌==◌, if◌then◌else◌, arith, Bool-cases, inl, inr,
}
use Prim.Native.Nat.{max}
use mathlib.Core.Path.{subst}
use native.Mathlib.Nat.{mul-le-mul_right, div-add-mod', mod-lt}
use nasm.Nasmlib.Saa.{saa_init, blklen, Saa, copied, write_chunk}

-- The byte at a position.
abbrev pub byte_at : Saa → ℕ → ℕ
byte_at s i = s.blocks (i / s.blk_len) (i % s.blk_len)

-- The place for writing is that of the position `wptr`, in a block that is allocated.
pub record IsSaa (s : Saa) : Type 0 where
  pub filled : 0 < s.blk_len
  pub pointers : 0 < s.nblkptrs
  pub room : s.length_ ≡ s.nblks * s.blk_len
  pub inside : s.wpos ≤ s.blk_len
  pub place : s.wblk * s.blk_len + s.wpos ≡ s.wptr + s.blk_len
  pub allocated : s.wblk ≤ s.nblks
  pub within : s.wptr ≤ s.length_
  pub used : s.datalen ≤ s.length_

-- What writing `len` bytes at the place for writing does.
pub record IsWritten (s : Saa) (d : ℕ → ℕ) (len : ℕ) (t : Saa) : Type 0 where
  pub size : t.blk_len ≡ s.blk_len
  pub moved : t.wptr ≡ s.wptr + len
  pub extent : t.datalen ≡ (if len == 0 then s.datalen else max s.datalen (s.wptr + len))
  pub bytes :
      (i : ℕ)
      → byte_at t i ≡ (if leb s.wptr i && ltb i (s.wptr + len) then d (i - s.wptr) else byte_at s i)

-- A place in a block that is allocated is that of a position.
before : (b j w o : ℕ) → o < b → j < w → j * b + o < w * b
before b j w o small h = omega (arith, small, mul-le-mul_right b h)

abbrev Agrees : ℕ → ℕ → ℕ → ℕ → ℕ → ℕ → ℕ → Type 0
Agrees b w j o p wpos l =
    (j == w && (leb wpos o && ltb o (wpos + l))) ≡ (leb p (j * b + o) && ltb (j * b + o) (p + l))

in_block :
    (b w j o p wpos l : ℕ) → w * b + wpos ≡ p → wpos + l ≤ b → o < b → Agrees b w j o p wpos l
in_block b w j o p wpos l h room small = elim (Bool-cases (ltb j w)) [
  | inl e ↦ earlier (ltb→lt j w e) (before b j w o small (ltb→lt j w e))
  | inr e ↦ elim (Bool-cases (ltb w j)) [
    | inl e' ↦ later (ltb→lt w j e') (mul-le-mul_right b (ltb→lt w j e'))
    | inr e' ↦ same (ground arith)
  ]
]
  where
    earlier : j < w → j * b + o < w * b → Agrees b w j o p wpos l
    earlier k m = ground arith

    later : w < j → suc w * b ≤ j * b → Agrees b w j o p wpos l
    later k m = ground arith

    same : j ≡ w → Agrees b w j o p wpos l
    same k = rw (k) ground arith

-- A round in an array as `saa_wbytes` leaves it when it has something to write.
abbrev pub stored : Saa → (ℕ → ℕ) → ℕ → Saa
stored s d l = record s {
  blocks = copied s.blocks (s.wblk - 1) s.wpos d l;
  wpos = s.wpos + l;
  wptr = s.wptr + l;
  datalen = max s.datalen (s.wptr + l);
}

is_allocated : (w b wpos p : ℕ) → w * b + wpos ≡ p + b → wpos < b → 0 < w
is_allocated zero b wpos p h k = omega (arith, h, k)
is_allocated (suc w) b wpos p h k = omega arith

both : (a b : Bool) → a ≡ true → b ≡ true → (a && b) ≡ true
both a b h k = rw (h) k

block_place : (w b wpos p : ℕ) → 0 < w → w * b + wpos ≡ p + b → (w - 1) * b + wpos ≡ p
block_place zero b wpos p h k = omega arith
block_place (suc w) b wpos p h k = let e : suc w - 1 ≡ w = omega arith in rw (e) omega (arith, k)

chosen :
    {A : Type 0}
    → (c c' : Bool) (x x' y : A) → c ≡ c'
    → (c ≡ true → x ≡ x')
    → (if c then x else y) ≡ (if c' then x' else y)
chosen true c' x x' y e h = h refl ∙ ap (λ k. if k then x' else y) e
chosen false c' x x' y e h = ap (λ k. if k then x' else y) e

-- The offset of what is copied.
same_offset :
    (b w j o p wpos l : ℕ)
    → w * b + wpos ≡ p
    → (j == w && (leb wpos o && ltb o (wpos + l))) ≡ true
    → o - wpos ≡ j * b + o - p
same_offset b w j o p wpos l h c = let e : j ≡ w = ground (arith, c) in rw (e) omega (arith, h)

copied_at :
    (blocks : ℕ → ℕ → ℕ) (b w j o i p wpos l : ℕ) (d : ℕ → ℕ)
    → j * b + o ≡ i
    → w * b + wpos ≡ p
    → wpos + l ≤ b
    → o < b
    → copied blocks w wpos d l j o ≡ (if leb p i && ltb i (p + l) then d (i - p) else blocks j o)
copied_at blocks b w j o i p wpos l d e h room small =
    subst
      (λ i.
        copied blocks w wpos d l j o ≡ (if leb p i && ltb i (p + l) then d (i - p) else blocks j o))
      e
      (chosen (j == w && (leb wpos o && ltb o (wpos + l)))
        (leb p (j * b + o) && ltb (j * b + o) (p + l)) (d (o - wpos)) (d (j * b + o - p))
        (blocks j o) (in_block b w j o p wpos l h room small)
        (λ c. ap d (same_offset b w j o p wpos l h c)))

pub write_chunk-stored :
    (s : Saa) (d : ℕ → ℕ) (l : ℕ)
    → IsSaa s
    → s.wpos + suc l ≤ s.blk_len
    → write_chunk s d (suc l) ≡ some (stored s d (suc l))
write_chunk-stored s d l v h =
    let w = is_allocated s.wblk s.blk_len s.wpos s.wptr v.place (omega (arith, h)) in
    let a = v.allocated in
    rw (both (ltb 0 s.wblk) (leb s.wblk s.nblks) (ground arith) (ground arith)) refl

pub stored-IsWritten :
    (s : Saa) (d : ℕ → ℕ) (l : ℕ)
    → IsSaa s
    → s.wpos + suc l ≤ s.blk_len
    → IsWritten s d (suc l) (stored s d (suc l))
stored-IsWritten s d l v h =
    let w = is_allocated s.wblk s.blk_len s.wpos s.wptr v.place (omega (arith, h)) in
    record {
      size = refl;
      moved = refl;
      extent = ground arith;
      bytes = λ i.
          copied_at s.blocks s.blk_len (s.wblk - 1) (i / s.blk_len) (i % s.blk_len) i s.wptr s.wpos
            (suc l) d (div-add-mod' i s.blk_len)
            (block_place s.wblk s.blk_len s.wpos s.wptr w v.place) h (mod-lt i v.filled);
    }

stored-within :
    (s : Saa) (l : ℕ) → IsSaa s → s.wpos + suc l ≤ s.blk_len → s.wptr + suc l ≤ s.length_
stored-within s l v h = omega (arith, h, v.place, v.room, mul-le-mul_right s.blk_len v.allocated)

least : (a b c : ℕ) → a ≤ c → b ≤ c → max a b ≤ c
least a b c h k = omega arith

pub stored-IsSaa :
    (s : Saa) (d : ℕ → ℕ) (l : ℕ)
    → IsSaa s
    → s.wpos + suc l ≤ s.blk_len
    → IsSaa (stored s d (suc l))
stored-IsSaa s d l v h = record {
  filled = v.filled;
  pointers = v.pointers;
  room = v.room;
  inside = h;
  place = omega (arith, v.place);
  allocated = v.allocated;
  within = stored-within s l v h;
  used = least s.datalen (s.wptr + suc l) s.length_ v.used (stored-within s l v h);
}

-- An array that has just been made.
pub saa_init-IsSaa : (elem_len : ℕ) → 0 < elem_len → IsSaa (saa_init elem_len)
unfolding saa_init
saa_init-IsSaa elem_len h =
    let b = if leb blklen elem_len then elem_len else blklen - blklen % elem_len in
    let filled : 0 < b = some_room in
    record {
      filled = filled;
      pointers = omega arith;
      room = omega arith;
      inside = omega arith;
      place = omega arith;
      allocated = omega arith;
      within = omega arith;
      used = omega arith;
    }
  where
    some_room : 0 < (if leb blklen elem_len then elem_len else blklen - blklen % elem_len)
    some_room = let m = mod-lt blklen h in ground (arith, m)
