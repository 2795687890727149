-- ===== src/Nasmlib/Saa/Rounds.antt =====
-- The rounds of `saa_wbytes` in nasmlib/saa.c: on to the next block, and what two rounds do together.
use nasm.Prelude.{
  ℕ, suc, ◌+◌, ◌-◌, ◌*◌, ◌<◌, ◌≡◌, refl, ◌∙◌, Bool, true, false, ◌&&◌, some, ltb, leb, ◌==◌,
  if◌then◌else◌, arith, Bool-cases, inl, inr,
}
use Prim.Native.Nat.{min}
use mathlib.Core.Path.{subst}
use native.Mathlib.Nat.{lt_of_mul-lt-mul_right}
use nasm.Nasmlib.Saa.{Saa, saa_extend, write_chunk, next_block, write_loop}
use nasm.Nasmlib.Saa.Place.{byte_at, IsSaa, IsWritten}

saa_extend-IsSaa : (s : Saa) → IsSaa s → IsSaa (saa_extend s)
saa_extend-IsSaa s v = record {
  filled = v.filled;
  pointers = more (leb s.nblkptrs s.nblks) s.nblkptrs v.pointers;
  room = omega (arith, v.room);
  inside = v.inside;
  place = v.place;
  allocated = omega (arith, v.allocated);
  within = omega (arith, v.within);
  used = omega (arith, v.used);
}
  where
    more : (b : Bool) (n : ℕ) → 0 < n → 0 < (if b then n * 2 else n)
    more true n h = omega arith
    more false n h = h

fresh_block-IsSaa :
    (s : Saa)
    → IsSaa s
    → s.wpos ≡ s.blk_len
    → s.wptr < s.length_
    → IsSaa (record s { wblk = s.wblk + 1; wpos = 0 })
fresh_block-IsSaa s v full h = record {
  filled = v.filled;
  pointers = v.pointers;
  room = v.room;
  inside = omega arith;
  place = omega (arith, v.place, full);
  allocated =
      let k =
        lt_of_mul-lt-mul_right s.blk_len {m = s.wblk} {n = s.nblks}
          (omega (arith, v.place, full, h, v.room)) in
      omega (arith, k);
  within = v.within;
  used = v.used;
}

-- On to the next block, when the one before it is full.
pub next_block-IsSaa : (s : Saa) → IsSaa s → s.wpos ≡ s.blk_len → IsSaa (next_block s)
next_block-IsSaa s v full = elim (Bool-cases (leb s.length_ s.wptr)) [
  | inl e ↦ rw (e) (
      fresh_block-IsSaa (saa_extend s) (saa_extend-IsSaa s v) full
        (omega (arith, v.within, v.filled)))
  | inr e ↦ rw (e) (fresh_block-IsSaa s v full (ground arith))
]

pub next_block-byte_at : (s : Saa) (i : ℕ) → byte_at (next_block s) i ≡ byte_at s i
next_block-byte_at s i = elim (Bool-cases (leb s.length_ s.wptr)) [
  | inl e ↦ rw (e) refl
  | inr e ↦ rw (e) refl
]

-- A round that is the last, and one that is not.
round_done :
    (n : ℕ) (s : Saa) (d : ℕ → ℕ) (len : ℕ) (t : Saa)
    → write_chunk s d (min (s.blk_len - s.wpos) (suc len)) ≡ some t
    → (suc len == min (s.blk_len - s.wpos) (suc len)) ≡ true
    → write_loop (suc n) s d (suc len) ≡ some t
unfolding write_loop
round_done n s d len t e h = rw (write_loop, e) rw (h) refl

round_goes_on :
    (n : ℕ) (s : Saa) (d : ℕ → ℕ) (len : ℕ) (t : Saa)
    → write_chunk s d (min (s.blk_len - s.wpos) (suc len)) ≡ some t
    → (suc len == min (s.blk_len - s.wpos) (suc len)) ≡ false
    → write_loop (suc n) s d (suc len)
      ≡ write_loop n
          (next_block t)
          (λ i. d (i + min (s.blk_len - s.wpos) (suc len)))
          (suc len - min (s.blk_len - s.wpos) (suc len))
unfolding write_loop
round_goes_on n s d len t e h = rw (write_loop, e) rw (h) refl

pub loop_done :
    (n : ℕ) (s : Saa) (d : ℕ → ℕ) (len l : ℕ) (t : Saa)
    → min (s.blk_len - s.wpos) (suc len) ≡ l
    → write_chunk s d l ≡ some t
    → (suc len == l) ≡ true
    → write_loop (suc n) s d (suc len) ≡ some t
loop_done n s d len l t m =
    subst
      (λ k.
        write_chunk s d k ≡ some t
        → (suc len == k) ≡ true
        → write_loop (suc n) s d (suc len) ≡ some t)
      m (round_done n s d len t)

pub loop_goes_on :
    (n : ℕ) (s : Saa) (d : ℕ → ℕ) (len l : ℕ) (t : Saa)
    → min (s.blk_len - s.wpos) (suc len) ≡ l
    → write_chunk s d l ≡ some t
    → (suc len == l) ≡ false
    → write_loop (suc n) s d (suc len) ≡ write_loop n (next_block t) (λ i. d (i + l)) (suc len - l)
loop_goes_on n s d len l t m =
    subst
      (λ k.
        write_chunk s d k ≡ some t
        → (suc len == k) ≡ false
        → write_loop (suc n) s d (suc len)
          ≡ write_loop n (next_block t) (λ i. d (i + k)) (suc len - k))
      m (round_goes_on n s d len t)

pub next_block-kept :
    (s : Saa)
    → ((next_block s).blk_len ≡ s.blk_len)
      × ((next_block s).wptr ≡ s.wptr)
      × ((next_block s).datalen ≡ s.datalen)
      × ((next_block s).wpos ≡ 0)
next_block-kept s = elim (Bool-cases (leb s.length_ s.wptr)) [
  | inl e ↦ rw (e) (refl, refl, refl, refl)
  | inr e ↦ rw (e) (refl, refl, refl, refl)
]

pub nothing-IsWritten : (s : Saa) (d : ℕ → ℕ) → IsWritten s d 0 s
nothing-IsWritten s d = record {
  size = refl;
  moved = omega arith;
  extent = refl;
  bytes = λ i. ground arith;
}

merged :
    (d : ℕ → ℕ) (w l m i x : ℕ)
    → (if leb (w + l) i && ltb i (w + l + m)
        then d (i - (w + l) + l)
        else if leb w i && ltb i (w + l)
        then d (i - w)
        else x)
      ≡ (if leb w i && ltb i (w + (l + m)) then d (i - w) else x)
merged d w l m i x = ground arith

moved_if :
    (d : ℕ → ℕ) (l m i p q x y : ℕ)
    → p ≡ q
    → x ≡ y
    → (if leb p i && ltb i (p + m) then d (i - p + l) else x)
      ≡ (if leb q i && ltb i (q + m) then d (i - q + l) else y)
moved_if d l m i p q x y e h = rw (e, h) refl

pub then-IsWritten :
    (s : Saa) (d : ℕ → ℕ) (l m : ℕ) (t u : Saa)
    → IsWritten s d l t
    → IsWritten (next_block t) (λ i. d (i + l)) m u
    → 0 < m
    → IsWritten s d (l + m) u
then-IsWritten s d l m t u f g pos =
    let (k1, k2, k3, k4) = next_block-kept t in
    record {
      size = g.size ∙ k1 ∙ f.size;
      moved = omega (arith, g.moved, k2, f.moved);
      extent = ground (arith, g.extent, k3, f.extent, k2, f.moved);
      bytes = λ i.
          g.bytes i
          ∙ moved_if d l m i (next_block t).wptr (s.wptr + l) (byte_at (next_block t) i)
              (if leb s.wptr i && ltb i (s.wptr + l) then d (i - s.wptr) else byte_at s i)
              (k2 ∙ f.moved) (next_block-byte_at t i ∙ f.bytes i)
          ∙ merged d s.wptr l m i (byte_at s i);
    }
