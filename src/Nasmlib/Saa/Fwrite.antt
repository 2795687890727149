-- ===== src/Nasmlib/Saa/Fwrite.antt =====
-- Writing at a position of nasmlib/saa.c.
use nasm.Prelude.{
  ℕ, ◌+◌, ◌-◌, ◌*◌, ◌/◌, ◌%◌, ◌^◌, ◌≤◌, ◌<◌, ◌≡◌, refl, sym, ap, ◌∙◌, ◌&&◌, Option, some, ltb,
  ltb→lt, leb, ◌==◌, if◌then◌else◌, arith, Bool-cases, inl, inr,
}
use Prim.Native.Nat.{max}
use mathlib.Core.Path.{subst}
use native.Mathlib.Nat.{lt_of_mul-lt-mul_right, div-add-mod', mod-lt}
use nasm.Nasmlib.Saa.{Saa, blklen, set_write, saa_wbytes, wbytes_some, saa_fwrite}
use nasm.Nasmlib.Saa.Place.{byte_at, IsSaa}
use nasm.Nasmlib.Saa.Write.{saa_wbytes-Wrote}

-- The shift and the mask of the usual length of a block are the quotient and the remainder.
pub shifted_quotient : (b posn : ℕ) → (if b == blklen then posn / 2 ^ 16 else posn / b) ≡ posn / b
shifted_quotient b posn = elim (Bool-cases (b == blklen)) [
  | inl e ↦ let k : b ≡ blklen = ground (arith, e) in rw (e) rw (k) refl
  | inr e ↦ rw (e) refl
]

pub shifted_remainder : (b posn : ℕ) → (if b == blklen then posn % blklen else posn % b) ≡ posn % b
shifted_remainder b posn = elim (Bool-cases (b == blklen)) [
  | inl e ↦ let k : b ≡ blklen = ground (arith, e) in rw (e) rw (k) refl
  | inr e ↦ rw (e) refl
]

-- The array with its place for writing at a position.
abbrev placed : Saa → ℕ → ℕ → ℕ → Saa
placed s posn ix wpos =
    if wpos == 0
    then record s { wptr = posn; wblk = ix; wpos = s.blk_len }
    else record s { wptr = posn; wblk = ix + 1; wpos = wpos }

set_write-placed :
    (s : Saa) (posn : ℕ) → set_write s posn ≡ placed s posn (posn / s.blk_len) (posn % s.blk_len)
unfolding set_write
set_write-placed s posn =
    ap (λ ix. placed s posn ix (if s.blk_len == blklen then posn % blklen else posn % s.blk_len))
      (shifted_quotient s.blk_len posn)
    ∙ ap (placed s posn (posn / s.blk_len)) (shifted_remainder s.blk_len posn)

placed-IsSaa :
    (s : Saa) (posn ix wpos : ℕ)
    → IsSaa s
    → posn ≤ s.datalen
    → ix * s.blk_len + wpos ≡ posn
    → wpos < s.blk_len
    → IsSaa (placed s posn ix wpos)
placed-IsSaa s posn ix wpos v h e k = elim (Bool-cases (wpos == 0)) [
  | inl z ↦ rw (z) record {
    filled = v.filled;
    pointers = v.pointers;
    room = v.room;
    inside = omega arith;
    place = ground (arith, e, z);
    allocated =
        let q =
          lt_of_mul-lt-mul_right s.blk_len {m = ix} {n = s.nblks + 1}
            (omega (arith, e, h, v.used, v.room, v.filled)) in
        omega (arith, q);
    within = omega (arith, h, v.used);
    used = v.used;
  }
  | inr z ↦ rw (z) record {
    filled = v.filled;
    pointers = v.pointers;
    room = v.room;
    inside = omega (arith, k);
    place = omega (arith, e);
    allocated =
        let q =
          lt_of_mul-lt-mul_right s.blk_len {m = ix} {n = s.nblks}
            (ground (arith, z, e, h, v.used, v.room)) in
        omega (arith, q);
    within = omega (arith, h, v.used);
    used = v.used;
  }
]

placed-kept :
    (s : Saa) (posn ix wpos : ℕ)
    → ((placed s posn ix wpos).blk_len ≡ s.blk_len)
      × ((placed s posn ix wpos).wptr ≡ posn)
      × ((placed s posn ix wpos).datalen ≡ s.datalen)
      × ((i : ℕ) → byte_at (placed s posn ix wpos) i ≡ byte_at s i)
placed-kept s posn ix wpos = elim (Bool-cases (wpos == 0)) [
  | inl e ↦ rw (e) (refl, refl, refl, λ i. refl)
  | inr e ↦ rw (e) (refl, refl, refl, λ i. refl)
]

record IsPlaced (s : Saa) (posn : ℕ) (t : Saa) : Type 0 where
  valid : IsSaa t
  size : t.blk_len ≡ s.blk_len
  at_posn : t.wptr ≡ posn
  used : t.datalen ≡ s.datalen
  same : (i : ℕ) → byte_at t i ≡ byte_at s i

set_write-IsPlaced :
    (s : Saa) (posn : ℕ) → IsSaa s → posn ≤ s.datalen → IsPlaced s posn (set_write s posn)
set_write-IsPlaced s posn v h =
    let ix = posn / s.blk_len in
    let wpos = posn % s.blk_len in
    let (size, at_posn, used, same) = placed-kept s posn ix wpos in
    subst (IsPlaced s posn) (sym (set_write-placed s posn)) record {
      valid = placed-IsSaa s posn ix wpos v h (div-add-mod' posn s.blk_len) (mod-lt posn v.filled);
      size = size;
      at_posn = at_posn;
      used = used;
      same = same;
    }

-- What `saa_fwrite` gives.
pub record WroteAt (s : Saa) (posn : ℕ) (d : ℕ → ℕ) (len : ℕ) (r : Option Saa) : Type 0 where
  pub after : Saa
  pub result : r ≡ some after
  pub valid : IsSaa after
  pub extent : after.datalen ≡ max (max s.datalen posn) (posn + len)
  pub bytes :
      (i : ℕ)
      → byte_at after i ≡ (
          if leb posn i && ltb i (posn + len)
          then d (i - posn)
          else if leb s.datalen i && ltb i posn
          then 0
          else byte_at s i)

at_if :
    (d : ℕ → ℕ) (m i p q x y : ℕ)
    → p ≡ q
    → x ≡ y
    → (if leb p i && ltb i (p + m) then d (i - p) else x)
      ≡ (if leb q i && ltb i (q + m) then d (i - q) else y)
at_if d m i p q x y e h = rw (e, h) refl

-- A write at a place that leaves no gap.
no_gap :
    (s : Saa) (posn : ℕ) (d : ℕ → ℕ) (len : ℕ)
    → IsSaa s
    → posn ≤ s.datalen
    → WroteAt s posn d len (saa_wbytes (set_write s posn) d len)
no_gap s posn d len v h =
    let p = set_write-IsPlaced s posn v h in
    let w = saa_wbytes-Wrote (set_write s posn) d len p.valid in
    record {
      after = w.after;
      result = w.result;
      valid = w.valid;
      extent = ground (arith, w.written.extent, p.used, p.at_posn, h);
      bytes = λ i.
          w.written.bytes i
          ∙ at_if d len i (set_write s posn).wptr posn (byte_at (set_write s posn) i)
              (if leb s.datalen i && ltb i posn then 0 else byte_at s i) p.at_posn
              (p.same i ∙ ground (arith, h));
    }

-- The zeros before a write past the data.
gap :
    (s : Saa) (posn : ℕ) (d : ℕ → ℕ) (len : ℕ)
    → IsSaa s
    → s.datalen < posn
    → WroteAt s posn d len
        (wbytes_some (saa_wbytes (set_write s s.datalen) (λ _. 0) (posn - s.datalen)) d len)
gap s posn d len v h =
    let p = set_write-IsPlaced s s.datalen v (omega arith) in
    let z = saa_wbytes-Wrote (set_write s s.datalen) (λ _. 0) (posn - s.datalen) p.valid in
    let w = saa_wbytes-Wrote z.after d len z.valid in
    let here : z.after.wptr ≡ posn = omega (arith, z.written.moved, p.at_posn, h) in
    record {
      after = w.after;
      result = ap (λ r. wbytes_some r d len) z.result ∙ w.result;
      valid = w.valid;
      extent = ground (arith, w.written.extent, here, z.written.extent, p.used, p.at_posn, h);
      bytes = λ i.
          w.written.bytes i
          ∙ at_if d len i z.after.wptr posn (byte_at z.after i)
              (if leb s.datalen i && ltb i posn then 0 else byte_at s i) here
              (z.written.bytes i
                ∙ zeros i (set_write s s.datalen).wptr (byte_at (set_write s s.datalen) i)
                    (byte_at s i) p.at_posn (p.same i));
    }
  where
    zeros :
        (i p x y : ℕ)
        → p ≡ s.datalen
        → x ≡ y
        → (if leb p i && ltb i (p + (posn - s.datalen)) then 0 else x)
          ≡ (if leb s.datalen i && ltb i posn then 0 else y)
    zeros i p x y e k = ground (arith, h)

-- For every array that `saa_wbytes` may have left, `saa_fwrite` at any position ends, without an
-- access outside the blocks. It leaves such an array again: from the position on stand the data,
-- from the end of the data of before up to the position stand zeros, and all other bytes are those
-- of before. The data reach as far as before or as far as what is written.
pub saa_fwrite-WroteAt :
    (s : Saa) (posn : ℕ) (d : ℕ → ℕ) (len : ℕ)
    → IsSaa s
    → WroteAt s posn d len (saa_fwrite s posn d len)
unfolding saa_fwrite
saa_fwrite-WroteAt s posn d len v = elim (Bool-cases (ltb s.datalen posn)) [
  | inl e ↦ rw (e) (gap s posn d len v (ltb→lt s.datalen posn e))
  | inr e ↦ rw (e) (no_gap s posn d len v (ground arith))
]
