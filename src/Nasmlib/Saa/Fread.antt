-- ===== src/Nasmlib/Saa/Fread.antt =====
-- Reads at a position, and after a write, in nasmlib/saa.c.
use nasm.Prelude.{
  ℕ, ◌+◌, ◌-◌, ◌/◌, ◌%◌, ◌≤◌, ◌<◌, ◌≡◌, refl, ap, ◌∙◌, true, ◌&&◌, Option, none, some, ltb, leb,
  ◌==◌, if◌then◌else◌, arith, Bool-cases, inl, inr,
}
use native.Mathlib.Nat.{div-add-mod', mod-lt}
use nasm.Prelude.{List}
use nasm.Nasmlib.Saa.{Saa, blklen, run, read_loop, saa_rnbytes, set_read, saa_fread, saa_fwrite}
use nasm.Nasmlib.Saa.Place.{byte_at, IsSaa}
use nasm.Nasmlib.Saa.Fwrite.{saa_fwrite-WroteAt}
use nasm.Nasmlib.Saa.Read.{IsReader, ReadOut, read_loop-ReadOut, run-cong}

abbrev placed : Saa → ℕ → ℕ → ℕ → Saa
placed s posn ix rpos = record s { rptr = posn; rblk = ix; rpos = rpos }

set_read-placed :
    (s : Saa) (posn : ℕ) → set_read s posn ≡ placed s posn (posn / s.blk_len) (posn % s.blk_len)
unfolding set_read
set_read-placed s posn = elim (Bool-cases (s.blk_len == blklen)) [
  | inl e ↦
      let k : blklen ≡ s.blk_len = ground (arith, e) in
      rw (e) (ap (λ b. placed s posn (posn / b) (posn % b)) k)
  | inr e ↦ rw (e) refl
]

fread_step :
    (s : Saa) (posn len : ℕ)
    → leb (posn + len) s.datalen ≡ true
    → saa_fread s posn len ≡ saa_rnbytes (set_read s posn) len
unfolding saa_fread
fread_step s posn len e = rw (e) refl

rnbytes_step :
    (s : Saa) (len : ℕ)
    → leb (s.rptr + len) s.datalen ≡ true
    → saa_rnbytes s len ≡ read_loop (len + 1) s len
unfolding saa_rnbytes
rnbytes_step s len e = rw (e) refl

-- For every array and every range of positions within its data, `saa_fread` ends, every access is in
-- a block that is allocated, and the buffer is filled with the bytes at those positions.
pub saa_fread-run :
    (s : Saa) (posn len : ℕ)
    → IsSaa s
    → posn + len ≤ s.datalen
    → ReadOut s posn len (saa_fread s posn len)
saa_fread-run s posn len v h =
    let t = placed s posn (posn / s.blk_len) (posn % s.blk_len) in
    let m = mod-lt posn v.filled in
    let reader : IsReader t = record {
      filled = v.filled;
      room = v.room;
      used = v.used;
      inside = omega (arith, m);
      place = div-add-mod' posn s.blk_len;
    } in
    let r = read_loop-ReadOut (len + 1) t len reader h (omega arith) in
    let ok : leb (posn + len) s.datalen ≡ true = ground arith in
    record {
      after = r.after;
      result =
          fread_step s posn len ok
          ∙ ap (λ u. saa_rnbytes u len) (set_read-placed s posn)
          ∙ rnbytes_step t len ok
          ∙ r.result;
    }

-- The bytes that are read, without the array.
abbrev pub bytes_read : Option (List ℕ × Saa) → Option (List ℕ)
bytes_read none = none
bytes_read (some (b, s)) = some b

-- A read at a position, after a write.
abbrev pub read_back : Option Saa → ℕ → ℕ → Option (List ℕ)
read_back none posn len = none
read_back (some s) posn len = bytes_read (saa_fread s posn len)

-- For every array and every position, also one past the data: `saa_fread` at the position where
-- `saa_fwrite` has written gives what was written.
pub saa_fread-saa_fwrite :
    (s : Saa) (posn : ℕ) (d : ℕ → ℕ) (len : ℕ)
    → IsSaa s
    → read_back (saa_fwrite s posn d len) posn len ≡ some (run d 0 len)
saa_fread-saa_fwrite s posn d len v =
    let w = saa_fwrite-WroteAt s posn d len v in
    let r = saa_fread-run w.after posn len w.valid (omega (arith, w.extent)) in
    ap (λ t. read_back t posn len) w.result
    ∙ ap bytes_read r.result
    ∙ ap some (
        run-cong (byte_at w.after) d posn 0 len (λ k h.
          w.bytes (posn + k)
          ∙ written k
              (if leb s.datalen (posn + k) && ltb (posn + k) posn then 0 else byte_at s (posn + k))
              h))
  where
    written :
        (k x : ℕ)
        → k < len
        → (if leb posn (posn + k) && ltb (posn + k) (posn + len) then d (posn + k - posn) else x)
          ≡ d (0 + k)
    written k x h = ground arith
