-- ===== src/Nasmlib/Saa.antt =====
-- nasmlib/saa.c: arrays that are written and read in sequence, as blocks of bytes.
--
-- A block is a function from offsets to bytes, and the blocks are a function from indices. Data to be
-- written are a function from offsets and a length; NULL stands for zeros. The pointer `wblk` is the
-- index of its block plus one, so that the place before the first block, where `saa_fwrite` may set
-- it, is 0. An access outside the blocks that are allocated is undefined: none. What a new block holds
-- is 0 here, and the sizes are not cut to 64 bits.
pub mod Values
pub mod Leb128
pub mod Place
pub mod Rounds
pub mod Write
pub mod Fwrite
pub mod Read
pub mod Fread
use nasm.Prelude.{
  ℕ, zero, suc, ◌+◌, ◌-◌, ◌*◌, ◌/◌, ◌%◌, ◌^◌, Bool, true, false, not, ◌&&◌, List, [], ◌∷◌, ◌++◌,
  Option, none, some, ltb, leb, ◌==◌, if◌then◌else◌, length,
}
use Prim.Native.Nat.{min, max}

abbrev pub blkshift : ℕ
blkshift = 16

abbrev pub blklen : ℕ
blklen = 2 ^ 16

pub record Saa : Type 0 where
  pub elem_len : ℕ
  pub blk_len : ℕ
  pub nblks : ℕ
  pub nblkptrs : ℕ
  pub length_ : ℕ
  pub datalen : ℕ
  pub wblk : ℕ
  pub wpos : ℕ
  pub wptr : ℕ
  pub rblk : ℕ
  pub rpos : ℕ
  pub rptr : ℕ
  pub blocks : ℕ → ℕ → ℕ

unfoldable pub saa_init : ℕ → Saa
saa_init elem_len =
    let b = if leb blklen elem_len then elem_len else blklen - blklen % elem_len in
    record {
      elem_len = elem_len;
      blk_len = b;
      nblks = 1;
      nblkptrs = 1;
      length_ = b;
      datalen = 0;
      wblk = 1;
      wpos = 0;
      wptr = 0;
      rblk = 0;
      rpos = 0;
      rptr = 0;
      blocks = λ _ _. 0;
    }

abbrev pub saa_extend : Saa → Saa
saa_extend s = record s {
  nblks = s.nblks + 1;
  nblkptrs = if leb s.nblkptrs s.nblks then s.nblkptrs * 2 else s.nblkptrs;
  length_ = s.length_ + s.blk_len;
}

-- `memcpy` of `l` bytes to an offset in a block.
abbrev pub copied : (ℕ → ℕ → ℕ) → ℕ → ℕ → (ℕ → ℕ) → ℕ → ℕ → ℕ → ℕ
copied blocks blk offset d l b o =
    if b == blk && (leb offset o && ltb o (offset + l)) then d (o - offset) else blocks b o

-- The first half of a round of `saa_wbytes`: `l` bytes, at most as many as the block has room for.
abbrev pub write_chunk : Saa → (ℕ → ℕ) → ℕ → Option Saa
write_chunk s d zero = some s
write_chunk s d (suc l) =
    if ltb 0 s.wblk && leb s.wblk s.nblks
    then some (record s {
      blocks = copied s.blocks (s.wblk - 1) s.wpos d (suc l);
      wpos = s.wpos + suc l;
      wptr = s.wptr + suc l;
      datalen = max s.datalen (s.wptr + suc l);
    })
    else none

-- The second half: on to the next block.
abbrev pub next_block : Saa → Saa
next_block s =
    let t = if leb s.length_ s.wptr then saa_extend s else s in
    record t { wblk = t.wblk + 1; wpos = 0 }

-- The loop, of `n` rounds at most.
unfoldable pub write_loop : ℕ → Saa → (ℕ → ℕ) → ℕ → Option Saa
write_loop zero s d len = none
write_loop (suc n) s d zero = some s
write_loop (suc n) s d (suc len) =
    let l = min (s.blk_len - s.wpos) (suc len) in
    elim (write_chunk s d l) [
      | none ↦ none
      | some t ↦ elim (suc len == l) [
        | true ↦ some t
        | false ↦ write_loop n (next_block t) (λ i. d (i + l)) (suc len - l)
      ]
    ]

unfoldable pub saa_wbytes : Saa → (ℕ → ℕ) → ℕ → Option Saa
unfolding write_loop
saa_wbytes s d len = write_loop (len + 2) s d len

-- `saa_wptr` to a position, which is not past the data.
unfoldable pub set_write : Saa → ℕ → Saa
set_write s posn =
    let shifted = s.blk_len == blklen in
    let ix = if shifted then posn / 2 ^ blkshift else posn / s.blk_len in
    let wpos = if shifted then posn % blklen else posn % s.blk_len in
    if wpos == 0
    then record s { wptr = posn; wblk = ix; wpos = s.blk_len }
    else record s { wptr = posn; wblk = ix + 1; wpos = wpos }

abbrev pub wbytes_some : Option Saa → (ℕ → ℕ) → ℕ → Option Saa
wbytes_some none d len = none
wbytes_some (some s) d len = saa_wbytes s d len

unfoldable pub saa_fwrite : Saa → ℕ → (ℕ → ℕ) → ℕ → Option Saa
unfolding saa_wbytes set_write
saa_fwrite s posn d len =
    if ltb s.datalen posn
    then wbytes_some (saa_wbytes (set_write s s.datalen) (λ _. 0) (posn - s.datalen)) d len
    else saa_wbytes (set_write s posn) d len

abbrev pub saa_rewind : Saa → Saa
saa_rewind s = record s { rblk = 0; rpos = 0; rptr = 0 }

-- On to the next block at the end of one.
abbrev pub next_read : Saa → Saa
next_read s = if leb s.blk_len s.rpos then record s { rblk = s.rblk + 1; rpos = 0 } else s

-- A number of bytes, at most as many as are asked for, where they start, as an index of a block and
-- an offset, and the array after it; or NULL.
unfoldable pub saa_rbytes : Saa → ℕ → Option (ℕ × (ℕ × ℕ) × Saa)
saa_rbytes s lenp =
    if leb s.datalen s.rptr
    then none
    else let t = next_read s in
      let len = min (min lenp (t.datalen - t.rptr)) (t.blk_len - t.rpos) in
      some (len, (t.rblk, t.rpos), record t { rpos = t.rpos + len; rptr = t.rptr + len })

-- The `n` values of a function from a place on.
unfoldable pub run : (ℕ → ℕ) → ℕ → ℕ → List ℕ
run f a zero = []
run f a (suc n) = f a ∷ run f (suc a) n

-- `memcpy` from a block.
abbrev pub read_chunk : Saa → ℕ → Option (ℕ × List ℕ × Saa)
unfolding saa_rbytes run
read_chunk s len = elim (saa_rbytes s len) [
  | none ↦ none
  | some (l, (blk, off), t) ↦
      if ltb blk s.nblks then some (l, run (s.blocks blk) off l, t) else none
]

abbrev pub read_rest : List ℕ → Option (List ℕ × Saa) → Option (List ℕ × Saa)
read_rest bytes none = none
read_rest bytes (some (r, t)) = some (bytes ++ r, t)

-- The loop of `saa_rnbytes`, of `n` rounds at most; the bytes in place of the buffer.
unfoldable pub read_loop : ℕ → Saa → ℕ → Option (List ℕ × Saa)
unfolding saa_rbytes run
read_loop zero s len = none
read_loop (suc n) s zero = some ([], s)
read_loop (suc n) s (suc len) = elim (read_chunk s (suc len)) [
  | none ↦ none
  | some (l, bytes, t) ↦ read_rest bytes (read_loop n t (suc len - l))
]

-- A failed assertion is none.
unfoldable pub saa_rnbytes : Saa → ℕ → Option (List ℕ × Saa)
unfolding read_loop
saa_rnbytes s len = if leb (s.rptr + len) s.datalen then read_loop (len + 1) s len else none

unfoldable pub set_read : Saa → ℕ → Saa
set_read s posn =
    if s.blk_len == blklen
    then record s { rptr = posn; rblk = posn / 2 ^ blkshift; rpos = posn % blklen }
    else record s { rptr = posn; rblk = posn / s.blk_len; rpos = posn % s.blk_len }

unfoldable pub saa_fread : Saa → ℕ → ℕ → Option (List ℕ × Saa)
unfolding saa_rnbytes set_read
saa_fread s posn len =
    if leb (posn + len) s.datalen then saa_rnbytes (set_read s posn) len else none

-- An element at the place for writing: where it stands, as an index of a block and an offset, and
-- the array after it. A failed assertion is none.
abbrev element : Saa → (ℕ × ℕ) × Saa
element s = (
  (s.wblk - 1, s.wpos),
  record s {
    wpos = s.wpos + s.elem_len;
    wptr = s.wptr + s.elem_len;
    datalen = max s.datalen (s.wptr + s.elem_len);
  },
)

unfoldable pub saa_wstruct : Saa → Option ((ℕ × ℕ) × Saa)
saa_wstruct s =
    if not (s.wpos % s.elem_len == 0)
    then none
    else if ltb s.blk_len (s.wpos + s.elem_len)
    then (if not (s.wpos == s.blk_len) then none else some (element (extended s)))
    else some (element s)
  where
    extended : Saa → Saa
    extended s =
        let t = if ltb s.length_ (s.wptr + s.elem_len) then saa_extend s else s in
        record t { wblk = t.wblk + 1; wpos = 0 }

-- The next element to be read; none for a failed assertion, some none for NULL.
abbrev next_element : Saa → Saa
next_element s =
    if ltb s.blk_len (s.rpos + s.elem_len) then record s { rblk = s.rblk + 1; rpos = 0 } else s

unfoldable pub saa_rstruct : Saa → Option (Option (ℕ × ℕ) × Saa)
saa_rstruct s =
    let t = next_element s in
    if ltb s.datalen (s.rptr + s.elem_len)
    then some (none, s)
    else if not (s.rpos % s.elem_len == 0)
    then none
    else some
        (some (t.rblk, t.rpos), record t { rpos = t.rpos + t.elem_len; rptr = t.rptr + t.elem_len })
