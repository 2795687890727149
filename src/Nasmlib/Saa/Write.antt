-- ===== src/Nasmlib/Saa/Write.antt =====
-- Writing to nasmlib/saa.c: whatever the state, the loop ends and every access is in a block that is
-- allocated.
use nasm.Prelude.{
  ℕ, zero, suc, ◌+◌, ◌-◌, ◌≤◌, ◌<◌, ◌≡◌, refl, ◌∙◌, Option, some, ◌==◌, if◌then◌else◌, arith,
  Bool-cases, inl, inr,
}
use Prim.Native.Nat.{min}
use mathlib.Core.Path.{subst}
use nasm.Nasmlib.Saa.{Saa, write_chunk, next_block, write_loop, saa_wbytes}
use nasm.Nasmlib.Saa.Place.{
  IsSaa, IsWritten, stored, stored-IsSaa, stored-IsWritten, write_chunk-stored,
}
use nasm.Nasmlib.Saa.Rounds.{
  next_block-IsSaa, next_block-kept, nothing-IsWritten, loop_done, loop_goes_on, then-IsWritten,
}

-- What writing gives: an array, where the bytes are written.
pub record Wrote (s : Saa) (d : ℕ → ℕ) (len : ℕ) (r : Option Saa) : Type 0 where
  pub after : Saa
  pub result : r ≡ some after
  pub valid : IsSaa after
  pub written : IsWritten s d len after

-- A round, and what the rounds after it write.
after_round :
    (s : Saa) (d : ℕ → ℕ) (len l : ℕ) (t : Saa) (r r' : Option Saa)
    → IsWritten s d l t
    → l < len
    → r ≡ r'
    → Wrote (next_block t) (λ i. d (i + l)) (len - l) r'
    → Wrote s d len r
after_round s d len l t r r' f h e w = record {
  after = w.after;
  result = e ∙ w.result;
  valid = w.valid;
  written =
      let sum : l + (len - l) ≡ len = omega arith in
      subst (λ k. IsWritten s d k w.after) sum
        (then-IsWritten s d l (len - l) t w.after f w.written (omega arith));
}

-- The measure of a loop that goes on from the start of a block.
fresh_measure :
    (s : Saa) (m : ℕ)
    → 0 < s.blk_len
    → m + (if (next_block s).wpos == (next_block s).blk_len then 1 else 0) ≡ m
fresh_measure s m h = let (k1, k2, k3, k4) = next_block-kept s in rw (k1, k4) ground arith

abbrev Enough : ℕ → Type 0
Enough n =
    (s : Saa) (d : ℕ → ℕ) (len : ℕ)
    → IsSaa s
    → len + (if s.wpos == s.blk_len then 1 else 0) < n
    → Wrote s d len (write_loop n s d len)

-- After `l` bytes the block is full, and the loop goes on in the next one.
next_rounds :
    (n : ℕ) (s : Saa) (d : ℕ → ℕ) (len l : ℕ) (t : Saa)
    → Enough n
    → min (s.blk_len - s.wpos) (suc len) ≡ l
    → write_chunk s d l ≡ some t
    → l < suc len
    → IsWritten s d l t
    → IsSaa t
    → t.wpos ≡ t.blk_len
    → suc len - l < n
    → Wrote s d (suc len) (write_loop (suc n) s d (suc len))
next_rounds n s d len l t enough m e h f v full k =
    after_round s d (suc len) l t (write_loop (suc n) s d (suc len))
      (write_loop n (next_block t) (λ i. d (i + l)) (suc len - l)) f h
      (loop_goes_on n s d len l t m e (ground arith))
      (enough (next_block t) (λ i. d (i + l)) (suc len - l) (next_block-IsSaa t v full)
        (omega (arith, fresh_measure t (suc len - l) v.filled, k)))

-- A round that writes `suc l` bytes.
some_bytes :
    (n : ℕ) (s : Saa) (d : ℕ → ℕ) (len l : ℕ)
    → Enough n
    → IsSaa s
    → min (s.blk_len - s.wpos) (suc len) ≡ suc l
    → suc len ≤ n
    → Wrote s d (suc len) (write_loop (suc n) s d (suc len))
some_bytes n s d len l enough v m h =
    let fits : s.wpos + suc l ≤ s.blk_len = omega (arith, m) in
    let t = stored s d (suc l) in
    let e = write_chunk-stored s d l v fits in
    let f = stored-IsWritten s d l v fits in
    let valid = stored-IsSaa s d l v fits in
    elim (Bool-cases (suc len == suc l)) [
      | inl last ↦ record {
        after = t;
        result = loop_done n s d len (suc l) t m e last;
        valid = valid;
        written =
            let all : suc l ≡ suc len = ground (arith, last) in
            subst (λ k. IsWritten s d k t) all f;
      }
      | inr more ↦
          next_rounds n s d len (suc l) t enough m e (ground (arith, m, more)) f valid
            (ground (arith, m, more)) (ground (arith, m, more, h))
    ]

-- Rounds enough for the bytes and for a place at the end of a block.
loop-Wrote : (n : ℕ) → Enough n
unfolding write_loop
loop-Wrote zero s d len v h = absurd (ground arith)
loop-Wrote (suc n) s d zero v h = record {
  after = s;
  result = refl;
  valid = v;
  written = nothing-IsWritten s d;
}
loop-Wrote (suc n) s d (suc len) v h =
    let enough = loop-Wrote n in
    elim (Bool-cases (s.wpos == s.blk_len)) [
      | inl e ↦
          next_rounds n s d len 0 s enough (ground (arith, e)) refl (omega arith)
            (nothing-IsWritten s d) v (ground (arith, e)) (ground (arith, e, h))
      | inr e ↦
          some_bytes n s d len (min (s.blk_len - s.wpos) (suc len) - 1) enough v
            (ground (arith, e, v.inside)) (ground (arith, h))
    ]

-- For every array whose place for writing stands at the position `wptr`, and data of any length,
-- NULL for zeros among them, `saa_wbytes` ends, without an access outside the blocks that are
-- allocated. The array it leaves is such an array again; the bytes from `wptr` on are the data, all
-- other bytes are those of before, `wptr` has moved by the length, and the data have grown to `wptr`.
pub saa_wbytes-Wrote :
    (s : Saa) (d : ℕ → ℕ) (len : ℕ) → IsSaa s → Wrote s d len (saa_wbytes s d len)
unfolding saa_wbytes
saa_wbytes-Wrote s d len v = loop-Wrote (len + 2) s d len v (ground arith)
