-- ===== src/Nasmlib/Saa/Read.antt =====
-- Reading from a position of nasmlib/saa.c.
use nasm.Prelude.{
  ℕ, zero, suc, ◌+◌, ◌-◌, ◌*◌, ◌/◌, ◌%◌, ◌≤◌, ◌<◌, ◌≡◌, refl, sym, ap, ◌∙◌, true, false, Option,
  some, ltb, lt→ltb, leb, if◌then◌else◌, arith, Bool-cases, inl, inr,
}
use Prim.Native.Nat.{min}
use native.Mathlib.Nat.{
  lt_of_mul-lt-mul_right, div-eq_of_lt, mod-eq_of_lt, mul-add-div_right, mul-add-mod_self_right,
}
use nasm.Prelude.{List, ◌∷◌, ◌++◌}
use nasm.Nasmlib.Saa.{Saa, saa_rbytes, run, read_chunk, read_rest, read_loop}
use nasm.Nasmlib.Saa.Place.{byte_at}

-- The place for reading is that of the position `rptr`.
pub record IsReader (s : Saa) : Type 0 where
  pub filled : 0 < s.blk_len
  pub room : s.length_ ≡ s.nblks * s.blk_len
  pub used : s.datalen ≤ s.length_
  pub inside : s.rpos ≤ s.blk_len
  pub place : s.rblk * s.blk_len + s.rpos ≡ s.rptr

pub run-cong :
    (f g : ℕ → ℕ) (a b n : ℕ) → ((k : ℕ) → k < n → f (a + k) ≡ g (b + k)) → run f a n ≡ run g b n
unfolding run
run-cong f g a b zero h = refl
run-cong f g a b (suc n) h =
    let e : f a ≡ g b = ap f (omega arith) ∙ h 0 (omega arith) ∙ ap g (omega arith) in
    ap (λ x. x ∷ run f (suc a) n) e
    ∙ ap (λ r. g b ∷ r)
        (run-cong f g (suc a) (suc b) n
          (λ k l. ap f (omega arith) ∙ h (suc k) (omega arith) ∙ ap g (omega arith)))

run-append : (f : ℕ → ℕ) (a m n : ℕ) → run f a m ++ run f (a + m) n ≡ run f a (m + n)
unfolding run
run-append f a zero n = ap (λ b. run f b n) (omega arith) ∙ ap (run f a) (omega arith)
run-append f a (suc m) n =
    let sum : suc (m + n) ≡ suc m + n = omega arith in
    ap (λ b. f a ∷ (run f (suc a) m ++ run f b n)) (omega arith)
    ∙ ap (λ r. f a ∷ r) (run-append f (suc a) m n)
    ∙ ap (run f a) sum

joined :
    (f g : ℕ → ℕ) (a b l m n : ℕ)
    → ((i : ℕ) → g i ≡ f i)
    → b ≡ a + l
    → l + m ≡ n
    → run f a l ++ run g b m ≡ run f a n
joined f g a b l m n same e sum =
    ap (λ r. run f a l ++ r)
      (run-cong g f b (a + l) m (λ k p. same (b + k) ∙ ap f (omega (arith, e))))
    ∙ run-append f a l m
    ∙ ap (run f a) sum

-- The byte at a place in a block.
block_byte : (s : Saa) (j o : ℕ) → o < s.blk_len → s.blocks j o ≡ byte_at s (j * s.blk_len + o)
block_byte s j o h =
    let q : (j * s.blk_len + o) / s.blk_len ≡ j =
      mul-add-div_right (omega (arith, h)) j o ∙ omega (arith, div-eq_of_lt h) in
    let r : (j * s.blk_len + o) % s.blk_len ≡ o =
      mul-add-mod_self_right j s.blk_len o ∙ mod-eq_of_lt h in
    ap (λ k. s.blocks k o) (sym q) ∙ ap (s.blocks ((j * s.blk_len + o) / s.blk_len)) (sym r)

-- What `saa_rbytes` gives at a place.
abbrev reached : Saa → ℕ → ℕ → ℕ → ℕ
reached s r o len = min (min len (s.datalen - s.rptr)) (s.blk_len - o)

abbrev picked : Saa → ℕ → ℕ → ℕ → Option (ℕ × (ℕ × ℕ) × Saa)
picked s r o len =
    let l = reached s r o len in
    some (l, (r, o), record s { rblk = r; rpos = o + l; rptr = s.rptr + l })

saa_rbytes-picked :
    (s : Saa) (len : ℕ)
    → s.rptr < s.datalen
    → saa_rbytes s len
      ≡ (if leb s.blk_len s.rpos then picked s (s.rblk + 1) 0 len else picked s s.rblk s.rpos len)
unfolding saa_rbytes
saa_rbytes-picked s len h =
    let e : leb s.datalen s.rptr ≡ false = ground arith in
    elim (Bool-cases (leb s.blk_len s.rpos)) [
      | inl k ↦ rw (saa_rbytes, e, k) refl
      | inr k ↦ rw (saa_rbytes, e, k) refl
    ]

read_chunk-some :
    (s : Saa) (len l blk off : ℕ) (t : Saa)
    → saa_rbytes s len ≡ some (l, (blk, off), t)
    → ltb blk s.nblks ≡ true
    → read_chunk s len ≡ some (l, run (s.blocks blk) off l, t)
unfolding read_chunk run
read_chunk-some s len l blk off t e h = rw (read_chunk, e) rw (h) refl

-- What a round of `saa_rnbytes` reads.
record Chunk (s : Saa) (len : ℕ) : Type 0 where
  count : ℕ
  after : Saa
  result : read_chunk s len ≡ some (count, run (byte_at s) s.rptr count, after)
  some_count : 0 < count
  at_most : count ≤ len
  valid : IsReader after
  moved : after.rptr ≡ s.rptr + count
  used : after.datalen ≡ s.datalen
  same : (i : ℕ) → byte_at after i ≡ byte_at s i

picked-Chunk :
    (s : Saa) (len r o : ℕ)
    → IsReader s
    → r * s.blk_len + o ≡ s.rptr
    → o < s.blk_len
    → s.rptr < s.datalen
    → 0 < len
    → saa_rbytes s len ≡ picked s r o len
    → Chunk s len
picked-Chunk s len r o v e small h pos step =
    let l = reached s r o len in
    let allocated : r < s.nblks =
      lt_of_mul-lt-mul_right s.blk_len {m = r} {n = s.nblks}
        (omega (arith, e, h, v.used, v.room)) in
    let fits : o + l ≤ s.blk_len = omega (arith, small) in
    record {
      count = l;
      after = record s { rblk = r; rpos = o + l; rptr = s.rptr + l };
      result =
          read_chunk-some s len l r o (record s { rblk = r; rpos = o + l; rptr = s.rptr + l }) step
            (lt→ltb r s.nblks allocated)
          ∙ ap (λ b. some (l, b, record s { rblk = r; rpos = o + l; rptr = s.rptr + l }))
              (run-cong (s.blocks r) (byte_at s) o s.rptr l (λ k p.
                block_byte s r (o + k) (omega (arith, p, fits))
                ∙ ap (byte_at s) (omega (arith, e))));
      some_count = omega (arith, small, h, pos);
      at_most = omega arith;
      valid = record {
        filled = v.filled;
        room = v.room;
        used = v.used;
        inside = fits;
        place = omega (arith, e);
      };
      moved = refl;
      used = refl;
      same = λ i. refl;
    }

chunk : (s : Saa) (len : ℕ) → IsReader s → s.rptr < s.datalen → 0 < len → Chunk s len
chunk s len v h pos = elim (Bool-cases (leb s.blk_len s.rpos)) [
  | inl e ↦
      picked-Chunk s len (s.rblk + 1) 0 v (ground (arith, v.place, v.inside, e)) v.filled h pos (
        saa_rbytes-picked s len h
        ∙ ap (λ b. if b then picked s (s.rblk + 1) 0 len else picked s s.rblk s.rpos len) e)
  | inr e ↦ picked-Chunk s len s.rblk s.rpos v v.place (ground (arith, e)) h pos (
      saa_rbytes-picked s len h
      ∙ ap (λ b. if b then picked s (s.rblk + 1) 0 len else picked s s.rblk s.rpos len) e)
]

-- What reading gives: the bytes at the positions.
pub record ReadOut (s : Saa) (posn len : ℕ) (r : Option (List ℕ × Saa)) : Type 0 where
  pub after : Saa
  pub result : r ≡ some (run (byte_at s) posn len, after)

read_step :
    (n : ℕ) (s : Saa) (len l : ℕ) (bytes : List ℕ) (t : Saa)
    → read_chunk s (suc len) ≡ some (l, bytes, t)
    → read_loop (suc n) s (suc len) ≡ read_rest bytes (read_loop n t (suc len - l))
unfolding read_loop
read_step n s len l bytes t e = rw (read_loop, e) refl

pub read_loop-ReadOut :
    (n : ℕ) (s : Saa) (len : ℕ)
    → IsReader s
    → s.rptr + len ≤ s.datalen
    → len < n
    → ReadOut s s.rptr len (read_loop n s len)
unfolding read_loop run
read_loop-ReadOut zero s len v h k = absurd (omega arith)
read_loop-ReadOut (suc n) s zero v h k = record { after = s; result = refl }
read_loop-ReadOut (suc n) s (suc len) v h k =
    let c = chunk s (suc len) v (omega (arith, h)) (omega arith) in
    let l = c.count in
    let r =
      read_loop-ReadOut n c.after (suc len - l) c.valid
        (omega (arith, c.moved, c.used, c.at_most, h)) (omega (arith, c.some_count, k)) in
    record {
      after = r.after;
      result =
          read_step n s len l (run (byte_at s) s.rptr l) c.after c.result
          ∙ ap (read_rest (run (byte_at s) s.rptr l)) r.result
          ∙ ap (λ b. some (b, r.after))
              (joined (byte_at s) (byte_at c.after) s.rptr c.after.rptr l (suc len - l) (suc len)
                c.same c.moved (omega (arith, c.at_most)));
    }
