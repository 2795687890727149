-- ===== src/Location/Offsets.antt =====
-- The offsets that asm/nasm.c keeps for the segments.
use nasm.Prelude.{
  ℕ, ◌^◌, ◌<◌, ◌≡◌, refl, sym, ap, ◌∙◌, Bool, true, false, ◌==◌, if◌then◌else◌, arith, Bool-cases,
  inl, inr,
}
use mathlib.Core.Path.{subst}
use nasm.Word.{add64}
use nasm.Expr.{no_seg}
use nasm.Nasmlib.Raa.{raa_read, raa_write}
use nasm.Nasmlib.Raa.Store.{IsArray}
use nasm.Nasmlib.Raa.Map.{raa_read-raa_write, raa_write-IsArray}
use nasm.Location.{
  Assembly, switch_segment, set_absolute_offs, set_segment_offs, set_curr_offs, increment_offset,
}

-- The offset of a segment.
unfoldable pub offset_of : Assembly → ℕ → ℕ
offset_of a segment = if segment == no_seg then a.absolute.offset else raa_read a.offsets segment

-- The current place is that of the current segment.
pub record IsCurrent (a : Assembly) : Type 0 where
  pub array : IsArray a.offsets
  pub here : a.location.offset ≡ offset_of a a.location.segment
  pub kind : a.in_absolute ≡ (a.location.segment == no_seg)
  pub small : a.location.segment < 2 ^ 32
  pub word : (segment : ℕ) → segment < 2 ^ 32 → offset_of a segment < 2 ^ 64

set_absolute :
    (a : Assembly) (l_off segment : ℕ)
    → a.in_absolute ≡ true
    → offset_of (set_curr_offs a l_off) segment
      ≡ (if segment == no_seg then l_off else raa_read a.offsets segment)
unfolding set_curr_offs offset_of
set_absolute a l_off segment e = rw (set_curr_offs, e) refl

set_stored :
    (a : Assembly) (l_off segment : ℕ)
    → a.in_absolute ≡ false
    → offset_of (set_curr_offs a l_off) segment ≡ (
        if segment == no_seg
        then a.absolute.offset
        else raa_read (raa_write a.offsets a.location.segment l_off) segment)
unfolding set_curr_offs offset_of
set_stored a l_off segment e = rw (set_curr_offs, e) refl

-- The choices of the two agree.
same_stored :
    (segment current x y z : ℕ)
    → (current == no_seg) ≡ false
    → (if segment == no_seg then x else if current == segment then y else z)
      ≡ (if segment == current then y else if segment == no_seg then x else z)
same_stored segment current x y z h = ground arith

set_curr_offs-offset_of :
    (a : Assembly) (l_off segment : ℕ)
    → IsCurrent a
    → segment < 2 ^ 32
    → offset_of (set_curr_offs a l_off) segment
      ≡ (if segment == a.location.segment then l_off else offset_of a segment)
unfolding offset_of
set_curr_offs-offset_of a l_off segment c h = elim (Bool-cases (a.location.segment == no_seg)) [
  | inl e ↦
      set_absolute a l_off segment (c.kind ∙ e)
      ∙ absolute_only segment a.location.segment l_off (raa_read a.offsets segment)
          a.absolute.offset e
  | inr e ↦
      set_stored a l_off segment (c.kind ∙ e)
      ∙ ap (λ x. if segment == no_seg then a.absolute.offset else x)
          (raa_read-raa_write a.offsets a.location.segment segment l_off c.array
            (omega (arith, c.small)) (omega (arith, h)))
      ∙ same_stored segment a.location.segment a.absolute.offset l_off (raa_read a.offsets segment)
          e
]
  where
    absolute_only :
        (segment current l_off y z : ℕ)
        → (current == no_seg) ≡ true
        → (if segment == no_seg then l_off else y)
          ≡ (if segment == current then l_off else if segment == no_seg then z else y)
    absolute_only segment current l_off y z e = ground arith

-- The new offset is that of the current segment.
here_again :
    (a : Assembly) (l_off : ℕ)
    → IsCurrent a
    → l_off ≡ offset_of (set_curr_offs a l_off) a.location.segment
here_again a l_off c =
    sym (same a.location.segment (offset_of a a.location.segment))
    ∙ sym (set_curr_offs-offset_of a l_off a.location.segment c c.small)
  where
    same : (s x : ℕ) → (if s == s then l_off else x) ≡ l_off
    same s x = ground arith

set_curr_offs-IsCurrent :
    (a : Assembly) (l_off : ℕ) → IsCurrent a → l_off < 2 ^ 64 → IsCurrent (set_curr_offs a l_off)
unfolding set_curr_offs
set_curr_offs-IsCurrent a l_off c w =
    let new_word : (q : ℕ) → q < 2 ^ 32 → offset_of (set_curr_offs a l_off) q < 2 ^ 64 = λ q h.
      subst (λ x. x < 2 ^ 64) (sym (set_curr_offs-offset_of a l_off q c h))
        (chosen (q == a.location.segment) (offset_of a q) (c.word q h)) in
    elim (Bool-cases a.in_absolute) [
      | inl e ↦
          let set : set_absolute_offs a l_off ≡ set_curr_offs a l_off =
            sym (ap (λ b. if b then set_absolute_offs a l_off else set_segment_offs a l_off) e) in
          subst IsCurrent set record {
            array = c.array;
            here = here_again a l_off c ∙ ap (λ x. offset_of x a.location.segment) (sym set);
            kind = c.kind;
            small = c.small;
            word = λ q h. subst (λ x. offset_of x q < 2 ^ 64) (sym set) (new_word q h);
          }
      | inr e ↦
          let set : set_segment_offs a l_off ≡ set_curr_offs a l_off =
            sym (ap (λ b. if b then set_absolute_offs a l_off else set_segment_offs a l_off) e) in
          subst IsCurrent set record {
            array =
                raa_write-IsArray a.offsets a.location.segment l_off c.array
                  (omega (arith, c.small));
            here = here_again a l_off c ∙ ap (λ x. offset_of x a.location.segment) (sym set);
            kind = c.kind;
            small = c.small;
            word = λ q h. subst (λ x. offset_of x q < 2 ^ 64) (sym set) (new_word q h);
          }
    ]
  where
    chosen : (b : Bool) (x : ℕ) → x < 2 ^ 64 → (if b then l_off else x) < 2 ^ 64
    chosen true x k = w
    chosen false x k = k

-- A segment becomes the current one, at its offset.
switch_absolute :
    (a : Assembly) (segment : ℕ)
    → (segment == no_seg) ≡ true
    → switch_segment a segment ≡ record a {
      location = record a.location { segment = segment; offset = a.absolute.offset };
      in_absolute = true;
    }
unfolding switch_segment
switch_absolute a segment e = rw (switch_segment, e) refl

switch_stored :
    (a : Assembly) (segment : ℕ)
    → (segment == no_seg) ≡ false
    → switch_segment a segment ≡ record a {
      location = record a.location { segment = segment; offset = raa_read a.offsets segment };
      in_absolute = false;
    }
unfolding switch_segment
switch_stored a segment e = rw (switch_segment, e) refl

-- A segment has become the current one, and all offsets are as they were.
pub record Switched (a : Assembly) (segment : ℕ) (a' : Assembly) : Type 0 where
  pub current : IsCurrent a'
  pub here : a'.location.segment ≡ segment
  pub there : a'.location.offset ≡ offset_of a segment
  pub kept : (q : ℕ) → offset_of a' q ≡ offset_of a q

pub switch_segment-Switched :
    (a : Assembly) (segment : ℕ)
    → IsCurrent a
    → segment < 2 ^ 32
    → Switched a segment (switch_segment a segment)
unfolding offset_of
switch_segment-Switched a segment c h = elim (Bool-cases (segment == no_seg)) [
  | inl e ↦
      let at_ : a.absolute.offset ≡ offset_of a segment =
        sym (ap (λ b. if b then a.absolute.offset else raa_read a.offsets segment) e) in
      subst (Switched a segment) (sym (switch_absolute a segment e)) record {
        current = record { array = c.array; here = at_; kind = sym e; small = h; word = c.word };
        here = refl;
        there = at_;
        kept = λ q. refl;
      }
  | inr e ↦
      let at_ : raa_read a.offsets segment ≡ offset_of a segment =
        sym (ap (λ b. if b then a.absolute.offset else raa_read a.offsets segment) e) in
      subst (Switched a segment) (sym (switch_stored a segment e)) record {
        current = record { array = c.array; here = at_; kind = sym e; small = h; word = c.word };
        here = refl;
        there = at_;
        kept = λ q. refl;
      }
]

increment_zero : (a : Assembly) (delta : ℕ) → (delta == 0) ≡ true → (increment_offset a delta).0 ≡ a
unfolding increment_offset
increment_zero a delta e = rw (increment_offset, e) refl

increment_more :
    (a : Assembly) (delta : ℕ)
    → (delta == 0) ≡ false
    → (increment_offset a delta).0 ≡ set_curr_offs a (add64 a.location.offset delta)
unfolding increment_offset
increment_more a delta e = rw (increment_offset, e) refl

add_nothing : (x delta : ℕ) → x < 2 ^ 64 → (delta == 0) ≡ true → x ≡ add64 x delta
add_nothing x delta h e = (let d : delta ≡ 0 = ground (arith, e) in omega (arith, h, d))

either : (b : Bool) (x y : ℕ) → x ≡ y → x ≡ (if b then y else x)
either true x y h = h
either false x y h = refl

-- Where the current place is that of the current segment, an increment keeps it so; it adds to the
-- offset of the current segment, modulo 2 ^ 64, and changes that of no other.
pub increment_offset-offset_of :
    (a : Assembly) (delta segment : ℕ)
    → IsCurrent a
    → segment < 2 ^ 32
    → IsCurrent (increment_offset a delta).0
      × (offset_of (increment_offset a delta).0 segment ≡ (
          if segment == a.location.segment
          then add64 (offset_of a segment) delta
          else offset_of a segment))
increment_offset-offset_of a delta segment c h = elim (Bool-cases (delta == 0)) [
  | inl e ↦ (
    subst IsCurrent (sym (increment_zero a delta e)) c,
    ap (λ x. offset_of x segment) (increment_zero a delta e)
        ∙ either (segment == a.location.segment) (offset_of a segment)
            (add64 (offset_of a segment) delta)
            (add_nothing (offset_of a segment) delta (c.word segment h) e),
  )
  | inr e ↦
      let new = add64 a.location.offset delta in
      (
        subst IsCurrent (sym (increment_more a delta e))
            (set_curr_offs-IsCurrent a new c (omega arith)),
        ap (λ x. offset_of x segment) (increment_more a delta e)
            ∙ set_curr_offs-offset_of a new segment c h
            ∙ own segment (segment == a.location.segment) refl,
      )
]
  where
    own :
        (s : ℕ) (b : Bool)
        → (s == a.location.segment) ≡ b
        → (if b then add64 a.location.offset delta else offset_of a s)
          ≡ (if b then add64 (offset_of a s) delta else offset_of a s)
    own s true e =
        let same : a.location.segment ≡ s = ground (arith, e) in
        ap (λ x. add64 x delta) (c.here ∙ ap (offset_of a) same)
    own s false e = refl
