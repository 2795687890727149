-- ===== src/Location.antt =====
-- asm/nasm.c, the current place of assembly: the offset of each segment and of the absolute one.
--
-- A segment is its 32-bit number, `no_seg` for NO_SEG; the other ones in use are not negative.
pub mod Offsets
use nasm.Prelude.{ℕ, Bool, true, false, ◌==◌, if◌then◌else◌}
use nasm.Word.{add64}
use nasm.Expr.{no_seg}
use nasm.Nasmlib.Raa.{Raa, raa_read, raa_write}

pub record Location : Type 0 where
  pub offset : ℕ
  pub segment : ℕ
  pub known : Bool

-- The variables `location`, `absolute`, `in_absolute` and `offsets`.
pub record Assembly : Type 0 where
  pub location : Location
  pub absolute : Location
  pub in_absolute : Bool
  pub offsets : Raa

-- The offset that is returned is `location.offset`.
unfoldable pub switch_segment : Assembly → ℕ → Assembly
unfolding raa_read
switch_segment a segment =
    if segment == no_seg
    then record a {
      location = record a.location { segment = segment; offset = a.absolute.offset };
      in_absolute = true;
    }
    else record a {
      location = record a.location { segment = segment; offset = raa_read a.offsets segment };
      in_absolute = false;
    }

-- The two cases of `set_curr_offs`.
abbrev pub set_absolute_offs : Assembly → ℕ → Assembly
set_absolute_offs a l_off = record a {
  location = record a.location { offset = l_off };
  absolute = record a.absolute { offset = l_off };
}

abbrev pub set_segment_offs : Assembly → ℕ → Assembly
unfolding raa_write
set_segment_offs a l_off = record a {
  location = record a.location { offset = l_off };
  offsets = raa_write a.offsets a.location.segment l_off;
}

unfoldable pub set_curr_offs : Assembly → ℕ → Assembly
unfolding raa_write
set_curr_offs a l_off =
    if a.in_absolute then set_absolute_offs a l_off else set_segment_offs a l_off

-- With the offset that is returned.
unfoldable pub increment_offset : Assembly → ℕ → Assembly × ℕ
unfolding set_curr_offs
increment_offset a delta =
    let newoffs = add64 a.location.offset delta in
    if delta == 0 then (a, newoffs) else (set_curr_offs a newoffs, newoffs)
