-- ===== src/Quote/Unquote.antt =====
-- asm/quote.c: nasm_unquote_anystr, which reads a quoted string.
--
-- The pointers `p` and `escp` are what is left of the text from there on; at its end C reads a zero. The
-- bytes are written to a list in place of the text itself. `badctl` is a test on control characters.
pub mod Reads
pub mod Chunks
pub mod Octal
pub mod Body
pub mod RoundTrip
use nasm.Prelude.{
  ℕ, zero, suc, ◌+◌, ◌-◌, ◌*◌, ◌/◌, ◌%◌, ◌^◌, Bool, true, false, not, ◌&&◌, ◌||◌, List, [], ◌∷◌,
  ◌++◌, Option, none, some, ltb, leb, ◌==◌, if◌then◌else◌, length,
}
use nasm.Quote.{single, double, back, slash}

-- `-1U` for what is no digit and no letter.
abbrev pub numvalue_chk : ℕ → ℕ
numvalue_chk c =
    let d = if c / 2 ^ 5 % 2 == 0 then c + 0x20 else c in
    if leb 0x30 c && ltb c 0x3a
    then c - 0x30
    else if leb 0x61 d && ltb d 0x7b
    then d - 0x61 + 10
    else 2 ^ 32 - 1

-- The extension bytes of `v` from the one of the bits from 6 * n on.
abbrev pub extension : ℕ → ℕ → List ℕ
extension zero v = []
extension (suc n) v = (0x80 + v / 2 ^ (6 * n) % 2 ^ 6) ∷ extension n v

abbrev pub emit_utf8 : ℕ → List ℕ
emit_utf8 v =
    if leb v 0x7f
    then v ∷ []
    else if leb (v / 2 ^ 6) 0x1f
    then (0xc0 + v / 2 ^ 6) ∷ extension 1 v
    else if leb (v / 2 ^ 12) 0x0f
    then (0xe0 + v / 2 ^ 12) ∷ extension 2 v
    else if leb (v / 2 ^ 18) 7
    then (0xf0 + v / 2 ^ 18) ∷ extension 3 v
    else if leb (v / 2 ^ 24) 3
    then (0xf8 + v / 2 ^ 24) ∷ extension 4 v
    else (0xfc + v / 2 ^ 30) ∷ extension 5 v

-- The states with the variables that they use. A numeric sequence has the state to emit its value
-- (`st_ucs` if true), `base`, the digits still allowed or none in braces, `nval`, whether no digit has
-- been read, and `escp`.
pub data UnqState : Type 0 where
  st_start : UnqState
  st_backslash : UnqState
  st_number : Bool → ℕ → Option ℕ → ℕ → Bool → List ℕ → UnqState
  st_ctrl : List ℕ → UnqState

-- The next byte, what is left after it, and the value of a simple escape.
abbrev pub head : List ℕ → ℕ
head [] = 0
head (c ∷ r) = c

abbrev pub tail : List ℕ → List ℕ
tail [] = []
tail (c ∷ r) = r

abbrev pub simple_escape : ℕ → ℕ
simple_escape c =
    if c == 0x61
    then 7
    else if c == 0x62
    then 8
    else if c == 0x65
    then 27
    else if c == 0x66
    then 12
    else if c == 0x6e
    then 10
    else if c == 0x72
    then 13
    else if c == 0x74
    then 9
    else if c == 0x76
    then 11
    else c

-- What is written, and whether a forbidden control character has been seen.
pub record Emitted : Type 0 where
  pub bytes : List ℕ
  pub bad : Bool

abbrev pub emit : (ℕ → Bool) → Bool → ℕ → List ℕ → Emitted
emit badctl bad c bytes =
    let bad' = bad || (ltb c 0x20 && badctl c) in
    record { bytes = if bad' then [] else bytes; bad = bad' }

-- `EMIT` and `EMIT_UTF8`
abbrev pub emit_value : (ℕ → Bool) → Bool → Bool → ℕ → Emitted
emit_value badctl ucs bad v =
    if ucs
    then emit badctl bad (v % 2 ^ 32) (emit_utf8 (v % 2 ^ 32))
    else emit badctl bad (v % 2 ^ 8) (v % 2 ^ 8 ∷ [])

-- A round of the loop: what it writes, the state, and what is left; none at the end of the string.
pub record Round : Type 0 where
  pub written : Emitted
  pub state : UnqState
  pub left_over : List ℕ

abbrev pub nothing : Bool → UnqState → List ℕ → Option Round
nothing bad st p =
    some record { written = record { bytes = []; bad = bad }; state = st; left_over = p }

abbrev pub number : Bool → Bool → ℕ → ℕ → List ℕ → List ℕ → Option Round
number bad ucs base ndig escp p =
    if head p == 0x7b
    then nothing bad (st_number ucs base none 0 true escp) (tail p)
    else nothing bad (st_number ucs base (some ndig) 0 true escp) p

abbrev pub backslash_round : (ℕ → Bool) → Bool → List ℕ → Option Round
backslash_round badctl bad p =
    let c = head p in
    let r = tail p in
    if c == 0x5e
    then nothing bad (st_ctrl p) r
    else if c == 0x75
    then number bad true 16 4 p r
    else if c == 0x55
    then number bad true 16 8 p r
    else if c == 0x78 || c == 0x58
    then number bad false 16 2 p r
    else if c == 0x64
    then number bad false 10 3 p r
    else if leb 0x30 c && leb c 0x37
    then number bad false 8 3 (slash ∷ p) p
    else if c == 0x6f
    then number bad false 8 3 p r
    else if c == 0
    then some
        record { written = emit badctl bad slash (slash ∷ []); state = st_start; left_over = p }
    else some record {
      written = emit badctl bad (simple_escape c) (simple_escape c ∷ []);
      state = st_start;
      left_over = r;
    }

-- The digits that are left after one more, and whether there are any.
abbrev pub fewer : Option ℕ → Option ℕ
fewer none = none
fewer (some n) = some (n - 1)

abbrev pub is_last : Option ℕ → Bool
is_last none = false
is_last (some n) = n == 1

abbrev pub is_braced : Option ℕ → Bool
is_braced none = true
is_braced (some n) = false

abbrev pub number_round :
    (ℕ → Bool) → Bool → Bool → ℕ → Option ℕ → ℕ → Bool → List ℕ → List ℕ → Option Round
number_round badctl bad ucs base ndig nval fresh escp p =
    let v = numvalue_chk (head p) in
    let nval' = (nval * base + v) % 2 ^ 64 in
    if ltb v base
    then (if not (is_last ndig)
        then nothing bad (st_number ucs base (fewer ndig) nval' false escp) (tail p)
        else some record {
          written = emit_value badctl ucs bad nval';
          state = st_start;
          left_over = tail p;
        })
    else if (if is_braced ndig then not (head p == 0x7d) else fresh)
    then nothing bad st_start escp
    else some record {
      written = emit_value badctl ucs bad nval;
      state = st_start;
      left_over = if is_braced ndig then tail p else p;
    }

abbrev pub ctrl_round : (ℕ → Bool) → Bool → List ℕ → List ℕ → Option Round
ctrl_round badctl bad escp p =
    let c = head p in
    let e = if c == 0x3f then 0x7f else c / 2 ^ 7 * 2 ^ 7 + c % 2 ^ 5 in
    if c == 0
    then nothing bad st_start escp
    else some record { written = emit badctl bad e (e ∷ []); state = st_start; left_over = tail p }

abbrev pub start_round : (ℕ → Bool) → ℕ → Bool → List ℕ → Option Round
start_round badctl bq bad p =
    let c = head p in
    if c == slash
    then nothing bad st_backslash (tail p)
    else if c == 0 || c == bq
    then none
    else some record { written = emit badctl bad c (c ∷ []); state = st_start; left_over = tail p }

abbrev pub round_of : (ℕ → Bool) → ℕ → Bool → UnqState → List ℕ → Option Round
round_of badctl bq bad st_start p = start_round badctl bq bad p
round_of badctl bq bad st_backslash p = backslash_round badctl bad p
round_of badctl bq bad (st_number ucs base ndig nval fresh escp) p =
    number_round badctl bad ucs base ndig nval fresh escp p
round_of badctl bq bad (st_ctrl escp) p = ctrl_round badctl bad escp p

abbrev pub prepend : List ℕ → Option (List ℕ × Bool × List ℕ) → Option (List ℕ × Bool × List ℕ)
prepend bytes none = none
prepend bytes (some (out, bad, ep)) = some (bytes ++ out, bad, ep)

-- The loop, of `n` rounds at most.
unfoldable pub unquote_loop :
    (ℕ → Bool) → ℕ → ℕ → Bool → UnqState → List ℕ → Option (List ℕ × Bool × List ℕ)
unquote_loop badctl bq zero bad st p = none
unquote_loop badctl bq (suc n) bad st p = elim (round_of badctl bq bad st p) [
  | none ↦ some ([], bad, p)
  | some r ↦ prepend r.written.bytes (unquote_loop badctl bq n r.written.bad r.state r.left_over)
]

-- The loops without escapes, up to a zero or a byte that stops them.
unfoldable pub copy_loop : (ℕ → Bool) → (ℕ → Bool) → Bool → List ℕ → Option (List ℕ × Bool × List ℕ)
copy_loop badctl stops bad [] = some ([], bad, [])
copy_loop badctl stops bad (c ∷ r) =
    let e = emit badctl bad c (c ∷ []) in
    let rest = copy_loop badctl stops e.bad r in
    if c == 0 || stops c then some ([], bad, c ∷ r) else prepend e.bytes rest

-- The bytes, whether there is the error on control characters, and what is left from the terminating
-- character on.
unfoldable pub nasm_unquote_anystr : List ℕ → (ℕ → Bool) → ℕ → Option (List ℕ × Bool × List ℕ)
unfolding unquote_loop copy_loop
nasm_unquote_anystr str badctl qstart =
    let bq = head str in
    if bq == qstart
    then unquote_loop badctl bq (4 * length str + 4) false st_start (tail str)
    else if bq == single || bq == double
    then copy_loop badctl (λ c. c == bq) false (tail str)
    else copy_loop badctl (λ _. false) false str

unfoldable pub nasm_unquote : List ℕ → Option (List ℕ × Bool × List ℕ)
unfolding nasm_unquote_anystr
nasm_unquote str = nasm_unquote_anystr str (λ _. false) back
