-- ===== src/Quote/Unquote/RoundTrip.antt =====
-- What asm/quote.c quotes it reads again.
use nasm.Prelude.{
  ℕ, suc, ◌+◌, ◌*◌, ◌<◌, ◌≡◌, refl, sym, ap, ◌∙◌, Bool, true, false, not, ◌&&◌, ◌||◌, List, [], ◌∷◌,
  ◌++◌, Option, none, some, ◌==◌, length, append_assoc, arith, Bool-cases, inl, inr, All,
}
use mathlib.Core.Path.{subst}
use nasm.Quote.{
  single, double, back, is_marked, is_unprintable, added, measure, body, quoted, nasm_quote,
}
use nasm.Quote.Lengths.{asserted}
use nasm.Quote.Escapes.{allowed}
use nasm.Quote.Unquote.{prepend, copy_loop, nasm_unquote_anystr, nasm_unquote}
use nasm.Quote.Unquote.Reads.{allow}
use nasm.Quote.Unquote.Chunks.{Chunk, emit_clean}
use nasm.Quote.Unquote.Body.{body_read, enough_rounds}

back_read :
    (str rest : List ℕ)
    → All (λ c. c < 256) str
    → nasm_unquote (quoted back (body str) ++ rest) ≡ some (str, false, back ∷ rest)
unfolding nasm_unquote nasm_unquote_anystr
back_read str rest h =
    let t = body str ++ (back ∷ []) ++ rest in
    let e = append_assoc (body str) (back ∷ []) rest in
    let c : Chunk t str (back ∷ rest) =
      subst (λ p. Chunk p str (back ∷ rest)) (sym e) (body_read str rest h) in
    enough_rounds t str rest (4 * suc (length t) + 4) c (omega (arith, c.enough))

copy_step :
    (stops : ℕ → Bool) (c : ℕ) (r : List ℕ)
    → (c == 0 || stops c) ≡ false
    → copy_loop allow stops false (c ∷ r) ≡ prepend (c ∷ []) (copy_loop allow stops false r)
unfolding copy_loop
copy_step stops c r h =
    rw (h) (ap (λ e. prepend e.bytes (copy_loop allow stops e.bad r)) (emit_clean c (c ∷ [])))

copy_stop :
    (q : ℕ) (r : List ℕ) → copy_loop allow (λ c. c == q) false (q ∷ r) ≡ some ([], false, q ∷ r)
unfolding copy_loop
copy_stop q r = let e : (q == 0 || q == q) ≡ true = ground arith in rw (e) refl

single_read :
    (str rest : List ℕ) (sq dq : Bool) (n : ℕ)
    → (measure str sq dq n).0 ≡ true
    → (sq ≡ true)
      × (copy_loop allow (λ c. c == single) false (str ++ single ∷ rest)
          ≡ some (str, false, single ∷ rest))
unfolding measure
single_read [] rest sq dq n h = (h, copy_stop single rest)
single_read (c ∷ r) rest sq dq n h =
    let other = not (is_marked c) && is_unprintable c in
    let (ok, next) =
      single_read r rest (sq && not (c == single || other)) (dq && not (c == double || other))
        (n + added c r) h in
    let (before, e) = allowed single sq c ok in
    (before, copy_step (λ k. k == single) c (r ++ single ∷ rest) e ∙ ap (prepend (c ∷ [])) next)

double_read :
    (str rest : List ℕ) (sq dq : Bool) (n : ℕ)
    → (measure str sq dq n).1 ≡ true
    → (dq ≡ true)
      × (copy_loop allow (λ c. c == double) false (str ++ double ∷ rest)
          ≡ some (str, false, double ∷ rest))
unfolding measure
double_read [] rest sq dq n h = (h, copy_stop double rest)
double_read (c ∷ r) rest sq dq n h =
    let other = not (is_marked c) && is_unprintable c in
    let (ok, next) =
      double_read r rest (sq && not (c == single || other)) (dq && not (c == double || other))
        (n + added c r) h in
    let (before, e) = allowed double dq c ok in
    (before, copy_step (λ k. k == double) c (r ++ double ∷ rest) e ∙ ap (prepend (c ∷ [])) next)

-- The text that has been made, with more behind it, read again.
abbrev pub read_again : Option (List ℕ) → List ℕ → Option (List ℕ × Bool × List ℕ)
read_again none rest = none
read_again (some t) rest = nasm_unquote (t ++ rest)

plain_read :
    (q : ℕ) (str rest : List ℕ)
    → ((t : List ℕ) → nasm_unquote (q ∷ t) ≡ copy_loop allow (λ c. c == q) false t)
    → copy_loop allow (λ c. c == q) false (str ++ q ∷ rest) ≡ some (str, false, q ∷ rest)
    → nasm_unquote (quoted q str ++ rest) ≡ some (str, false, q ∷ rest)
plain_read q str rest starts h =
    ap (λ l. nasm_unquote (q ∷ l)) (append_assoc str (q ∷ []) rest) ∙ starts (str ++ q ∷ rest) ∙ h

unquote_single :
    (t : List ℕ) → nasm_unquote (single ∷ t) ≡ copy_loop allow (λ c. c == single) false t
unfolding nasm_unquote nasm_unquote_anystr
unquote_single t = refl

unquote_double :
    (t : List ℕ) → nasm_unquote (double ∷ t) ≡ copy_loop allow (λ c. c == double) false t
unfolding nasm_unquote nasm_unquote_anystr
unquote_double t = refl

-- Every string of bytes is quoted to a text that `nasm_unquote` reads as that string, without an
-- error and up to the last quote of the text, whatever follows it.
pub nasm_unquote-nasm_quote :
    (str rest : List ℕ)
    → All (λ c. c < 256) str
    → (q : ℕ) × (read_again (nasm_quote str) rest ≡ some (str, false, q ∷ rest))
unfolding nasm_quote
nasm_unquote-nasm_quote str rest h = elim (Bool-cases (measure str true true 0).0) [
  | inl s ↦ (
    single,
    rw (s) (plain_read single str rest unquote_single (single_read str rest true true 0 s).1),
  )
  | inr s ↦ elim (Bool-cases (measure str true true 0).1) [
    | inl d ↦ (
      double,
      rw (s, d) (plain_read double str rest unquote_double (double_read str rest true true 0 d).1),
    )
    | inr d ↦ (back, rw (s, d) rw (asserted str) (back_read str rest h))
  ]
]
