-- ===== src/Quote/Unquote/Reads.antt =====
-- Rounds of the loop of nasm_unquote_anystr in asm/quote.c, one after the other.
use nasm.Prelude.{
  ℕ, suc, ◌+◌, ◌≡◌, refl, sym, ap, ◌∙◌, Bool, false, List, [], ◌++◌, Option, none, some,
  append_assoc, arith,
}
use nasm.Quote.{back}
use nasm.Quote.Unquote.{UnqState, round_of, prepend, unquote_loop}

-- No control character is forbidden.
abbrev pub allow : ℕ → Bool
allow _ = false

abbrev pub loop : ℕ → UnqState → List ℕ → Option (List ℕ × Bool × List ℕ)
unfolding unquote_loop
loop n st p = unquote_loop allow back n false st p

pub prepend_nil : (r : Option (List ℕ × Bool × List ℕ)) → prepend [] r ≡ r
prepend_nil none = refl
prepend_nil (some (o, b, e)) = refl

prepend_append :
    (xs ys : List ℕ) (r : Option (List ℕ × Bool × List ℕ))
    → prepend xs (prepend ys r) ≡ prepend (xs ++ ys) r
prepend_append xs ys none = refl
prepend_append xs ys (some (o, b, e)) = ap (λ l. some (l, b, e)) (sym (append_assoc xs ys o))

-- From a state and a place on, some rounds write bytes and come to another state and place.
abbrev pub Reads : ℕ → UnqState → List ℕ → List ℕ → UnqState → List ℕ → Type 0
Reads cost st p bytes st' p' = (n : ℕ) → loop (cost + n) st p ≡ prepend bytes (loop n st' p')

pub then_read :
    (a b : ℕ) (st st' st'' : UnqState) (p p' p'' xs ys : List ℕ)
    → Reads a st p xs st' p'
    → Reads b st' p' ys st'' p''
    → Reads (a + b) st p (xs ++ ys) st'' p''
then_read a b st st' st'' p p' p'' xs ys f g n =
    let sum : a + b + n ≡ a + (b + n) = omega arith in
    ap (λ m. loop m st p) sum
    ∙ f (b + n)
    ∙ ap (prepend xs) (g n)
    ∙ prepend_append xs ys (loop n st'' p'')

-- One round.
pub one_round :
    (st : UnqState) (p bytes : List ℕ) (st' : UnqState) (p' : List ℕ)
    → round_of allow back false st p
      ≡ some record { written = record { bytes = bytes; bad = false }; state = st'; left_over = p' }
    → Reads 1 st p bytes st' p'
unfolding unquote_loop
one_round st p bytes st' p' h n =
    let one : 1 + n ≡ suc n = omega arith in ap (λ m. loop m st p) one ∙ step n
  where
    step : (n : ℕ) → loop (suc n) st p ≡ prepend bytes (loop n st' p')
    step n = rw (unquote_loop, h) refl
