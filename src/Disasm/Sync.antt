-- ===== src/Disasm/Sync.antt =====
-- disasm/sync.c: the synchronisation points of the disassembler, a heap with the least position first.
--
-- The array is a function from its indices, the first of which is 1. Whether `realloc` finds memory is
-- an argument. When it does, the code does not take the new array, so that what follows stores past
-- the end of an array that is freed: none.
pub mod Heap
pub mod Up
pub mod Lower
pub mod Down
pub mod Add
pub mod Points
pub mod Memory
use nasm.Prelude.{
  ℕ, zero, suc, ◌+◌, ◌-◌, ◌*◌, ◌/◌, ◌%◌, ◌^◌, Bool, true, false, not, ◌&&◌, ◌||◌, Option, none,
  some, ltb, leb, ◌==◌, if◌then◌else◌,
}

pub record Sync : Type 0 where
  pub pos : ℕ
  pub length_ : ℕ

pub record Syncs : Type 0 where
  pub synx : ℕ → Sync
  pub max_synx : ℕ
  pub nsynx : ℕ
  pub synx_oom : Bool

abbrev pub initial_chunk : ℕ
initial_chunk = 2 ^ 12

abbrev pub init_sync : Syncs
init_sync = record {
  synx = λ _. record { pos = 0; length_ = 0 };
  max_synx = initial_chunk;
  nsynx = 0;
  synx_oom = false;
}

abbrev pub swap_sync : (ℕ → Sync) → ℕ → ℕ → ℕ → Sync
swap_sync a dst src k = if k == dst then a src else if k == src then a dst else a k

-- The loop of `add_sync`, of `n` rounds at most.
unfoldable pub up : ℕ → (ℕ → Sync) → ℕ → ℕ → Sync
up zero a i = a
up (suc n) a i =
    let swapped = if ltb (a i).pos (a (i / 2)).pos then swap_sync a (i / 2) i else a in
    let rest = up n swapped (i / 2) in if ltb 1 i then rest else a

abbrev pub stored : (ℕ → Sync) → ℕ → Sync → ℕ → Sync
stored a n p k = if k == n then p else a k

-- A point stored after the last one, and moved up.
abbrev pub push : Syncs → ℕ → ℕ → Syncs
unfolding up
push s pos len =
    let n = s.nsynx + 1 in
    record s { nsynx = n; synx = up n (stored s.synx n record { pos = pos; length_ = len }) n }

unfoldable pub add_sync : Bool → Syncs → ℕ → ℕ → Option Syncs
unfolding push
add_sync realloc s pos len =
    if leb s.max_synx s.nsynx
    then (if s.synx_oom || (ltb (s.max_synx * 2 % 2 ^ 64) s.max_synx || not realloc)
        then some (record s { synx_oom = true })
        else none)
    else some (push s pos len)

-- The child that takes the place of `i`, when there is one.
abbrev pub lower : (ℕ → Sync) → ℕ → ℕ → Option ℕ
lower a n i =
    let j = i * 2 in
    if ltb n j
    then none
    else if ltb (a j).pos (a i).pos && (ltb n (j + 1) || ltb (a j).pos (a (j + 1)).pos)
    then some j
    else if leb (j + 1) n && ltb (a (j + 1)).pos (a i).pos
    then some (j + 1)
    else none

-- The inner loop of `next_sync`, of `m` rounds at most.
unfoldable pub down : ℕ → (ℕ → Sync) → ℕ → ℕ → ℕ → Sync
down zero a n i = a
down (suc m) a n i = elim (lower a n i) [ none ↦ a | some j ↦ down m (swap_sync a j i) n j ]

abbrev pub is_passed : ℕ → Sync → Bool
is_passed position s = leb ((s.pos + s.length_) % 2 ^ 64) position

-- The first point is dropped: the last one takes its place, and is moved down.
unfoldable pub drop_first : (ℕ → Sync) → ℕ → ℕ → Sync
unfolding down
drop_first a n = down n (swap_sync a n 1) (n - 1) 1

-- The outer loop, over the number of points: the array and the number that are left.
unfoldable pub drop_passed : (ℕ → Sync) → ℕ → ℕ → (ℕ → Sync) × ℕ
unfolding drop_first
drop_passed a zero position = (a, 0)
drop_passed a (suc n) position =
    let rest = drop_passed (drop_first a (suc n)) n position in
    if is_passed position (a 1) then rest else (a, suc n)

abbrev pub first_pos : (ℕ → Sync) → ℕ → ℕ × ℕ
first_pos a zero = (0, 0)
first_pos a (suc n) = ((a 1).pos, (a 1).length_)

-- The position, the length, and the points after it.
unfoldable pub next_sync : Syncs → ℕ → (ℕ × ℕ) × Syncs
unfolding drop_passed
next_sync s position =
    let (a, n) = drop_passed s.synx s.nsynx position in
    (first_pos a n, record s { synx = a; nsynx = n })
