-- ===== src/Examples/Containers.antt =====
-- The theorems on the containers of nasmlib and on the synchronisation points, on concrete input.
use nasm.Prelude.{
  ℕ, ◌+◌, ◌-◌, ◌/◌, ◌^◌, ◌≤◌, ◌<◌, ◌≡◌, refl, false, [], ◌∷◌, ◌++◌, some, none, arith, ◌==◌,
  if◌then◌else◌,
}
use nasm.Word.{sar64}
use nasm.Nasmlib.Rbtree.{Link, null, rb_insert, rb_search, entries}
use nasm.Nasmlib.Rbtree.Order.{IsSorted, insert_sorted, rb_insert-entries, rb_insert-IsSorted}
use nasm.Nasmlib.Rbtree.Threads.{left, IsTree, rb_insert-IsTree}
use nasm.Nasmlib.Rbtree.Search.{floor_key, key_of, rb_search-floor_key}
use nasm.Nasmlib.Rbtree.Walk.{Stands, here, rb_next-Stands}
use nasm.Nasmlib.Raa.{absent, raa_read, raa_write}
use nasm.Nasmlib.Raa.Map.{raa_read-raa_write, raa_write-IsArray}
use nasm.Nasmlib.Saa.{saa_init, saa_fwrite, run}
use nasm.Nasmlib.Saa.Values.{leb128u, leb128s}
use nasm.Nasmlib.Saa.Leb128.{read_leb128u, read_leb128s, leb128u-read_leb128u, leb128s-read_leb128s}
use nasm.Nasmlib.Saa.Place.{saa_init-IsSaa}
use nasm.Nasmlib.Saa.Fwrite.{WroteAt, saa_fwrite-WroteAt}
use nasm.Nasmlib.Saa.Fread.{read_back, saa_fread-saa_fwrite}
use nasm.Disasm.Sync.{Syncs, init_sync, add_sync, next_sync}
use nasm.Disasm.Sync.Add.{Added, add_sync-Added}
use nasm.Disasm.Sync.Memory.{AddedFirst, add_all, add_sync_out_of_memory}
use nasm.Disasm.Sync.Points.{Next, next_sync-Next}

abbrev tree : Link
tree = rb_insert (rb_insert (rb_insert null 5 50) 3 30) 8 80

empty-IsSorted : IsSorted (entries null)
unfolding entries
empty-IsSorted = tt

tree-IsSorted : IsSorted (entries tree)
tree-IsSorted =
    rb_insert-IsSorted (rb_insert (rb_insert null 5 50) 3 30) 8 80
      (rb_insert-IsSorted (rb_insert null 5 50) 3 30 (rb_insert-IsSorted null 5 50 empty-IsSorted))

tree-IsTree : IsTree tree
tree-IsTree =
    rb_insert-IsTree (rb_insert (rb_insert null 5 50) 3 30) 8 80
      (rb_insert-IsTree (rb_insert null 5 50) 3 30 (rb_insert-IsTree null 5 50 refl))

tree-entries : entries tree ≡ (3, 30) ∷ (5, 50) ∷ (8, 80) ∷ []
unfolding rb_insert entries
tree-entries = refl

rb_insert-entries_example : entries (rb_insert tree 7 70) ≡ insert_sorted 7 70 (entries tree)
rb_insert-entries_example = rb_insert-entries tree 7 70 tree-IsSorted

rb_insert-IsTree_example : IsTree (rb_insert tree 7 70)
rb_insert-IsTree_example = rb_insert-IsTree tree 7 70 tree-IsTree

rb_search-floor_key_example : key_of (rb_search tree 7) ≡ floor_key none 7 (entries tree)
rb_search-floor_key_example = rb_search-floor_key tree 7 tree-IsSorted

rb_next-Stands_example : Stands none none tree (entries tree)
rb_next-Stands_example = rb_next-Stands tree tree left none none tree-IsTree here

leb128u-read_leb128u_example : read_leb128u (leb128u 16 624485 ++ (1 ∷ [])) ≡ some (624485, 1 ∷ [])
leb128u-read_leb128u_example = leb128u-read_leb128u 624485 (1 ∷ []) (omega arith)

-- The value -123456.
leb128s-read_leb128s_example :
    read_leb128s (leb128s 16 (sar64 (2 ^ 64 - 123456) 63) (2 ^ 64 - 123456) ++ [])
    ≡ some (2 ^ 64 - 123456, [])
leb128s-read_leb128s_example = leb128s-read_leb128s (2 ^ 64 - 123456) [] (omega arith)

-- Two writes far apart, the first of them into an empty array.
raa_read-raa_write_example :
    raa_read (raa_write (raa_write absent 7 70) 5000 1) 7
    ≡ (if 5000 == 7 then 1 else raa_read (raa_write absent 7 70) 7)
raa_read-raa_write_example =
    raa_read-raa_write (raa_write absent 7 70) 5000 7 1
      (raa_write-IsArray absent 7 70 tt (omega arith)) (omega arith) (omega arith)

saa_fwrite-WroteAt_example :
    WroteAt (saa_init 1) 70000 (λ i. 7) 3 (saa_fwrite (saa_init 1) 70000 (λ i. 7) 3)
saa_fwrite-WroteAt_example =
    saa_fwrite-WroteAt (saa_init 1) 70000 (λ i. 7) 3 (saa_init-IsSaa 1 (omega arith))

saa_fread-saa_fwrite_example :
    read_back (saa_fwrite (saa_init 1) 70000 (λ i. i + 1) 3) 70000 3 ≡ some (run (λ i. i + 1) 0 3)
saa_fread-saa_fwrite_example =
    saa_fread-saa_fwrite (saa_init 1) 70000 (λ i. i + 1) 3 (saa_init-IsSaa 1 (omega arith))

no_points : (k : ℕ) → 1 < k → k ≤ 0 → (init_sync.synx (k / 2)).pos ≤ (init_sync.synx k).pos
no_points k h h' = absurd (omega arith)

add_sync-Added_example :
    Added init_sync record { pos = 3; length_ = 2 } (add_sync false init_sync 3 2)
add_sync-Added_example = add_sync-Added false init_sync 3 2 no_points (omega arith)

one_point : Added init_sync record { pos = 9; length_ = 2 } (add_sync false init_sync 9 2)
one_point = add_sync-Added false init_sync 9 2 no_points (omega arith)

two_points :
    Added one_point.after record { pos = 3; length_ = 2 } (add_sync false one_point.after 3 2)
two_points =
    add_sync-Added false one_point.after 3 2 one_point.order
      (omega (arith, one_point.count, one_point.size))

next_sync-Next_example : Next two_points.after 6 (next_sync two_points.after 6)
next_sync-Next_example = next_sync-Next two_points.after 6 two_points.order

-- Two points, and room for one.
add_sync_out_of_memory_example :
    (t : Syncs) × (add_all
        (record { pos = 9; length_ = 2 } ∷ record { pos = 3; length_ = 2 } ∷ [])
        (record init_sync { max_synx = 1 })
      ≡ some t)
    × AddedFirst
        (record init_sync { max_synx = 1 })
        1
        (record { pos = 9; length_ = 2 } ∷ record { pos = 3; length_ = 2 } ∷ [])
        t
add_sync_out_of_memory_example =
    add_sync_out_of_memory (record { pos = 9; length_ = 2 } ∷ record { pos = 3; length_ = 2 } ∷ [])
      (record init_sync { max_synx = 1 }) no_points (omega arith)
