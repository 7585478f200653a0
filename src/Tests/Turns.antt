-- ===== src/Tests/Turns.antt =====
-- A client and a cleaner thread taking turns on the small heap.
use log_heap_pmem.Base.{ℕ, ◌≡◌, refl, inr, arith, true, some, take, List, [], ◌∷◌, ok}
use log_heap_pmem.Base.Words.{add64, sub64}
use log_heap_pmem.Types.{offset_to_pointer, segment_of, write, set_used_space}
use log_heap_pmem.Glib.Assoc.{assoc}
use log_heap_pmem.Log.{
  log_entry_size, append_to_log, append_to_head, ensure_head, ensure_room, head_room, head_end,
  write_entry,
}
use log_heap_pmem.Heap.{
  Heap, add_to_hash_table, get_from_hash_table, palloc_with_id, pfree, update_data,
  hash_table_contains, remove_from_hash_table, release_space, mark_deleted, updated_entry,
  new_entry, store_entry,
}
use log_heap_pmem.Heap.Content.{read}
use log_heap_pmem.Heap.History.{free, effects, perform}
use log_heap_pmem.Consistency.{segment_count}
use log_heap_pmem.Cleaning.{Cursor, clean_entry, move_entry, make_room, copy_entry}
use log_heap_pmem.Cleaning.Client.{Kept}
use log_heap_pmem.Cleaning.Interleaved.{
  AtEntry, Interleaved, finished, called, cleaned, Interleaved-effects,
}
use log_heap_pmem.Cleaning.Renewed.{clean_entry-renewed}
use log_heap_pmem.Tests.Threads.{
  threads_heap, threads_memory, threads_lists, threads-IsLog, threads-IsCleanable, threads-Owns,
  first-Settled, start,
}

-- The object 1 was moved, then the object 2 is freed.
abbrev moved_heap : Heap assoc
moved_heap =
    add_to_hash_table assoc (record threads_heap { memory = copy_entry threads_memory start 152 }) 1
      12440

abbrev behind : Cursor
behind = record { cleaner_seg = 12416; cleaner_seg_pos = 35 }

abbrev last_heap : Heap assoc
last_heap = (perform assoc moved_heap (free 2)).0

first_moves : clean_entry assoc 5 threads_heap start 152 ≡ ok (moved_heap, behind)
unfolding clean_entry move_entry make_room copy_entry add_to_hash_table get_from_hash_table
    offset_to_pointer log_entry_size write set_used_space add64 sub64 assoc
first_moves = refl

first-AtEntry : AtEntry assoc 5 threads_heap start 152
unfolding segment_of segment_count
first-AtEntry = record {
  seg = 128;
  position = 0;
  place = refl;
  inside = refl;
  settled = first-Settled;
  lists = threads_lists;
  log = threads-IsLog;
  used = refl;
  enough = omega arith;
  supply = inr (omega arith);
}

turns : Interleaved assoc 5 threads_heap start (free 2 ∷ []) (0 ∷ []) last_heap behind
unfolding perform
turns = cleaned 152 first-AtEntry first_moves (called (free 2) tt tt finished)

turns_example :
    Kept assoc last_heap behind
    × ((j : ℕ)
        → read assoc last_heap j ≡ effects (free 2 ∷ []) (0 ∷ []) (read assoc threads_heap) j)
turns_example =
    Interleaved-effects assoc threads_lists threads-IsCleanable threads-Owns (λ z. omega (arith, z))
      turns

abbrev two_bytes : List ℕ
two_bytes = 6 ∷ 6 ∷ []

abbrev three_bytes : List ℕ
three_bytes = 3 ∷ 3 ∷ 3 ∷ []

-- The object 1 is updated, freed and given anew; its first entry is still in the used segment.
abbrev renewed : Heap assoc
renewed =
    (palloc_with_id assoc (pfree assoc (update_data assoc threads_heap true 1 two_bytes 2).0 1) true
      1 3 three_bytes).0

updates : (update_data assoc threads_heap true 1 two_bytes 2).1 ≡ 0
unfolding palloc_with_id pfree update_data hash_table_contains get_from_hash_table
    remove_from_hash_table offset_to_pointer release_space mark_deleted updated_entry new_entry
    store_entry append_to_log append_to_head ensure_head ensure_room head_room head_end
    log_entry_size write_entry write set_used_space segment_of add64 sub64 add_to_hash_table assoc
updates = refl

abbrev without_first : Heap assoc
without_first = pfree assoc (update_data assoc threads_heap true 1 two_bytes 2).0 1

renews : (palloc_with_id assoc without_first true 1 3 three_bytes).1 ≡ 0
unfolding palloc_with_id pfree update_data hash_table_contains get_from_hash_table
    remove_from_hash_table offset_to_pointer release_space mark_deleted updated_entry new_entry
    store_entry append_to_log append_to_head ensure_head ensure_room head_room head_end
    log_entry_size write_entry write set_used_space segment_of add64 sub64 add_to_hash_table assoc
renews = refl

first_present : assoc.contains threads_heap.hash_table 1 ≡ true
unfolding assoc
first_present = refl

old_data_example :
    (read assoc renewed 1 ≡ some (take 3 three_bytes))
    × ((q : Heap assoc) × (d : Cursor) × ((clean_entry assoc 5 renewed start 152 ≡ ok (q, d))
          × (read assoc q 1 ≡ read assoc threads_heap 1)))
unfolding assoc
old_data_example =
    clean_entry-renewed assoc threads_heap threads_lists threads-IsCleanable.heap 1 two_bytes 2
      (λ z. omega (arith, z)) (omega arith) (omega arith) first_present updates 3 three_bytes
      (omega arith) (omega arith) renews 5 start (omega arith) (omega arith)
