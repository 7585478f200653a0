-- ===== src/Tests/Examples.antt =====
-- The theorems applied to the small heap and to small pools.
use log_heap_pmem.Base.{
  ℕ, ◌≡◌, ◌≢◌, refl, inr, arith, true, false, List, [], ◌∷◌, ◌==◌, if◌then◌else◌, ok, has,
}
use log_heap_pmem.Types.{set_used_space, segment_of, write, offset_to_pointer, Memory}
use log_heap_pmem.Glib.Assoc.{assoc}
use log_heap_pmem.Id.{Finds, gen_id-IsNextId}
use log_heap_pmem.Log.{
  log_entry_size, append_to_log, append_head_to_used_segments_and_get_new_head_segment,
}
use log_heap_pmem.Log.Lists.{Lists, exchange, Matches}
use log_heap_pmem.Log.Head.{append_head-exchange}
use log_heap_pmem.Store.{IsStore, Outcome}
use log_heap_pmem.Store.Append.{append_to_log-Outcome}
use log_heap_pmem.Heap.{
  get_from_hash_table, remove_from_hash_table, release_space, mark_deleted, Heap, palloc,
  update_data, pfree,
}
use log_heap_pmem.Heap.Content.{IsHeap, Live, read, delete}
use log_heap_pmem.Heap.Alloc.{Allocated, palloc-Allocated}
use log_heap_pmem.Heap.Update.{Updated, update_data-Updated}
use log_heap_pmem.Heap.Free.{pfree-content}
use log_heap_pmem.Heap.History.{Call, set, update, free, effects, perform_all, perform_all-effects}
use log_heap_pmem.Init.{init_log}
use log_heap_pmem.Init.Lists.{fresh_lists, spare_segments, init_log-IsStore}
use log_heap_pmem.Init.Consistent.{init_log-consistent}
use log_heap_pmem.Base.Words.{sub64, add64}
use log_heap_pmem.Consistency.{segment_count, check_consistency, check_consistency-count}
use log_heap_pmem.Recovery.{reconstruct_hash_table}
use log_heap_pmem.Recovery.Notes.{entry_of}
use log_heap_pmem.Recovery.Newest.{IsNewest}
use log_heap_pmem.Recovery.Freed.{pfree-reconstruct}
use log_heap_pmem.Recovery.Rebuild.{reconstruct-IsNewest}
use log_heap_pmem.Recovery.Diverges.{reconstruct-ne-ok}
use log_heap_pmem.Tests.{
  small_memory, small_lists, small_table, small_heap, small-IsLog, small-IsHeap, object_entry,
  no_entry, cleaning_memory,
}

abbrev new_bytes : List ℕ
new_bytes = 1 ∷ 2 ∷ 3 ∷ 4 ∷ 5 ∷ []

abbrev inconsistent_heap : Heap assoc
inconsistent_heap = record small_heap { consistent = 0 }

abbrev some_calls : List Call
some_calls = update 1 5 new_bytes ∷ free 2 ∷ set 9 4 new_bytes ∷ []

one_present : assoc.contains small_table 1 ≡ true
unfolding assoc
one_present = refl

three_absent : assoc.contains small_table 3 ≡ false
unfolding assoc
three_absent = refl

seven_absent : assoc.contains small_table 7 ≡ false
unfolding assoc
seven_absent = refl

palloc_example :
    (r : Heap assoc × ℕ) × (palloc assoc 3 small_heap true 5 new_bytes ≡ ok r)
    × Allocated assoc small_heap small_lists new_bytes r
palloc_example =
    palloc-Allocated assoc small_heap small_lists small-IsHeap 3 5 new_bytes 3 (ground arith)
      (omega arith) (omega arith) (omega arith) (omega arith) three_absent (omega arith)
      (omega arith)

update_data_example :
    Updated assoc small_heap small_lists 1 new_bytes
      (update_data assoc small_heap true 1 new_bytes 5)
update_data_example =
    update_data-Updated assoc small_heap small_lists small-IsHeap 1 new_bytes 5 (ground arith)
      (omega arith) (omega arith) one_present

pfree_example :
    IsHeap assoc (pfree assoc small_heap 1) small_lists
    × ((j : ℕ) → read assoc (pfree assoc small_heap 1) j ≡ delete (read assoc small_heap) 1 j)
pfree_example = pfree-content assoc small_heap small_lists small-IsHeap 1

history_example :
    (ls : Lists) × IsHeap assoc (perform_all assoc small_heap some_calls).0 ls
    × ((j : ℕ)
        → read assoc (perform_all assoc small_heap some_calls).0 j
          ≡ effects some_calls
              (perform_all assoc small_heap some_calls).1
              (read assoc small_heap)
              j)
history_example =
    perform_all-effects assoc some_calls small_heap small_lists small-IsHeap (ground arith)
      ((omega arith), (tt, ((omega arith), tt)))

append_to_log_example :
    Outcome small_memory small_lists
      (Live assoc small_heap)
      (object_entry 3 new_bytes)
      (append_to_log small_memory (object_entry 3 new_bytes))
append_to_log_example =
    append_to_log-Outcome small_memory small_lists (Live assoc small_heap) small-IsHeap.store
      (object_entry 3 new_bytes) (omega arith)

append_head_example :
    Matches
      (append_head_to_used_segments_and_get_new_head_segment small_memory)
      (exchange small_lists)
append_head_example = append_head-exchange small_memory small_lists small-IsLog

gen_id_example : Finds (λ j. j == 3) 2 3 4
gen_id_example =
    gen_id-IsNextId (λ j. j == 3) 2 3 4 (omega arith) (omega arith) refl (omega arith) (omega arith)

init_log_example :
    (m : Memory) × (init_log 6 20480 small_memory ≡ ok m)
    × IsStore m (fresh_lists (spare_segments 20480)) (λ _. ⊥)
init_log_example = init_log-IsStore small_memory 6 20480 (omega arith) (omega arith) (omega arith)

consistent_example :
    (m : Memory) × (init_log 6 20500 small_memory ≡ ok m)
    × (check_consistency 6 (record small_heap { memory = m; size = 20500 })
        ≡ ok (record small_heap { memory = m; size = 20500; consistent = 0 }))
consistent_example =
    init_log-consistent (record small_heap { size = 20500 }) 6 (omega arith) (omega arith)
      (omega arith)

check_consistency_example : check_consistency 5 inconsistent_heap ≡ ok small_heap
unfolding segment_count sub64
check_consistency_example =
    check_consistency-count inconsistent_heap small_lists small-IsLog 5 (omega arith) (omega arith)

reconstruct_example :
    (t : assoc.Table) × (reconstruct_hash_table assoc 2 2 small_memory assoc.new ≡ ok t)
    × ((id : ℕ) → IsNewest small_memory id (λ o. has o (152 ∷ 4248 ∷ [])) (entry_of assoc t id))
unfolding log_entry_size add64
reconstruct_example =
    reconstruct-IsNewest assoc 2 2 small_memory ((128, 152 ∷ []) ∷ []) (4248 ∷ [])
      (refl, (ground arith), (refl, (omega arith), (ground arith), (omega arith), inr refl), refl)
      ((ground arith), (refl, (omega arith), (omega arith), (omega arith))) refl ((omega arith), tt)
      (omega arith) (omega arith)

diverges_example : reconstruct_hash_table assoc 9 9 cleaning_memory assoc.new ≢ ok small_table
diverges_example = reconstruct-ne-ok assoc 9 9 cleaning_memory assoc.new small_table (ground arith)

-- The object 2 was updated: its first version is in the used segment.
abbrev updated_heap : Heap assoc
updated_heap = record small_heap {
  memory = record small_memory {
    entry = λ a.
        if a == 152
        then object_entry 2 new_bytes
        else (if a == 4248 then record (object_entry 2 new_bytes) { version = 2 } else no_entry);
  };
  hash_table = assoc.insert assoc.new 2 4248;
}

resurrection_example :
    (t : assoc.Table) × (reconstruct_hash_table assoc 2 2
        (pfree assoc updated_heap 2).memory
        assoc.new
      ≡ ok t)
    × (assoc.contains t 2 ≡ true)
unfolding assoc log_entry_size add64 pfree get_from_hash_table offset_to_pointer
    remove_from_hash_table release_space mark_deleted write set_used_space segment_of
resurrection_example =
    pfree-reconstruct assoc 2 2 updated_heap 2 152 ((128, 152 ∷ []) ∷ []) (4248 ∷ []) (ground arith)
      (refl, refl) refl
      (refl, (ground arith), (refl, (omega arith), (ground arith), (omega arith), inr refl), refl)
      ((ground arith), (refl, (omega arith), (omega arith), (omega arith))) refl ((omega arith), tt)
      (omega arith) (omega arith)
