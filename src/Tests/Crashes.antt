-- ===== src/Tests/Crashes.antt =====
-- The theorems on crashes and on freed objects, applied to the small heap.
use log_heap_pmem.Base.{
  ℕ, ◌≡◌, ◌⊎◌, refl, inr, arith, true, false, List, [], ◌∷◌, ◌==◌, if◌then◌else◌, ok, fault, ◌>>=◌,
}
use log_heap_pmem.Base.Words.{add64, sub64, as_int}
use log_heap_pmem.Types.{
  Memory, LogEntry, segment_of, write, offset_to_pointer, attach, drop_first, set_next,
  set_used_space,
}
use log_heap_pmem.Glib.Assoc.{assoc}
use log_heap_pmem.Log.{
  append_to_log, append_to_head, ensure_head, ensure_room, head_room, head_end, log_entry_size,
  write_entry, retire_head,
}
use log_heap_pmem.Store.{SameLive}
use log_heap_pmem.Heap.{
  mark_deleted, pfree, update_data, get_from_hash_table, release_space, updated_entry, store_entry,
  add_to_hash_table,
}
use log_heap_pmem.Heap.Content.{Live}
use log_heap_pmem.Consistency.{check_consistency, segment_count}
use log_heap_pmem.Recovery.{
  reconstruct_hash_table, scan_segments, scan_used, note_entry, scan_head_segment, scan_head,
  scan_cleaners,
}
use log_heap_pmem.Cleaning.{clean_entries}
use log_heap_pmem.Cleaning.Freed.{clean_entries-freed}
use log_heap_pmem.Flush.{
  copying, appending, marked, linked, copy_to_head, link_last, switch_head, cut_head,
  reset_position,
}
use log_heap_pmem.Flush.Complete.{append_to_log-recovered}
use log_heap_pmem.Flush.Client.{Recovers, pfree-crash}
use log_heap_pmem.Flush.Updated.{update_data-recovered}
use log_heap_pmem.Flush.Exchange.{append_head-crash}
use log_heap_pmem.Flush.Stale.{unreset, append_head-stale}
use log_heap_pmem.Tests.{
  no_entry, small_memory, small_lists, small_table, small_heap, small-IsLog, small-IsHeap,
  object_entry,
}

abbrev third_entry : LogEntry
third_entry = object_entry 3 (1 ∷ 2 ∷ 3 ∷ [])

abbrev torn : Memory
torn = copy_to_head small_memory (record third_entry { length = 0 })

append_crash_example :
    SameLive (Live assoc small_heap) small_memory torn
    × ((reconstruct_hash_table assoc 2 3 torn assoc.new
          ≡ reconstruct_hash_table assoc 2 3 small_memory assoc.new)
        ⊎ ((torn ≡ (append_to_log small_memory third_entry).0)
            × (torn.entry (head_end small_memory) ≡ third_entry)
            × (reconstruct_hash_table assoc 2 3 torn assoc.new ≡ (
                reconstruct_hash_table assoc 2 3 small_memory assoc.new >>= λ t.
                note_entry assoc torn t (head_end small_memory)))))
unfolding log_entry_size add64
append_crash_example =
    append_to_log-recovered small_memory small_lists (Live assoc small_heap) small-IsHeap.store
      (ground arith) assoc 2 3 ((128, 152 ∷ []) ∷ []) (4248 ∷ [])
      (refl, (ground arith), (refl, (omega arith), (ground arith), (omega arith), inr refl), refl)
      ((ground arith), (refl, (omega arith), (omega arith), (omega arith))) refl refl
      ((omega arith), tt) (omega arith) (omega arith) third_entry (omega arith) torn
      (copying (record third_entry { length = 0 }))

exchange_crash_example :
    check_consistency 9 (record small_heap { memory = link_last small_memory })
    ≡ ok (record small_heap { memory = link_last small_memory; consistent = 0 })
unfolding segment_count sub64
exchange_crash_example =
    append_head-crash small_heap small_lists small-IsLog (ground arith) 8320 [] refl 9 (omega arith)
      (omega arith) refl (link_last small_memory) linked

-- An object that was freed lies in the free segment.
abbrev stale_memory : Memory
stale_memory = record small_memory {
  entry = λ a. if a == 8344 then object_entry 9 (5 ∷ 5 ∷ 5 ∷ []) else small_memory.entry a;
}

stale_entry_example :
    ((t : assoc.Table) × (reconstruct_hash_table assoc 3 2 (unreset stale_memory) assoc.new ≡ ok t)
      × (assoc.contains t 9 ≡ true))
    × ((t : assoc.Table) × (reconstruct_hash_table assoc 3 2
            (reset_position (unreset stale_memory))
            assoc.new
          ≡ ok t)
        × (assoc.contains t 9 ≡ false))
unfolding log_entry_size add64 cut_head switch_head retire_head attach set_next write
    offset_to_pointer drop_first
stale_entry_example =
    append_head-stale assoc 3 2 stale_memory 9 ((128, 152 ∷ []) ∷ (4224, 4248 ∷ []) ∷ [])
      (8344 ∷ []) (refl, refl) (omega arith) (λ o among v. ground (arith, among, v))
      (
        refl,
        (ground arith),
        (refl, (omega arith), (ground arith), (omega arith), inr refl),
        (
          refl,
          (ground arith),
          (refl, (omega arith), (ground arith), (omega arith), inr refl),
          refl,
        ),
      )
      ((ground arith), (refl, (omega arith), (omega arith), (omega arith))) refl
      ((omega arith), ((omega arith), tt)) (omega arith) (omega arith)

abbrev two_bytes : List ℕ
two_bytes = 6 ∷ 6 ∷ []

first_present : assoc.contains small_table 1 ≡ true
unfolding assoc
first_present = refl

update_done : (update_data assoc small_heap true 1 two_bytes 2).1 ≡ 0
unfolding update_data get_from_hash_table offset_to_pointer release_space updated_entry store_entry
    append_to_log append_to_head ensure_head ensure_room head_room head_end log_entry_size
    write_entry write set_used_space segment_of add64 sub64 add_to_hash_table assoc
update_done = refl

freed_example :
    clean_entries assoc 3 9
      (pfree assoc (update_data assoc small_heap true 1 two_bytes 2).0 1)
      (record { cleaner_seg = 12416; cleaner_seg_pos = 0 })
      128
      0
    ≡ fault
unfolding assoc
freed_example =
    clean_entries-freed assoc small_heap small_lists small-IsHeap 1 two_bytes 2 (ground arith)
      (omega arith) (omega arith) first_present update_done 2 9
      (record { cleaner_seg = 12416; cleaner_seg_pos = 0 }) 128 0 refl (omega arith)

-- A crash in the copy of a new version of the object 1.
abbrev torn_update : Memory
torn_update = copy_to_head (release_space small_memory 152) no_entry

recovered : reconstruct_hash_table assoc 2 3 small_memory assoc.new ≡ ok small_table
unfolding reconstruct_hash_table scan_segments scan_used note_entry scan_head_segment scan_head
    scan_cleaners offset_to_pointer log_entry_size add64 as_int assoc
recovered = refl

update_crash_example :
    SameLive (Live assoc small_heap) small_memory torn_update
    × ((reconstruct_hash_table assoc 2 3 torn_update assoc.new ≡ ok small_table)
        ⊎ ((torn_update ≡ (update_data assoc small_heap true 1 two_bytes 2).0.memory)
            × (torn_update.entry (head_end small_memory)
                ≡ updated_entry (small_memory.entry 152) 2 two_bytes)
            × (reconstruct_hash_table assoc 2 3 torn_update assoc.new
                ≡ ok (assoc.insert small_table 1 (head_end small_memory)))))
unfolding log_entry_size add64 assoc
update_crash_example =
    update_data-recovered assoc small_heap small_lists small-IsHeap (ground arith) 2 3
      ((128, 152 ∷ []) ∷ []) (4248 ∷ [])
      (refl, (ground arith), (refl, (omega arith), (ground arith), (omega arith), inr refl), refl)
      ((ground arith), (refl, (omega arith), (omega arith), (omega arith))) refl refl
      ((omega arith), tt) (omega arith) (omega arith) 1 2 two_bytes small_table torn_update
      (ground arith) (omega arith) (omega arith) (omega arith) first_present (omega arith) recovered
      first_present refl (appending (copying no_entry))

free_crash_example :
    (mark_deleted small_memory 152 ≡ small_memory)
    ⊎ ((t : assoc.Table) × Recovers assoc 2 2 small_memory 152
          (152 ∷ 4248 ∷ [])
          (mark_deleted small_memory 152)
          t
        × Recovers assoc 2 2 small_memory 152 (152 ∷ 4248 ∷ []) (pfree assoc small_heap 1).memory t)
unfolding log_entry_size add64 assoc
free_crash_example =
    pfree-crash assoc 2 2 small_heap 1 ((128, 152 ∷ []) ∷ []) (4248 ∷ []) (ground arith)
      (refl, (ground arith), (refl, (omega arith), (ground arith), (omega arith), inr refl), refl)
      ((ground arith), (refl, (omega arith), (omega arith), (omega arith))) refl ((omega arith), tt)
      (omega arith) (omega arith) (mark_deleted small_memory 152) marked
