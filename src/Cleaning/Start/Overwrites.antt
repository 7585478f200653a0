-- ===== src/Cleaning/Start/Overwrites.antt =====
-- `clean` (project/cleaner.c): where a thread starts to write in a segment with an entry that was
-- updated.
use log_heap_pmem.Base.{ℕ, suc, ◌+◌, ◌≡◌, ◌≢◌, ◌<◌, ◌^◌, arith, ==_ne, ok, ap, ◌∙◌, lt→ltb, le→ltb}
use log_heap_pmem.Base.Words.{add64, as_int, as_int_small, add64_small}
use log_heap_pmem.Types.{Offset, write}
use log_heap_pmem.Glib.{GHashTable}
use log_heap_pmem.Log.{log_entry_size}
use log_heap_pmem.Heap.{Heap}
use log_heap_pmem.Recovery.{entry_at}
use log_heap_pmem.Cleaning.{Cursor, copy_entry}
use log_heap_pmem.Cleaning.Start.{CleanerInfo, take_over, start_cleaning}

module _ (glib : GHashTable) where
  open glib use {lookup}

  -- A thread takes over a cleaner segment after a regular termination. The first entry is not marked
  -- as deleted but no longer counts for the fill level, as `update_data` leaves it, and the entry of
  -- `id` lies behind it, of the same size, which is the fill level. Then the thread starts to write
  -- at the entry of `id`: the next entry that it copies replaces that entry.
  pub start_cleaning-overwrites :
      (fuel : ℕ) (p : Heap glib) (info : CleanerInfo) (id : ℕ)
      → info.segment ≢ 0
      → info.regular_termination ≢ 0
      → (p.memory.entry (entry_at info.segment 0)).to_delete ≡ 0
      → (p.memory.segment info.segment).used_space ≢ 0
      → (p.memory.segment info.segment).used_space < 2 ^ 31
      → log_entry_size (p.memory.entry (entry_at info.segment 0)).length
        ≡ (p.memory.segment info.segment).used_space
      → lookup p.hash_table id ≡ entry_at info.segment (p.memory.segment info.segment).used_space
      → (c : Cursor) × (start_cleaning glib (suc (suc fuel)) p info ≡ ok (p, c))
        × ((off : Offset)
            → (copy_entry p.memory c off).entry (lookup p.hash_table id) ≡ p.memory.entry off)
  unfolding start_cleaning take_over copy_entry write
  start_cleaning-overwrites fuel p info id some regular kept filled small size at =
      let used = (p.memory.segment info.segment).used_space in
      let none_freed : add64 used 0 ≡ used = add64_small used 0 (omega arith) ∙ omega arith in
      let position : as_int (0 + used) ≡ used = ap as_int (omega arith) ∙ as_int_small used small in
      (
        record { cleaner_seg = info.segment; cleaner_seg_pos = used },
        rw (
          ==_ne info.segment 0 some,
          ==_ne used 0 filled,
          ==_ne info.regular_termination 0 regular,
          kept,
          size,
          add64_small 0 used (omega arith),
          none_freed,
          lt→ltb 0 used (ground (arith, filled)),
          position,
          le→ltb used used (omega arith),
        ),
        λ off. rw at (ground arith),
      )
