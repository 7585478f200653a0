-- ===== src/Cleaning/Start.antt =====
-- project/cleaner.c, `init_cleaner` and the part of `clean` before its loop: the threads and where each
-- of them starts to write.
pub mod Threads
pub mod Overwrites
use log_heap_pmem.Base.{
  ℕ, zero, suc, ◌+◌, Bool, List, [], ◌∷◌, ltb, ◌==◌, ◌&&◌, not, Run, ok, out_of_fuel, ◌>>=◌,
  if◌then◌else◌,
}
use log_heap_pmem.Base.Words.{add64, sub64, as_int}
use log_heap_pmem.Types.{Offset, Memory, Segments, cleaner_thread_count, set_used_space}
use log_heap_pmem.Glib.{GHashTable}
use log_heap_pmem.Log.{log_entry_size}
use log_heap_pmem.Heap.{Heap, get_from_hash_table, mark_deleted}
use log_heap_pmem.Recovery.{entry_at}
use log_heap_pmem.Cleaning.{Cursor, await_cleaner_segment}

-- `cleaner_info_t`, without the heap
pub record CleanerInfo : Type 0 where
  pub segment : Offset
  pub regular_termination : ℕ

-- The segment so many places behind `p`, or NULL (0) if the list ends.
unfoldable pub skip_segments : ℕ → Segments → Offset → Offset
skip_segments zero segs p = p
skip_segments (suc i) segs p = if p == 0 then 0 else skip_segments i segs (segs p).next_segment

-- The entry is deleted and taken off the fill level, once more if it was deleted before.
unfoldable pub drop_entry : Memory → Offset → Offset → Memory
drop_entry m seg off =
    let m = mark_deleted m off in
    record m {
      segment =
          set_used_space m.segment seg
            (sub64 (m.segment seg).used_space (log_entry_size (m.entry off).length));
    }

module _ (glib : GHashTable) where
  open glib use {new}

  -- The threads from the `i`th on, up to the first one that cannot be created, on the heap that the
  -- ones before have left. `create` says which calls of `pthread_create` succeed, `run` what the threads
  -- do between the creation of the `i`th one and the next look at the heap. The heap, the threads and
  -- the result.
  unfoldable pub create_threads :
      ℕ
      → (ℕ → Bool)
      → (ℕ → Heap glib → Heap glib)
      → ℕ
      → ℕ
      → Heap glib
      → Heap glib × List CleanerInfo × ℕ
  create_threads zero create run regular i p = (p, [], 0)
  create_threads (suc n) create run regular i p =
      let info : CleanerInfo = record {
        segment = skip_segments i p.memory.segment p.memory.log.cleaner.first;
        regular_termination = regular;
      } in
      let (q, infos, failed) = create_threads n create run regular (i + 1) (run i p) in
      if create i then (q, info ∷ infos, failed) else (p, [], 1)

  unfoldable pub init_cleaner :
      (ℕ → Bool) → (ℕ → Heap glib → Heap glib) → Heap glib → ℕ → Heap glib × List CleanerInfo × ℕ
  init_cleaner create run p regular =
      create_threads cleaner_thread_count create run regular 0
        (record p { currently_cleaned_segments = new })

  -- The loop over the entries of a cleaner segment that is taken over. After a crash the entries that
  -- the table does not point to are dropped.
  unfoldable pub take_over : ℕ → Heap glib → CleanerInfo → ℕ → ℕ → Run (Heap glib × ℕ)
  take_over zero p info pos freed = out_of_fuel
  take_over (suc fuel) p info pos freed =
      let seg = info.segment in
      let off = entry_at seg pos in
      let size = log_entry_size (p.memory.entry off).length in
      let stale =
        info.regular_termination == 0
        && not (get_from_hash_table glib p (p.memory.entry off).id == off) in
      let m = if stale then drop_entry p.memory seg off else p.memory in
      let freed' = if (m.entry off).to_delete == 0 then freed else as_int (add64 freed size) in
      let rest = take_over fuel (record p { memory = m }) info (as_int (add64 pos size)) freed' in
      if ltb pos (add64 (p.memory.segment seg).used_space freed) then rest else ok (p, pos)

  -- Where a thread starts to write: behind the entries of its segment, or in a new segment.
  unfoldable pub start_cleaning : ℕ → Heap glib → CleanerInfo → Run (Heap glib × Cursor)
  start_cleaning fuel p info =
      let seg = info.segment in
      let taken = do
        (p, pos) ← take_over fuel p info 0 0
        ok (p, record { cleaner_seg = seg; cleaner_seg_pos = pos })
      in let fetched = do
        (m, seg) ← await_cleaner_segment fuel p.memory
        ok (record p { memory = m }, record { cleaner_seg = seg; cleaner_seg_pos = 0 })
        in if seg == 0
          then fetched
          else if (p.memory.segment seg).used_space == 0
          then ok (p, record { cleaner_seg = seg; cleaner_seg_pos = 0 })
          else taken
