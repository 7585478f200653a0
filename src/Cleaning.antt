-- ===== src/Cleaning.antt =====
-- project/cleaner.c, `clean`: a cleaner thread copies the entries of a used segment that are still
-- current into its own segment and gives the used one back. Each function is one thread's run between
-- two steps of another; `sleep` and the cancellation points are not in the model.
pub mod Invariant
pub mod Room
pub mod Exchange
pub mod Copy
pub mod Moved
pub mod Entry
pub mod Entries
pub mod Segment
pub mod Content
pub mod Progress
pub mod Pass
pub mod Start
pub mod Marks
pub mod Exclusion
pub mod Overlap
pub mod Freed
pub mod Client
pub mod Interleaved
pub mod Unsettled
pub mod Renewed
use log_heap_pmem.Base.{
  ℕ, zero, suc, ◌-◌, Bool, true, false, ltb, leb, ◌==◌, none, some, Run, ok, fault, out_of_fuel,
  ◌>>=◌, if◌then◌else◌,
}
use log_heap_pmem.Base.Words.{add64, sub64, as_int}
use log_heap_pmem.Types.{
  Offset, Memory, segment_size, sizeof_segment, offset_to_pointer, write, set_used_space,
}
use log_heap_pmem.Glib.{GHashTable}
use log_heap_pmem.Log.{log_entry_size}
use log_heap_pmem.Heap.{Heap, add_to_hash_table, get_from_hash_table}
use log_heap_pmem.Recovery.{entry_at, scan_limit}
use log_heap_pmem.Cleaner.{
  get_new_cleaner_segment, append_cleaner_segment_to_used_segments,
  append_cleaned_segment_to_free_segments, to_clean,
}

-- `cleaner_seg` and `cleaner_seg_pos`
pub record Cursor : Type 0 where
  pub cleaner_seg : Offset
  pub cleaner_seg_pos : ℕ

-- `while(!(cleaner_seg = get_new_cleaner_segment(pmem)))`
unfoldable pub await_cleaner_segment : ℕ → Memory → Run (Memory × Offset)
await_cleaner_segment zero m = out_of_fuel
await_cleaner_segment (suc fuel) m =
    let (m, seg) = get_new_cleaner_segment m in
    let rest = await_cleaner_segment fuel m in if seg == 0 then rest else ok (m, seg)

-- A full cleaner segment becomes a used one, and a new one is fetched.
unfoldable pub make_room : ℕ → Memory → Cursor → ℕ → Run (Memory × Cursor)
make_room fuel m c size =
    let exchanged = do
      m ← append_cleaner_segment_to_used_segments fuel m (m.segment c.cleaner_seg).id
      (m, seg) ← await_cleaner_segment fuel m
      ok (m, record { cleaner_seg = seg; cleaner_seg_pos = 0 })
    in if ltb (sub64 (segment_size - sizeof_segment) c.cleaner_seg_pos) size
      then exchanged
      else ok (m, c)

-- The entry at `off` is copied behind the cursor.
unfoldable pub copy_entry : Memory → Cursor → Offset → Memory
unfolding write
copy_entry m c off =
    let seg = c.cleaner_seg in
    let size = log_entry_size (m.entry off).length in
    record m {
      entry = write m.entry (entry_at seg c.cleaner_seg_pos) (m.entry off);
      segment = set_used_space m.segment seg (add64 (m.segment seg).used_space size);
    }

module _ (glib : GHashTable) where
  open glib use {Table, insert, remove, contains}

  -- A current entry is copied, and the table points to the copy.
  unfoldable pub move_entry : ℕ → Heap glib → Cursor → Offset → Run (Heap glib × Cursor)
  move_entry fuel p c off =
      let e = p.memory.entry off in
      let size = log_entry_size e.length in
      do
        (m, c) ← make_room fuel p.memory c size
        let copied = record p { memory = copy_entry m c off }
        ok (
          add_to_hash_table glib copied e.id (entry_at c.cleaner_seg c.cleaner_seg_pos),
          record c { cleaner_seg_pos = add64 c.cleaner_seg_pos size },
        )

  -- An entry is current unless it is deleted or older than the one in the table. Without one in the
  -- table a NULL is followed.
  unfoldable pub clean_entry : ℕ → Heap glib → Cursor → Offset → Run (Heap glib × Cursor)
  clean_entry fuel p c off =
      let e = p.memory.entry off in
      if e.to_delete == 0
      then elim (offset_to_pointer (get_from_hash_table glib p e.id)) [
        | none ↦ fault
        | some current ↦
            if leb (p.memory.entry current).version e.version
            then move_entry fuel p c off
            else ok (p, c)
      ]
      else ok (p, c)

  -- The loop over the entries of the segment, up to a zero length or the segment's end.
  unfoldable pub clean_entries : ℕ → ℕ → Heap glib → Cursor → Offset → ℕ → Run (Heap glib × Cursor)
  clean_entries zero fuel p c seg pos = out_of_fuel
  clean_entries (suc steps) fuel p c seg pos =
      let off = entry_at seg pos in
      let length = (p.memory.entry off).length in
      let next = as_int (add64 pos (log_entry_size length)) in
      let cleaned = do (p, c) ← clean_entry fuel p c off; clean_entries steps fuel p c seg next
      in if ltb pos scan_limit then if length == 0 then ok (p, c) else cleaned else ok (p, c)

  unfoldable pub test_and_set_curr_cleaned : Heap glib → Offset → Heap glib × Bool
  test_and_set_curr_cleaned p seg =
      let id = (p.memory.segment seg).id in
      if contains p.currently_cleaned_segments id then (p, false) else (
        record p { currently_cleaned_segments = insert p.currently_cleaned_segments id id },
        true,
      )

  unfoldable pub unset_curr_cleaned : Heap glib → Offset → Heap glib
  unset_curr_cleaned p seg = record p {
    currently_cleaned_segments = remove p.currently_cleaned_segments (p.memory.segment seg).id;
  }

  -- One used segment is cleaned and given back. The result is the segment behind it, read before.
  unfoldable pub clean_segment :
      ℕ → ℕ → Heap glib → Cursor → Offset → Run ((Heap glib × Cursor) × Offset)
  clean_segment steps fuel p c seg = do
    (p, c) ←
        if (p.memory.segment seg).used_space == 0
        then ok (p, c)
        else clean_entries steps fuel p c seg 0
    let next = (p.memory.segment seg).next_segment
    m ← append_cleaned_segment_to_free_segments fuel p.memory (p.memory.segment seg).id
    ok ((unset_curr_cleaned (record p { memory = m }) seg, c), next)

  -- One time through the used segments, from `seg` on.
  unfoldable pub clean_segments : ℕ → ℕ → ℕ → Heap glib → Cursor → Offset → Run (Heap glib × Cursor)
  clean_segments zero steps fuel p c seg = out_of_fuel
  clean_segments (suc rounds) steps fuel p c seg =
      let (claimed, free) = test_and_set_curr_cleaned p seg in
      let skip = λ (p : Heap glib).
        clean_segments rounds steps fuel p c (p.memory.segment seg).next_segment in
      let cleaned = do
        ((p, c), next) ← clean_segment steps fuel claimed c seg
        clean_segments rounds steps fuel p c next
      in elim (offset_to_pointer seg) [
        | none ↦ ok (p, c)
        | some _ ↦
            if to_clean (p.memory.segment seg)
            then (if free then cleaned else skip claimed)
            else skip p
      ]

  -- So many times through the used segments: the thread goes on until it is cancelled.
  unfoldable pub clean_rounds : ℕ → ℕ → ℕ → Heap glib → Cursor → Run (Heap glib × Cursor)
  clean_rounds zero steps fuel p c = ok (p, c)
  clean_rounds (suc rounds) steps fuel p c = do
    (p, c) ← clean_segments fuel steps fuel p c p.memory.log.used.first
    clean_rounds rounds steps fuel p c
