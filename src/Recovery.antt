-- ===== src/Recovery.antt =====
-- project/hash_table.c, `reconstruct_hash_table`: the table is rebuilt from the segments after a
-- crash. Every loop runs on fuel.
pub mod Notes
pub mod Newest
pub mod Scan
pub mod Rebuild
pub mod Freed
pub mod Diverges
pub mod Frame
pub mod Snoc
pub mod Marked
pub mod Fill
use log_heap_pmem.Base.{
  ℕ, zero, suc, ◌+◌, ◌-◌, Bool, true, false, none, some, ltb, ◌==◌, if◌then◌else◌, Run, ok, fault,
  out_of_fuel, ◌>>=◌,
}
use log_heap_pmem.Base.Words.{add64, as_int}
use log_heap_pmem.Types.{
  Offset, Memory, segment_size, sizeof_segment, sizeof_log_entry, offset_to_pointer,
}
use log_heap_pmem.Log.{log_entry_size}
use log_heap_pmem.Glib.{GHashTable}

-- Entries that the loop over a used segment reads start before this position.
abbrev pub scan_limit : ℕ
scan_limit = segment_size - sizeof_segment - sizeof_log_entry

-- `segment->log_entries + pos`
abbrev pub entry_at : Offset → ℕ → Offset
entry_at seg pos = seg + sizeof_segment + pos

module _ (glib : GHashTable) where
  open glib use {Table, insert, lookup, contains}

  -- An entry that is not deleted goes into the table, unless the table has a version of it that is
  -- not older.
  unfoldable pub note_entry : Memory → Table → Offset → Run Table
  note_entry m t off =
      let e = m.entry off in
      if e.to_delete == 0
      then if contains t e.id
        then elim (offset_to_pointer (lookup t e.id)) [
          | none ↦ fault
          | some old ↦ ok (if ltb (m.entry old).version e.version then insert t e.id off else t)
        ]
        else ok (insert t e.id off)
      else ok t

  -- The entries of a used segment, up to a zero length or the segment's end.
  unfoldable pub scan_used : ℕ → Memory → Offset → ℕ → Table → Run Table
  scan_used zero m seg pos t = out_of_fuel
  scan_used (suc fuel) m seg pos t =
      let off = entry_at seg pos in
      let length = (m.entry off).length in
      let rest =
        λ (t : Table). scan_used fuel m seg (as_int (add64 pos (log_entry_size length))) t in
      if ltb pos scan_limit
      then if length == 0 then ok t else (note_entry m t off >>= rest)
      else ok t

  -- The used segments, from `p` on.
  unfoldable pub scan_segments : ℕ → ℕ → Memory → Offset → Table → Run Table
  scan_segments zero steps m p t = out_of_fuel
  scan_segments (suc fuel) steps m p t = elim (offset_to_pointer p) [
    | none ↦ ok t
    | some seg ↦
        scan_used steps m seg 0 t >>= λ t. scan_segments fuel steps m (m.segment seg).next_segment t
  ]

  -- The entries of the head segment, up to the head position.
  unfoldable pub scan_head : ℕ → Memory → Offset → ℕ → Table → Run Table
  scan_head zero m seg pos t = out_of_fuel
  scan_head (suc fuel) m seg pos t =
      let off = entry_at seg pos in
      let next = as_int (add64 pos (log_entry_size (m.entry off).length)) in
      let rest = λ (t : Table). scan_head fuel m seg next t in
      if ltb pos m.log.head_position then (note_entry m t off >>= rest) else ok t

  -- The entries of a cleaner segment, up to its fill level and the bytes of its deleted entries.
  unfoldable pub scan_cleaner : ℕ → Memory → Offset → ℕ → ℕ → Table → Run Table
  scan_cleaner zero m seg pos freed t = out_of_fuel
  scan_cleaner (suc fuel) m seg pos freed t =
      let off = entry_at seg pos in
      let e = m.entry off in
      let size = log_entry_size e.length in
      let freed' = if e.to_delete == 0 then freed else as_int (add64 freed size) in
      let rest = λ (t : Table). scan_cleaner fuel m seg (as_int (add64 pos size)) freed' t in
      if ltb pos (add64 (m.segment seg).used_space freed)
      then (note_entry m t off >>= rest)
      else ok t

  -- The loop over the cleaner segments: its last part computes the successor and drops it, so
  -- `cleaner_seg` stays the first one.
  unfoldable pub scan_cleaners : ℕ → ℕ → Memory → Offset → Table → Run Table
  scan_cleaners zero steps m p t = out_of_fuel
  scan_cleaners (suc fuel) steps m p t = elim (offset_to_pointer p) [
    | none ↦ ok t
    | some seg ↦ scan_cleaner steps m seg 0 0 t >>= λ t. scan_cleaners fuel steps m p t
  ]

  unfoldable pub scan_head_segment : ℕ → Memory → Table → Run Table
  scan_head_segment steps m t = elim (offset_to_pointer m.log.head_segment) [
    | none ↦ ok t
    | some seg ↦ scan_head steps m seg 0 t
  ]

  -- `fuel` is for the segments of a list, `steps` for the entries of a segment.
  unfoldable pub reconstruct_hash_table : ℕ → ℕ → Memory → Table → Run Table
  reconstruct_hash_table fuel steps m t = do
    t ← scan_segments fuel steps m m.log.used.first t
    t ← scan_head_segment steps m t
    scan_cleaners fuel steps m m.log.cleaner.first t
