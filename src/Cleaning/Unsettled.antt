-- ===== src/Cleaning/Unsettled.antt =====
-- project/cleaner.c, `clean`, at an entry that is not the current one of its object and not older
-- either: project/log_pmem.c, `palloc_with_id`, starts the versions of a freed identifier at 1 again.
use log_heap_pmem.Base.{
  ℕ, ◌+◌, ◌-◌, ◌≤◌, ◌≡◌, ◌≢◌, refl, arith, ap, ◌∙◌, true, some, ok, ==_ne, ==_refl, leb, le→ltb,
}
use log_heap_pmem.Base.Words.{add64, add64_small, sub64, sub64_small}
use log_heap_pmem.Types.{
  Offset, LogEntry, segment_size, sizeof_segment, sizeof_log_entry, offset_to_pointer, write,
}
use log_heap_pmem.Glib.{GHashTable}
use log_heap_pmem.Log.{log_entry_size}
use log_heap_pmem.Heap.{Heap, add_to_hash_table, get_from_hash_table, offsetof_data}
use log_heap_pmem.Heap.Content.{read, get_address_present}
use log_heap_pmem.Recovery.{entry_at}
use log_heap_pmem.Cleaning.{Cursor, clean_entry, move_entry, make_room, copy_entry}

module _ (glib : GHashTable) where
  open glib use {Table, insert, lookup, contains, lookup-insert}

  module _ (fuel : ℕ) (p : Heap glib) (c : Cursor) (off : Offset)
      (room : c.cleaner_seg_pos + sizeof_log_entry + (p.memory.entry off).length
        ≤ segment_size - sizeof_segment) where
    abbrev e : LogEntry
    e = p.memory.entry off

    abbrev to : Offset
    to = entry_at c.cleaner_seg c.cleaner_seg_pos

    -- The heap and the cursor behind the copy.
    abbrev overwritten : Heap glib
    overwritten = add_to_hash_table glib (record p { memory = copy_entry p.memory c off }) e.id to

    make_room-fits : make_room fuel p.memory c (log_entry_size e.length) ≡ ok (p.memory, c)
    unfolding make_room log_entry_size
    make_room-fits =
        let size = add64_small sizeof_log_entry e.length (omega arith) in
        let left = sub64_small 4072 c.cleaner_seg_pos (omega arith) (omega arith) in
        rw
          (
            size,
            le→ltb (sub64 4072 c.cleaner_seg_pos) (sizeof_log_entry + e.length)
                (omega (arith, left)),
          )
          refl

    copied_at : (copy_entry p.memory c off).entry to ≡ e
    unfolding copy_entry write
    copied_at = ground arith

    overwritten-lookup : lookup overwritten.hash_table e.id ≡ to
    unfolding add_to_hash_table
    overwritten-lookup = lookup-insert p.hash_table e.id to e.id ∙ rw (==_refl e.id) refl

    overwritten-read : read glib overwritten e.id ≡ some e.bytes
    unfolding read add_to_hash_table
    overwritten-read =
        let there = overwritten-lookup in
        let nonzero : lookup overwritten.hash_table e.id ≢ 0 = λ z. omega (arith, z, there) in
        let back : lookup overwritten.hash_table e.id + offsetof_data - offsetof_data ≡ to =
          omega (arith, there) in
        rw (get_address_present glib overwritten e.id nonzero, read)
          (ap (λ (a : Offset). some (overwritten.memory.entry a).bytes) back
            ∙ ap (λ (x : LogEntry). some x.bytes) copied_at)

    -- An entry that is not deleted has an identifier of the table, its version is at least that of
    -- the table's entry, and the thread's segment has room for it. Then the thread enters a copy of
    -- it in the table, and the identifier has its data, whatever it had before.
    pub clean_entry-overwrites :
        e.to_delete ≡ 0
        → lookup p.hash_table e.id ≢ 0
        → (p.memory.entry (lookup p.hash_table e.id)).version ≤ e.version
        → (q : Heap glib) × (d : Cursor) × ((clean_entry glib fuel p c off ≡ ok (q, d))
            × (read glib q e.id ≡ some e.bytes))
    unfolding clean_entry move_entry get_from_hash_table offset_to_pointer
    clean_entry-overwrites kept present newer =
        let current = lookup p.hash_table e.id in
        let newer' : leb (p.memory.entry current).version e.version ≡ true = ground arith in
        (
          overwritten,
          record c { cleaner_seg_pos = add64 c.cleaner_seg_pos (log_entry_size e.length) },
          (rw (kept, ==_ne current 0 present, newer', make_room-fits) refl, overwritten-read),
        )
