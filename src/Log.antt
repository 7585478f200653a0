-- ===== src/Log.antt =====
-- project/log.c, `append_to_log` and `append_head_to_used_segments_and_get_new_head_segment`. A
-- function that changes the mapped memory returns the new memory beside its result.
pub mod Lists
pub mod Head
use log_heap_pmem.Base.{ℕ, ◌+◌, ◌-◌, Bool, true, false, none, some, ltb, leb, ◌==◌, if◌then◌else◌}
use log_heap_pmem.Base.Words.{add64, sub64}
use log_heap_pmem.Types.{
  Offset, Memory, LogEntry, segment_size, sizeof_segment, sizeof_log_entry, offset_to_pointer,
  write, set_next, set_used_space, attach, drop_first,
}

-- `sizeof(log_entry_t) + sizeof(uint8_t) * length`
unfoldable pub log_entry_size : ℕ → ℕ
unfolding add64
log_entry_size length = add64 sizeof_log_entry length

-- The head segment, if there is one, moves behind the used ones.
unfoldable pub retire_head : Memory → Memory
retire_head m =
    if m.log.head_segment == 0
    then m
    else (let (segs, used) = attach m.segment m.log.used m.log.head_segment in
        record m {
          segment = segs;
          log = record m.log {
            used = used;
            used_segments_count = add64 m.log.used_segments_count 1;
          };
        })

-- The first free segment becomes the head segment.
unfoldable pub take_free : Memory → Memory
take_free m =
    let head = m.log.free.first in
    let first = (m.segment head).next_segment in
    record m {
      segment = set_next m.segment head 0;
      log = record m.log {
        head_segment = head;
        free = drop_first m.log.free first;
        head_position = 0;
      };
    }

unfoldable pub append_head_to_used_segments_and_get_new_head_segment : Memory → Memory × ℕ
append_head_to_used_segments_and_get_new_head_segment m =
    let m = retire_head m in
    if m.log.free.first == 0
    then (record m { log = record m.log { head_segment = 0 } }, 1)
    else (take_free m, 0)

-- Where the next entry goes: `head_seg->log_entries + head_position`.
unfoldable pub head_end : Memory → Offset
head_end m = m.log.head_segment + sizeof_segment + m.log.head_position

-- The room behind the head position, in `size_t`.
unfoldable pub head_room : Memory → ℕ
unfolding sub64
head_room m = sub64 (segment_size - sizeof_segment) m.log.head_position

-- A head segment is fetched if there is none.
unfoldable pub ensure_head : Memory → Memory × ℕ
ensure_head m = elim (offset_to_pointer m.log.head_segment) [
  | none ↦ append_head_to_used_segments_and_get_new_head_segment m
  | some _ ↦ (m, 0)
]

-- A zero length marks the rest of the segment as empty, if a header fits there.
unfoldable pub mark_unused : Memory → Memory
mark_unused m = record m {
  entry =
      if leb sizeof_log_entry (head_room m)
      then write m.entry (head_end m) (record (m.entry (head_end m)) { length = 0 })
      else m.entry;
}

-- The head segment is exchanged if the entry does not fit.
unfoldable pub ensure_room : Memory → ℕ → Memory × ℕ
ensure_room m size =
    if ltb (head_room m) size
    then append_head_to_used_segments_and_get_new_head_segment (mark_unused m)
    else (m, 0)

-- The entry is copied behind the head position, and the segment's fill level grows.
unfoldable pub write_entry : Memory → LogEntry → ℕ → Memory
write_entry m e size =
    let head = m.log.head_segment in
    record m {
      entry = write m.entry (head_end m) e;
      segment = set_used_space m.segment head (add64 (m.segment head).used_space size);
      log = record m.log { head_position = add64 m.log.head_position size };
    }

-- `append_to_log` once there is a head segment.
unfoldable pub append_to_head : Memory → LogEntry → Memory × Offset
append_to_head m e =
    let size = log_entry_size e.length in
    let (m, no_room) = ensure_room m size in
    if no_room == 0 then (write_entry m e size, head_end m) else (m, 0)

-- 0 is the failure; otherwise the result is the offset of the new entry.
unfoldable pub append_to_log : Memory → LogEntry → Memory × Offset
append_to_log m e =
    let (m, no_head) = ensure_head m in if no_head == 0 then append_to_head m e else (m, 0)
