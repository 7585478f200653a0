-- ===== src/Store/Ids.antt =====
-- project/log.c, `append_to_log`: the identifiers of the segments.
use log_heap_pmem.Base.{ℕ, arith}
use log_heap_pmem.Types.{Memory, LogEntry, offset_to_pointer}
use log_heap_pmem.Types.Chain.{attach-fields}
use log_heap_pmem.Types.Ids.{SameIds, set_used_space-ids, set_next-ids}
use log_heap_pmem.Log.{
  append_to_log, append_to_head, ensure_head, ensure_room, mark_unused, write_entry, retire_head,
  take_free, append_head_to_used_segments_and_get_new_head_segment, log_entry_size,
}

retire_head-SameIds : (m : Memory) → SameIds m.segment (retire_head m).segment
unfolding retire_head
retire_head-SameIds m a = ground (arith, attach-fields m.segment m.log.used m.log.head_segment a)

exchange-SameIds :
    (m : Memory)
    → SameIds m.segment (append_head_to_used_segments_and_get_new_head_segment m).0.segment
unfolding append_head_to_used_segments_and_get_new_head_segment take_free
exchange-SameIds m a =
    let r = retire_head m in
    ground (arith, retire_head-SameIds m a, set_next-ids r.segment r.log.free.first 0 a)

write_entry-SameIds :
    (m : Memory) (e : LogEntry) (size : ℕ) → SameIds m.segment (write_entry m e size).segment
unfolding write_entry
write_entry-SameIds m e size = set_used_space-ids m.segment m.log.head_segment _

ensure_room-SameIds : (m : Memory) (size : ℕ) → SameIds m.segment (ensure_room m size).0.segment
unfolding ensure_room mark_unused
ensure_room-SameIds m size a = ground (arith, exchange-SameIds (mark_unused m) a)

ensure_head-SameIds : (m : Memory) → SameIds m.segment (ensure_head m).0.segment
unfolding ensure_head offset_to_pointer
ensure_head-SameIds m a = ground (arith, exchange-SameIds m a)

append_to_head-SameIds :
    (m : Memory) (e : LogEntry) → SameIds m.segment (append_to_head m e).0.segment
unfolding append_to_head
append_to_head-SameIds m e a =
    let size = log_entry_size e.length in
    ground
      (arith, ensure_room-SameIds m size a, write_entry-SameIds (ensure_room m size).0 e size a)

pub append_to_log-SameIds :
    (m : Memory) (e : LogEntry) → SameIds m.segment (append_to_log m e).0.segment
unfolding append_to_log
append_to_log-SameIds m e a =
    ground (arith, ensure_head-SameIds m a, append_to_head-SameIds (ensure_head m).0 e a)
