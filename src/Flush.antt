-- ===== src/Flush.antt =====
-- project/log.c and project/log_pmem.c, the calls of libpmem2's `persist` and `memcpy_fn` in
-- `append_to_log`, `append_head_to_used_segments_and_get_new_head_segment`, `update_data` and
-- `pfree`: what the medium holds after each of them. A store that is not flushed yet is not on the
-- medium.
pub mod Append
pub mod Complete
pub mod Client
pub mod Updated
pub mod Links
pub mod Exchange
pub mod Stale
use log_heap_pmem.Base.{ℕ, ◌==◌, if◌then◌else◌, ◌≡◌, refl}
use log_heap_pmem.Base.Words.{add64}
use log_heap_pmem.Types.{
  Offset, Memory, LogEntry, write, set_next, set_used_space, attach, drop_first,
}
use log_heap_pmem.Heap.{release_space, mark_deleted}
use log_heap_pmem.Log.{log_entry_size, head_end, write_entry, retire_head, take_free}

-- `pmem->memcpy_fn(log_entry_start, log_entry, log_entry_size, 0)`
unfoldable pub copy_to_head : Memory → LogEntry → Memory
copy_to_head m e = record m { entry = write m.entry (head_end m) e }

-- `head_seg->used_space += log_entry_size`, flushed.
unfoldable pub count_space : Memory → ℕ → Memory
count_space m size =
    let head = m.log.head_segment in
    record m { segment = set_used_space m.segment head (add64 (m.segment head).used_space size) }

-- `log->head_position += log_entry_size`, flushed.
unfoldable pub advance_head : Memory → ℕ → Memory
advance_head m size = record m {
  log = record m.log { head_position = add64 m.log.head_position size };
}

-- What a crash may leave of an append to a head segment with room. The copy is not flushed as one:
-- a crash within it leaves any bytes in the entry's place.
pub data AppendState (m : Memory) (e : LogEntry) : Memory → Type 0 where
  before : AppendState m e m
  copying : (x : LogEntry) → AppendState m e (copy_to_head m x)
  counted : AppendState m e (count_space (copy_to_head m e) (log_entry_size e.length))
  advanced : AppendState m e (
      advance_head
        (count_space (copy_to_head m e) (log_entry_size e.length))
        (log_entry_size e.length))

-- What a crash may leave of `update_data`: the old version's bytes are taken off the fill level, and
-- flushed, before the new version is appended.
pub data UpdateState (m : Memory) (off : Offset) (e : LogEntry) : Memory → Type 0 where
  before : UpdateState m off e m
  appending : {m' : Memory} → AppendState (release_space m off) e m' → UpdateState m off e m'

-- What a crash may leave of `pfree`: the entry is marked, then its bytes are taken off the fill level.
pub data FreeState (m : Memory) (off : Offset) : Memory → Type 0 where
  before : FreeState m off m
  marked : FreeState m off (mark_deleted m off)
  released : FreeState m off (release_space (mark_deleted m off) off)

-- The steps in this order are the write of the model that does not look at flushes.
pub write_entry-steps :
    (m : Memory) (e : LogEntry) (size : ℕ)
    → advance_head (count_space (copy_to_head m e) size) size ≡ write_entry m e size
unfolding advance_head count_space copy_to_head write_entry
write_entry-steps m e size = refl

-- `last_used_segment->next_segment = log->head_segment`, flushed, if there is a head segment and a
-- used one.
unfoldable pub link_last : Memory → Memory
unfolding retire_head
link_last m = record m { segment = (retire_head m).segment }

-- `pmem->persist(log, sizeof(log_t))`: the log's fields, but for the head position, after the
-- first free segment was taken.
unfoldable pub switch_head : Memory → Memory
unfolding retire_head
switch_head m =
    let r = retire_head m in
    let head = r.log.free.first in
    record r {
      log = record r.log {
        head_segment = head;
        free = drop_first r.log.free (r.segment head).next_segment;
      };
    }

-- `head_segment->next_segment = pointer_to_offset(pmem, NULL)`, flushed.
unfoldable pub cut_head : Memory → Memory
cut_head m = record m { segment = set_next m.segment m.log.head_segment 0 }

-- `log->head_position = 0`, flushed.
unfoldable pub reset_position : Memory → Memory
reset_position m = record m { log = record m.log { head_position = 0 } }

-- What a crash may leave of an exchange of the head segment for a free one, if each flush is whole.
pub data ExchangeState (m : Memory) : Memory → Type 0 where
  before : ExchangeState m m
  linked : ExchangeState m (link_last m)
  switched : ExchangeState m (switch_head m)
  cut : ExchangeState m (cut_head (switch_head m))
  reset : ExchangeState m (reset_position (cut_head (switch_head m)))

-- The steps in this order are the exchange of the model that does not look at flushes.
pub take_free-steps :
    (m : Memory) → reset_position (cut_head (switch_head m)) ≡ take_free (retire_head m)
unfolding reset_position cut_head switch_head take_free
take_free-steps m = refl
