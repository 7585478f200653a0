-- ===== src/Types.antt =====
-- project/log_pmem_types.h and the two pointer conversions of project/log.c: the structs, their sizes
-- on a 64-bit target, and the mapped memory as a typed heap. A pointer into the mapping is its offset
-- from the start of the log, and `none` is NULL.
pub mod Chain
pub mod Ids
use log_heap_pmem.Base.Words.{sub64}
use log_heap_pmem.Base.{◌/◌, ℕ, ◌≡◌, ◌+◌, ◌*◌, ◌^◌, List, Option, none, some, ◌==◌, if◌then◌else◌}

abbrev pub segment_size : ℕ
segment_size = 2 ^ 12

abbrev pub min_log_length : ℕ
min_log_length = 5 * segment_size

abbrev pub cleaner_thread_count : ℕ
cleaner_thread_count = 2

abbrev pub emergency_cleaner_segment_count : ℕ
emergency_cleaner_segment_count = 1

-- `pmo_t`, an offset from the start of the log.
abbrev pub Offset : Type 0
Offset = ℕ

pub record LogEntry : Type 0 where
  pub id : ℕ
  pub version : ℕ
  pub length : ℕ
  pub to_delete : ℕ
  pub bytes : List ℕ

pub record Segment : Type 0 where
  pub id : ℕ
  pub next_segment : Offset
  pub used_space : ℕ

-- The pair of fields `x_segments` and `last_x_segment` of `log_t`.
pub record SegmentList : Type 0 where
  pub first : Offset
  pub last : Offset

pub record Log : Type 0 where
  pub signature : List ℕ
  pub regular_termination : ℕ
  pub head_segment : Offset
  pub free : SegmentList
  pub used : SegmentList
  pub cleaner : SegmentList
  pub emergency : SegmentList
  pub current_id : ℕ
  pub head_position : ℕ
  pub used_segments_count : ℕ
  pub current_emergency_cleaner_segments_count : ℕ

-- `sizeof` of the structs: 19 bytes of signature, one flag, padding to 24, and thirteen words;
-- three words; three words and one flag, padded.
abbrev pub sizeof_log : ℕ
sizeof_log = 128

abbrev pub sizeof_segment : ℕ
sizeof_segment = 24

abbrev pub sizeof_log_entry : ℕ
sizeof_log_entry = 32

abbrev pub Segments : Type 0
Segments = Offset → Segment

-- What a read at an offset gives: the log at 0, segment headers and log entries elsewhere.
pub record Memory : Type 0 where
  pub log : Log
  pub segment : Segments
  pub entry : Offset → LogEntry

-- `pmem_t`; `T` is the type of GLib's hash tables.
pub record Pmem (T : Type 0) : Type 0 where
  pub memory : Memory
  pub size : ℕ
  pub hash_table : T
  pub currently_cleaned_segments : T
  pub consistent : ℕ

abbrev pub Pointer : Type 0
Pointer = Option Offset

unfoldable pub offset_to_pointer : Offset → Pointer
offset_to_pointer offset = if offset == 0 then none else some offset

unfoldable pub pointer_to_offset : Pointer → Offset
pointer_to_offset none = 0
pointer_to_offset (some p) = p

-- A store to one cell of a typed region.
unfoldable pub write {ℓ} : {A : Type ℓ} → (Offset → A) → Offset → A → Offset → A
write f p x q = if p == q then x else f q

-- `segment->next_segment = q`
unfoldable pub set_next : Segments → Offset → Offset → Segments
unfolding write
set_next segs p q = write segs p (record (segs p) { next_segment = q })

-- `segment->used_space = n`
unfoldable pub set_used_space : Segments → Offset → ℕ → Segments
unfolding write
set_used_space segs p n = write segs p (record (segs p) { used_space = n })

-- The segment behind the last one of a list, or the first one of an empty list; `last` moves to it.
unfoldable pub attach : Segments → SegmentList → Offset → Segments × SegmentList
unfolding offset_to_pointer set_next
attach segs l p = elim (offset_to_pointer l.last) [
  | none ↦ (segs, record { first = p; last = p })
  | some q ↦ (set_next segs q p, record l { last = p })
]

-- A list whose first segment is taken away: `first` becomes its successor.
unfoldable pub drop_first : SegmentList → Offset → SegmentList
drop_first l first = record { first = first; last = if first == 0 then 0 else l.last }

-- The segment that an offset lies in.
unfoldable pub segment_of : Offset → Offset
unfolding sub64
segment_of off = sizeof_log + sub64 off sizeof_log / segment_size * segment_size
