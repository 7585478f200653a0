-- ===== src/Store.antt =====
-- Where live entries lie in the segments, for `append_to_log` (project/log.c) and any set of live
-- offsets.
pub mod Segments
pub mod Write
pub mod Exchange
pub mod Append
pub mod Ids
use log_heap_pmem.Base.{ℕ, ◌+◌, ◌-◌, ◌%◌, ◌≤◌, ◌<◌, ◌≡◌, ◌≢◌, ◌⊎◌, List, [], ◌∉◌}
use log_heap_pmem.Base.Words.{word}
use log_heap_pmem.Types.{
  Offset, Memory, LogEntry, segment_size, sizeof_log, sizeof_segment, sizeof_log_entry, segment_of,
}
use log_heap_pmem.Log.{append_to_log}
use log_heap_pmem.Log.Lists.{Lists, IsLog, places}

-- A place for a segment: behind the log, at a multiple of the segment size, within 64 bits.
pub record IsSegment (a : Offset) : Type 0 where
  pub behind_log : sizeof_log ≤ a
  pub multiple : (a - sizeof_log) % segment_size ≡ 0
  pub fits : a + segment_size < word

-- The first byte behind an entry with so many bytes of data.
abbrev pub end_of : Offset → ℕ → ℕ
end_of off length = off + sizeof_log_entry + length

-- An entry lies inside its segment, which is not free, and in the head segment before its end.
pub record IsPlaced (m : Memory) (ls : Lists) (off : Offset) : Type 0 where
  pub segment : IsSegment (segment_of off)
  pub above : segment_of off + sizeof_segment ≤ off
  pub below : end_of off (m.entry off).length ≤ segment_of off + segment_size
  pub not_free : segment_of off ∉ ls.free
  pub behind :
      segment_of off ≡ ls.head
      → end_of off (m.entry off).length ≤ ls.head + sizeof_segment + m.log.head_position

pub record IsStore (m : Memory) (ls : Lists) (Live : Offset → Type 0) : Type 0 where
  pub log : IsLog m ls
  pub position : m.log.head_position ≤ segment_size - sizeof_segment
  pub segments : (a : Offset) → a ≢ 0 → 1 ≤ places a ls → IsSegment a
  pub placed : (off : Offset) → Live off → IsPlaced m ls off

-- What a live offset reads as is the same in both memories.
abbrev pub SameLive : (Offset → Type 0) → Memory → Memory → Type 0
SameLive Live m m' = (off : Offset) → Live off → m'.entry off ≡ m.entry off

-- The bytes of two entries do not overlap.
abbrev pub Apart : Memory → Offset → Offset → Type 0
Apart m p q = (end_of p (m.entry p).length ≤ q) ⊎ (end_of q (m.entry q).length ≤ p)

-- `m'` holds `e` at `off`, clear of every offset that was live in `m` and still reads the same.
pub record Stored (m : Memory) (Live : Offset → Type 0) (e : LogEntry) (m' : Memory) (off : Offset)
    (ls' : Lists) : Type 0 where
  pub nonzero : off ≢ 0
  pub at : m'.entry off ≡ e
  pub store : IsStore m' ls' (λ o. Live o ⊎ (o ≡ off))
  pub same : SameLive Live m m'
  pub apart : (o : Offset) → Live o → Apart m' o off

-- What an exchange of the head segment, or none, does to the cleaner's lists and to the segments.
pub record Moves (ls ls' : Lists) : Type 0 where
  pub cleaner : ls'.cleaner ≡ ls.cleaner
  pub emergency : ls'.emergency ≡ ls.emergency
  pub fewer : (a : Offset) → a ≢ 0 → 1 ≤ places a ls' → 1 ≤ places a ls

-- The outcomes of `append_to_log`: either no segment is free and the head has no room, and nothing is
-- stored; or the entry is stored, in the head segment.
pub data Outcome (m : Memory) (ls : Lists) (Live : Offset → Type 0) (e : LogEntry)
    : Memory × Offset → Type 0 where
  full :
      {m' : Memory} (ls' : Lists)
      → Moves ls ls'
      → ls.free ≡ []
      → (ls.head ≢ 0
          → segment_size - sizeof_segment < m.log.head_position + sizeof_log_entry + e.length)
      → IsStore m' ls' Live
      → SameLive Live m m'
      → Outcome m ls Live e (m', 0)
  stored :
      {m' : Memory} {off : Offset} (ls' : Lists)
      → Moves ls ls'
      → (segment_of off ≡ ls'.head) × (ls'.head ≢ 0)
      → Stored m Live e m' off ls'
      → Outcome m ls Live e (m', off)
