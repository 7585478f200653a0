-- ===== src/Cleaner/FreeAll.antt =====
-- project/cleaner.c, `append_all_cleaner_segments_to_free_segments`.
pub mod Lists
use log_heap_pmem.Base.{
  ℕ, zero, suc, ◌==◌, ◌&&◌, ltb, not, none, some, Run, ok, out_of_fuel, ◌>>=◌, if◌then◌else◌,
}
use log_heap_pmem.Types.{
  Offset, Memory, Segments, attach, set_next, set_used_space, offset_to_pointer,
  emergency_cleaner_segment_count,
}
use log_heap_pmem.Cleaner.{refill_emergency_cleaner_segment}

-- The fill levels of the segments from `p` on become 0.
unfoldable pub clear_used_space : ℕ → Segments → Offset → Run Segments
clear_used_space zero segs p = out_of_fuel
clear_used_space (suc fuel) segs p =
    let cleared = set_used_space segs p 0 in
    let rest = clear_used_space fuel cleared (cleared p).next_segment in
    elim (offset_to_pointer p) [ none ↦ ok segs | some _ ↦ rest ]

-- The first cleaner segment becomes the last emergency segment.
unfoldable pub refill_first : Memory → Memory
refill_first m =
    let seg = m.log.cleaner.first in
    let m = refill_emergency_cleaner_segment m seg in
    record m {
      segment = set_next m.segment m.log.emergency.last 0;
      log = record m.log {
        cleaner = record m.log.cleaner { first = (m.segment seg).next_segment };
      };
    }

unfoldable pub refill_emergency : ℕ → Memory → Run Memory
refill_emergency zero m = out_of_fuel
refill_emergency (suc fuel) m =
    let rest = refill_emergency fuel (refill_first m) in
    if ltb m.log.current_emergency_cleaner_segments_count emergency_cleaner_segment_count
      && not (m.log.cleaner.first == 0)
    then rest
    else ok m

unfoldable pub append_all_cleaner_segments_to_free_segments : ℕ → Memory → Run Memory
append_all_cleaner_segments_to_free_segments fuel m =
    let moved = do
      segs ← clear_used_space fuel m.segment m.log.cleaner.first
      m ← refill_emergency fuel (record m { segment = segs })
      let (segs, free) = attach m.segment m.log.free m.log.cleaner.first
      ok (record m {
        segment = segs;
        log = record m.log {
          free = record free { last = m.log.cleaner.last };
          cleaner = record { first = 0; last = 0 };
        };
      })
    in if m.log.cleaner.first == 0 then ok m else moved
