-- ===== src/Cleaner.antt =====
-- project/cleaner.c: where the cleaner takes its segments from, and how segments move between the
-- lists of the log. The mutexes and the flushes are not in the model: each function is one step.
pub mod Supply
pub mod Release
pub mod Unlink
pub mod Move
pub mod GiveBack
pub mod Keeps
pub mod FreeAll
use log_heap_pmem.Base.{
  ℕ, zero, suc, ◌+◌, ◌-◌, ◌/◌, ◌==◌, Bool, ltb, none, some, Run, ok, fault, out_of_fuel, ◌>>=◌,
  if◌then◌else◌, List, [], ◌∷◌, ◌++◌,
}
use log_heap_pmem.Base.Words.{add64, sub64}
use log_heap_pmem.Types.{
  Offset, Memory, Segments, SegmentList, attach, drop_first, set_next, Segment, set_used_space,
  offset_to_pointer, segment_size, emergency_cleaner_segment_count,
}
use log_heap_pmem.Log.Lists.{Lists}

-- The first segment of the emergency list moves behind the cleaner segments; NULL (0) if there is
-- none.
unfoldable pub get_emergency_cleaner_segment : Memory → Memory × Offset
unfolding sub64
get_emergency_cleaner_segment m =
    let seg = m.log.emergency.first in
    let (segs, cleaner) = attach m.segment m.log.cleaner seg in
    let moved = record m {
      segment = set_next segs seg 0;
      log = record m.log {
        cleaner = cleaner;
        emergency = drop_first m.log.emergency (segs seg).next_segment;
        current_emergency_cleaner_segments_count =
            sub64 m.log.current_emergency_cleaner_segments_count 1;
      };
    } in
    if seg == 0 then (m, 0) else (moved, seg)

-- The same with the first free segment; without one, an emergency segment.
unfoldable pub get_new_cleaner_segment : Memory → Memory × Offset
get_new_cleaner_segment m =
    let seg = m.log.free.first in
    let (segs, cleaner) = attach m.segment m.log.cleaner seg in
    let moved = record m {
      segment = set_next segs seg 0;
      log = record m.log {
        cleaner = cleaner;
        free = drop_first m.log.free (segs seg).next_segment;
      };
    } in
    if seg == 0 then get_emergency_cleaner_segment m else (moved, seg)

-- A segment goes behind the emergency segments; its caller takes it from its own list.
unfoldable pub refill_emergency_cleaner_segment : Memory → Offset → Memory
unfolding add64
refill_emergency_cleaner_segment m seg =
    let (segs, emergency) = attach m.segment m.log.emergency seg in
    record m {
      segment = segs;
      log = record m.log {
        emergency = emergency;
        current_emergency_cleaner_segments_count =
            add64 m.log.current_emergency_cleaner_segments_count 1;
      };
    }

-- All cleaner segments go behind the used segments.
unfoldable pub append_all_cleaner_segments_to_used_segments : Memory → Memory
append_all_cleaner_segments_to_used_segments m =
    let (segs, used) = attach m.segment m.log.used m.log.cleaner.first in
    let moved = record m {
      segment = segs;
      log = record m.log {
        used = record used { last = m.log.cleaner.last };
        cleaner = record { first = 0; last = 0 };
      };
    } in
    if m.log.cleaner.first == 0 then m else moved

-- The loop that looks for a segment by its id: the segment before it and the segment, or NULL (0)
-- if the list ends.
unfoldable pub seek : ℕ → Segments → ℕ → Offset → Offset → Run (Offset × Offset)
seek zero segs id prev curr = out_of_fuel
seek (suc fuel) segs id prev curr =
    let rest = seek fuel segs id curr (segs curr).next_segment in
    elim (offset_to_pointer curr) [
      | none ↦ ok (prev, 0)
      | some s ↦ if (segs s).id == id then ok (prev, s) else rest
    ]

-- The segment `curr` leaves its list; `prev` is the one before it. The list has a first segment, as
-- `curr` was found from there.
unfoldable pub unlink : Segments → SegmentList → ℕ → Offset → Offset → Run (Segments × SegmentList)
unlink segs l id prev curr = elim (offset_to_pointer l.last) [
  | none ↦ fault
  | some last ↦
      if (segs l.first).id == id
      then if (segs last).id == id
        then ok (segs, record { first = 0; last = 0 })
        else ok (segs, record { first = (segs curr).next_segment; last = l.last })
      else ok (
        set_next segs prev (segs curr).next_segment,
        record { first = l.first; last = if (segs last).id == id then prev else l.last },
      )
]

-- The cleaner segment with the id goes behind the used segments. Without one the loop runs into NULL.
unfoldable pub append_cleaner_segment_to_used_segments : ℕ → Memory → ℕ → Run Memory
append_cleaner_segment_to_used_segments fuel m id = do
  (prev, curr) ← seek fuel m.segment id 0 m.log.cleaner.first
  let (attached, used) = attach m.segment m.log.used curr
  (segs, cleaner) ← if curr == 0 then fault else unlink attached m.log.cleaner id prev curr
  ok (record m {
    segment = set_next segs curr 0;
    log = record m.log { used = used; cleaner = cleaner };
  })

-- A segment goes behind the emergency segments if there are too few of them, else behind the free
-- ones.
unfoldable pub give_back : Memory → Offset → Memory
give_back m seg =
    let (segs, free) = attach m.segment m.log.free seg in
    if ltb m.log.current_emergency_cleaner_segments_count emergency_cleaner_segment_count
    then refill_emergency_cleaner_segment m seg
    else (record m { segment = segs; log = record m.log { free = free } })

-- The used segment with the id is given back; without one nothing changes (but the mutex stays held).
unfoldable pub append_cleaned_segment_to_free_segments : ℕ → Memory → ℕ → Run Memory
append_cleaned_segment_to_free_segments fuel m id = do
  (prev, curr) ← seek fuel m.segment id 0 m.log.used.first
  let given = give_back m curr
  let moved = do
    (segs, used) ← unlink given.segment given.log.used id prev curr
    ok (record given {
      segment = set_used_space (set_next segs curr 0) curr 0;
      log = record given.log {
        used = used;
        used_segments_count = sub64 given.log.used_segments_count 1;
      };
    })
  if curr == 0 then ok m else moved

-- The cleaner segment with the id is given back. Without one the loop runs into NULL.
unfoldable pub append_cleaner_segment_to_free_segments : ℕ → Memory → ℕ → Run Memory
append_cleaner_segment_to_free_segments fuel m id = do
  (prev, curr) ← seek fuel m.segment id 0 m.log.cleaner.first
  let given = give_back m curr
  (segs, cleaner) ← if curr == 0 then fault else unlink given.segment given.log.cleaner id prev curr
  ok (record given {
    segment = set_used_space (set_next segs curr 0) curr 0;
    log = record given.log { cleaner = cleaner };
  })

-- `to_clean`: less than half of the segment is in use.
unfoldable pub to_clean : Segment → Bool
to_clean s = ltb s.used_space (segment_size / 2)

-- Cleaning waits for half of the segments to be used.
unfoldable pub wait_to_start_cleaning : Memory → ℕ → Bool
wait_to_start_cleaning m size = ltb m.log.used_segments_count (size / segment_size / 2)

-- What taking a segment for the cleaner does to the lists.
unfoldable pub acquire_emergency : List ℕ → Lists → Lists × Offset
acquire_emergency [] ls = (ls, 0)
acquire_emergency (s ∷ rest) ls =
    (record ls { emergency = rest; cleaner = ls.cleaner ++ s ∷ [] }, s)

unfoldable pub acquire : List ℕ → Lists → Lists × Offset
unfolding acquire_emergency
acquire [] ls = acquire_emergency ls.emergency ls
acquire (s ∷ rest) ls = (record ls { free = rest; cleaner = ls.cleaner ++ s ∷ [] }, s)
