-- ===== src/Store/Segments.antt =====
-- Offsets and the segments that they lie in.
use log_heap_pmem.Base.{ℕ, ◌+◌, ◌≤◌, ◌<◌, ◌≡◌, refl, ◌≢◌, ◌⊎◌, arith}
use log_heap_pmem.Base.Words.{sub64}
use log_heap_pmem.Types.{Segments, Offset, Memory, segment_size, sizeof_log, segment_of}
use log_heap_pmem.Log.Lists.{Lists, IsLog-keep}
use log_heap_pmem.Store.{IsSegment, IsPlaced, IsStore}

-- Every offset inside a segment is mapped to it.
pub segment_of_inside : (a x : ℕ) → IsSegment a → x < segment_size → segment_of (a + x) ≡ a
unfolding segment_of sub64
segment_of_inside a x is lt = omega arith

pub segment_of-ne : (a : ℕ) → sizeof_log ≤ segment_of a
unfolding segment_of
segment_of-ne a = omega arith

-- Two segments are the same one or do not overlap.
pub segments_apart :
    (a b : ℕ) → IsSegment a → IsSegment b → a ≢ b → (a + segment_size ≤ b) ⊎ (b + segment_size ≤ a)
segments_apart a b is js ne = omega arith

-- A placed entry stays so while it is not written and the head position does not fall.
pub IsPlaced-keep :
    (m m' : Memory) (ls : Lists) (o : Offset)
    → m'.entry o ≡ m.entry o
    → m.log.head_position ≤ m'.log.head_position
    → IsPlaced m ls o
    → IsPlaced m' ls o
IsPlaced-keep m m' ls o same grows at = record {
  segment = at.segment;
  above = at.above;
  below = rw same at.below;
  not_free = at.not_free;
  behind = λ e. rw same (omega (arith, at.behind e));
}

-- Fewer offsets may be live.
pub IsStore-narrow :
    (m : Memory) (ls : Lists) (Live Live' : Offset → Type 0)
    → ((o : Offset) → Live' o → Live o)
    → IsStore m ls Live
    → IsStore m ls Live'
IsStore-narrow m ls Live Live' sub is = record {
  log = is.log;
  position = is.position;
  segments = is.segments;
  placed = λ o live. is.placed o (sub o live);
}

-- Fill levels and the identifier counter do not matter to where the entries lie.
pub IsStore-keep :
    (m : Memory) (ls : Lists) (Live : Offset → Type 0) (segs : Segments) (current : ℕ)
    → ((a : Offset) → (segs a).next_segment ≡ (m.segment a).next_segment)
    → IsStore m ls Live
    → IsStore (record m { segment = segs; log = record m.log { current_id = current } }) ls Live
IsStore-keep m ls Live segs current same is = record {
  log = IsLog-keep m ls segs m.entry m.log.head_position current same is.log;
  position = is.position;
  segments = is.segments;
  placed = λ o live.
      IsPlaced-keep m (record m { segment = segs; log = record m.log { current_id = current } }) ls
        o refl (omega arith) (is.placed o live);
}
