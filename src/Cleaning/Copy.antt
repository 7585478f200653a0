-- ===== src/Cleaning/Copy.antt =====
-- project/cleaner.c, `clean`: the copy of an entry behind the cursor, clear of the live entries.
use log_heap_pmem.Base.{
  ℕ, ◌+◌, ◌-◌, ◌≤◌, ◌≡◌, ◌≢◌, ◌⊎◌, inl, inr, refl, arith, ap, sym, subst, ◌∙◌, ◌∈◌, ◌∉◌, has,
}
use native.Mathlib.Decide.{ℕ_discrete}
use log_heap_pmem.Types.{
  Offset, Memory, segment_size, sizeof_segment, sizeof_log_entry, segment_of, write, set_used_space,
}
use log_heap_pmem.Types.Chain.{set_used_space-next}
use log_heap_pmem.Glib.{GHashTable}
use log_heap_pmem.Log.Lists.{Lists, IsLog, IsLog-keep, places}
use log_heap_pmem.Store.{IsPlaced, IsSegment, SameLive, Stored, end_of}
use log_heap_pmem.Store.Segments.{segment_of_inside, segments_apart, IsPlaced-keep}
use log_heap_pmem.Heap.{Heap}
use log_heap_pmem.Heap.Content.{Live}
use log_heap_pmem.Recovery.{entry_at}
use log_heap_pmem.Cleaning.{Cursor, copy_entry}
use log_heap_pmem.Cleaning.Invariant.{IsCleanable, Owns}

-- A cleaner segment is one of the log's segments, and neither free, nor an emergency segment, nor the
-- head.
pub record OnCleaners (m : Memory) (ls : Lists) (a : Offset) : Type 0 where
  pub place : 1 ≤ places a ls
  pub nonzero : a ≢ 0
  pub not_free : a ∉ ls.free
  pub not_used : a ∉ ls.used
  pub not_emergency : a ∉ ls.emergency
  pub not_head : a ≢ ls.head

pub cleaner-OnCleaners :
    (m : Memory) (ls : Lists) (a : Offset) → IsLog m ls → a ∈ ls.cleaner → OnCleaners m ls a
cleaner-OnCleaners m ls a log i =
    let nonzero : a ≢ 0 = λ z. ground (arith, log.apart 0, ap (λ (b : ℕ). has b ls.cleaner) z, i) in
    record {
      place = ground (arith, i);
      nonzero = nonzero;
      not_free = ground (arith, log.apart a, i);
      not_used = ground (arith, log.apart a, i);
      not_emergency = ground (arith, log.apart a, i);
      not_head = λ e. ground (arith, log.apart a, i, nonzero, e);
    }

module _ (glib : GHashTable) (p : Heap glib) (ls : Lists) (c : Cursor) (is : IsCleanable glib p ls)
    (owns : Owns glib p ls c) (off : Offset)
    (fits : c.cleaner_seg_pos + (sizeof_log_entry + (p.memory.entry off).length)
      ≤ segment_size - sizeof_segment) where
  abbrev pub start : Offset
  start = entry_at c.cleaner_seg c.cleaner_seg_pos

  abbrev pub copied : Memory
  copied = copy_entry p.memory c off

  pub own_segment : OnCleaners p.memory ls c.cleaner_seg
  own_segment = cleaner-OnCleaners p.memory ls c.cleaner_seg is.heap.store.log owns.cleaner

  pub own-IsSegment : IsSegment c.cleaner_seg
  own-IsSegment = is.heap.store.segments c.cleaner_seg own_segment.nonzero own_segment.place

  pub segment_of-start : segment_of start ≡ c.cleaner_seg
  segment_of-start =
      ap segment_of (omega arith)
      ∙ segment_of_inside c.cleaner_seg (sizeof_segment + c.cleaner_seg_pos) own-IsSegment
          (omega (arith, fits))

  Live-or_behind :
      (o : Offset) (n : ℕ)
      → Live glib p o
      → c.cleaner_seg_pos + n ≤ segment_size - sizeof_segment
      → (end_of o (p.memory.entry o).length ≤ start) ⊎ (start + n ≤ o)
  Live-or_behind o n live room =
      let at = is.heap.store.placed o live in
      elim (ℕ_discrete (segment_of o) c.cleaner_seg) [
        | yes same ↦ inl (owns.written o live same)
        | no other ↦
            elim (segments_apart (segment_of o) c.cleaner_seg at.segment own-IsSegment other) [
              | inl below ↦ inl (omega (arith, at.below))
              | inr above ↦ inr (omega (arith, at.above))
            ]
      ]

  pub copied-same : SameLive (Live glib p) p.memory copied
  unfolding copy_entry write
  copied-same o live = ground (arith, Live-or_behind o 32 live, fits)

  pub copied-at : copied.entry start ≡ p.memory.entry off
  unfolding copy_entry write
  copied-at = ground arith

  -- Outside the thread's segment nothing is written.
  pub copied-other : (o : Offset) → segment_of o ≢ c.cleaner_seg → copied.entry o ≡ p.memory.entry o
  unfolding copy_entry write
  copied-other o ne =
      let apart : start ≢ o = λ e. ne (sym (ap segment_of e) ∙ segment_of-start) in
      ground (arith, apart)

  copied-IsLog : IsLog copied ls
  unfolding copy_entry
  copied-IsLog =
      IsLog-keep p.memory ls _ _ _ _ (set_used_space-next p.memory.segment c.cleaner_seg _)
        is.heap.store.log

  pub copied-ids : (a : Offset) → (copied.segment a).id ≡ (p.memory.segment a).id
  unfolding copy_entry set_used_space write
  copied-ids a = ground arith

  copied-position : copied.log.head_position ≡ p.memory.log.head_position
  unfolding copy_entry
  copied-position = refl

  start-IsPlaced : IsPlaced copied ls start
  start-IsPlaced =
      let home = segment_of-start in
      record {
        segment = subst IsSegment (sym home) own-IsSegment;
        above = omega (arith, home);
        below = rw copied-at (omega (arith, home, fits));
        not_free = rw home own_segment.not_free;
        behind = λ e. absurd (own_segment.not_head (sym home ∙ e));
      }

  pub copied-Stored : Stored p.memory (Live glib p) (p.memory.entry off) copied start ls
  copied-Stored = record {
    nonzero = λ z. absurd (omega (arith, own-IsSegment.behind_log, z));
    at = copied-at;
    store = record {
      log = copied-IsLog;
      position = omega (arith, copied-position, is.heap.store.position);
      segments = is.heap.store.segments;
      placed = λ o. elim [
        | inl live ↦
            IsPlaced-keep p.memory copied ls o (copied-same o live) (omega (arith, copied-position))
              (is.heap.store.placed o live)
        | inr here ↦ subst (IsPlaced copied ls) (sym here) start-IsPlaced
      ];
    };
    same = copied-same;
    apart = λ o live.
        rw (copied-same o live, copied-at)
          (ground
            (arith, Live-or_behind o (sizeof_log_entry + (p.memory.entry off).length) live, fits));
  }
