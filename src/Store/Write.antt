-- ===== src/Store/Write.antt =====
-- project/log.c: the live entries under the writes of `append_to_log` to the head segment.
use log_heap_pmem.Base.{
  ℕ, ◌+◌, ◌-◌, ◌≤◌, ◌<◌, ◌≡◌, ◌≢◌, ◌⊎◌, inl, inr, refl, arith, ap, sym, subst, ◌∙◌,
}
use native.Mathlib.Decide.{ℕ_discrete}
use log_heap_pmem.Base.Words.{add64_small, sub64_small}
use log_heap_pmem.Types.{
  Offset, Memory, LogEntry, segment_size, sizeof_segment, sizeof_log_entry, write, segment_of,
}
use log_heap_pmem.Types.Chain.{set_used_space-next}
use log_heap_pmem.Log.{log_entry_size, head_end, head_room, mark_unused, write_entry}
use log_heap_pmem.Log.Lists.{Lists, IsLog, IsLog-keep}
use log_heap_pmem.Store.{IsStore, IsPlaced, IsSegment, SameLive, Stored, end_of}
use log_heap_pmem.Store.Segments.{segment_of_inside, segments_apart, IsPlaced-keep}

head_end_lem : (m : Memory) → head_end m ≡ m.log.head_segment + sizeof_segment + m.log.head_position
unfolding head_end
head_end_lem m = refl

-- The head segment has a place of its own.
pub head-IsSegment :
    (m : Memory) (ls : Lists) (Live : Offset → Type 0)
    → IsStore m ls Live
    → ls.head ≢ 0
    → IsSegment ls.head
head-IsSegment m ls Live is ne = is.segments ls.head ne (ground arith)

module _ (m : Memory) (ls : Lists) (Live : Offset → Type 0) (is : IsStore m ls Live)
    (ne : ls.head ≢ 0) where
  -- A live entry ends before the head position, or lies in another segment.
  pub Live-or_behind :
      (o : Offset) (n : ℕ)
      → Live o
      → m.log.head_position + n ≤ segment_size - sizeof_segment
      → (end_of o (m.entry o).length ≤ head_end m) ⊎ (head_end m + n ≤ o)
  unfolding head_end
  Live-or_behind o n live fits =
      let at = is.placed o live in
      let head = is.log.head in
      elim (ℕ_discrete (segment_of o) ls.head) [
        | yes same ↦ inl (omega (arith, at.behind same))
        | no other ↦
            elim (segments_apart (segment_of o) ls.head at.segment (head-IsSegment m ls Live is ne)
              other) [
                | inl below ↦ inl (omega (arith, at.below))
                | inr above ↦ inr (omega (arith, at.above))
              ]
      ]

  pub head_end-segment :
      m.log.head_position < segment_size - sizeof_segment → segment_of (head_end m) ≡ ls.head
  unfolding head_end
  head_end-segment lt = rw is.log.head (
      ap segment_of (omega arith)
      ∙ segment_of_inside ls.head (sizeof_segment + m.log.head_position)
          (head-IsSegment m ls Live is ne) (omega arith))

  -- The zero length behind the head position is written clear of the live entries.
  pub mark_unused-same : SameLive Live m (mark_unused m)
  unfolding mark_unused write head_room
  mark_unused-same o live = ground (
    arith,
    Live-or_behind o 1 live,
    sub64_small 4072 m.log.head_position is.position,
    is.position,
  )

  pub mark_unused-IsStore : IsStore (mark_unused m) ls Live
  unfolding mark_unused
  mark_unused-IsStore = record {
    log =
        IsLog-keep m ls m.segment (mark_unused m).entry m.log.head_position m.log.current_id
          (λ a. refl) is.log;
    position = is.position;
    segments = is.segments;
    placed = λ o live.
        IsPlaced-keep m (mark_unused m) ls o (mark_unused-same o live) (omega arith)
          (is.placed o live);
  }

  module _ (e : LogEntry)
      (fits : m.log.head_position + sizeof_log_entry + e.length
        ≤ segment_size - sizeof_segment) where
    size-small : log_entry_size e.length ≡ sizeof_log_entry + e.length
    unfolding log_entry_size
    size-small = add64_small sizeof_log_entry e.length (omega arith)

    write_entry-same : SameLive Live m (write_entry m e (log_entry_size e.length))
    unfolding write_entry write
    write_entry-same o live = ground (arith, Live-or_behind o 32 live)

    write_entry-at : (write_entry m e (log_entry_size e.length)).entry (head_end m) ≡ e
    unfolding write_entry write
    write_entry-at = ground arith

    write_entry-position :
        (write_entry m e (log_entry_size e.length)).log.head_position
        ≡ m.log.head_position + sizeof_log_entry + e.length
    unfolding write_entry
    write_entry-position =
        rw size-small (
          add64_small m.log.head_position (sizeof_log_entry + e.length) (omega arith) ∙ omega arith)

    write_entry-IsLog : IsLog (write_entry m e (log_entry_size e.length)) ls
    unfolding write_entry
    write_entry-IsLog =
        IsLog-keep m ls _ _ _ _ (set_used_space-next m.segment m.log.head_segment _) is.log

    write_entry-IsPlaced : IsPlaced (write_entry m e (log_entry_size e.length)) ls (head_end m)
    write_entry-IsPlaced =
        let home = head_end-segment (omega arith) in
        let end = head_end_lem m in
        let head = is.log.head in
        record {
          segment = subst IsSegment (sym home) (head-IsSegment m ls Live is ne);
          above = omega arith;
          below = rw write_entry-at (omega arith);
          not_free = rw home (ground (arith, is.log.apart ls.head));
          behind = λ _. rw write_entry-at (omega (arith, write_entry-position));
        }

    pub write_entry-Stored :
        Stored m Live e (write_entry m e (log_entry_size e.length)) (head_end m) ls
    write_entry-Stored = record {
      nonzero = λ z. absurd (omega (arith, head_end_lem m));
      at = write_entry-at;
      store = record {
        log = write_entry-IsLog;
        position = omega (arith, write_entry-position);
        segments = is.segments;
        placed = λ o. elim [
          | inl live ↦
              IsPlaced-keep m (write_entry m e (log_entry_size e.length)) ls o
                (write_entry-same o live) (omega (arith, write_entry-position)) (is.placed o live)
          | inr here ↦
              subst (IsPlaced (write_entry m e (log_entry_size e.length)) ls) (sym here)
                write_entry-IsPlaced
        ];
      };
      same = write_entry-same;
      apart = λ o live.
          rw (write_entry-same o live, write_entry-at)
            (omega (arith, Live-or_behind o (sizeof_log_entry + e.length) live (omega arith)));
    }
