-- ===== src/Flush/Append.antt =====
-- project/log.c, `append_to_log`: a crash while an entry is appended to a head segment with room.
use log_heap_pmem.Base.{
  ℕ, ◌+◌, ◌-◌, ◌≤◌, ◌<◌, ◌≡◌, ◌≢◌, ◌⊎◌, inl, inr, refl, arith, sym, ◌∙◌, List, All, All-append,
  length, ◌++◌, ◌∈◌,
}
use log_heap_pmem.Types.{
  Offset, Memory, LogEntry, Segments, segment_size, sizeof_segment, sizeof_log_entry, write,
}
use log_heap_pmem.Types.Chain.{set_used_space-next}
use log_heap_pmem.Glib.{GHashTable}
use log_heap_pmem.Log.{append_to_log, write_entry, head_end, log_entry_size}
use log_heap_pmem.Log.Lists.{Lists}
use log_heap_pmem.Store.Append.{append_to_head-fits, ensure_head-some}
use log_heap_pmem.Store.{IsStore, SameLive}
use log_heap_pmem.Store.Segments.{segments_apart}
use log_heap_pmem.Store.Write.{Live-or_behind, head-IsSegment}
use log_heap_pmem.Recovery.{scan_limit, reconstruct_hash_table}
use log_heap_pmem.Recovery.Scan.{UsedSegments, HeadSegment, entries_of}
use log_heap_pmem.Recovery.Rebuild.{reconstruct-notes}
use log_heap_pmem.Recovery.Frame.{Clear, UsedSegments-frame, HeadEntries-frame, notes-frame}
use log_heap_pmem.Flush.{
  AppendState, copy_to_head, count_space, advance_head, before, copying, counted, advanced,
  write_entry-steps,
}

module _ (m : Memory) (ls : Lists) (Live : Offset → Type 0) (is : IsStore m ls Live)
    (ne : ls.head ≢ 0) where
  -- The next entry's place is in no used segment.
  pub head_end-Clear : (a : Offset) → a ∈ ls.used → Clear (head_end m) a scan_limit
  unfolding head_end
  head_end-Clear a i q l e =
      let at = is.log.head in
      let once = is.log.apart a in
      let other : a ≢ ls.head = λ s. ground (arith, once, s, i) in
      let real : a ≢ 0 = λ z. ground (arith, once, z, i) in
      let home = is.segments a real (ground (arith, i)) in
      omega (
        arith,
        at,
        e,
        is.position,
        segments_apart a ls.head home (head-IsSegment m ls Live is ne) other,
      )

  -- The head segment's entries start before it.
  pub head_end-Clear_head : Clear (head_end m) m.log.head_segment m.log.head_position
  unfolding head_end
  head_end-Clear_head q l e = omega (arith, e)

  -- Recovery does not read the next entry's place, nor a fill level.
  module _ (glib : GHashTable) (fuel steps : ℕ) (segs : List (Offset × List Offset))
      (head : List Offset) (used : UsedSegments m m.log.used.first segs)
      (at_head : HeadSegment m head) (idle : m.log.cleaner.first ≡ 0)
      (short : All (λ s. length s.1 < steps) segs) (short_head : length head < steps)
      (few : length segs < fuel) where
    reconstruct-frame :
        (segs' : Segments) (x : LogEntry)
        → ((a : Offset) → (segs' a).next_segment ≡ (m.segment a).next_segment)
        → reconstruct_hash_table glib fuel steps
            (record (copy_to_head m x) { segment = segs' })
            glib.new
          ≡ reconstruct_hash_table glib fuel steps m glib.new
    unfolding copy_to_head write
    reconstruct-frame segs' x next =
        let p = head_end m in
        let m' = record (copy_to_head m x) { segment = segs' } in
        let same : (o : Offset) → o ≢ p → m'.entry o ≡ m.entry o =
          λ o other. ground (arith, other) in
        let (used', clear) =
          UsedSegments-frame m m' p same next m.log.used.first segs ls.used is.log.used.chain
            head_end-Clear used in
        let (head', clear_head) =
          HeadEntries-frame m m' p same m.log.head_segment 0 head refl head_end-Clear_head
            at_head.1 in
        reconstruct-notes glib fuel steps m' glib.new segs head used' (at_head.0, head') idle short
          short_head few
        ∙ notes-frame m m' p same glib glib.new (entries_of segs ++ head)
            (λ j c. ground (arith, c, glib.contains-new j))
            (All-append (λ o. o ≢ p) (entries_of segs) head clear clear_head)
        ∙ sym (
            reconstruct-notes glib fuel steps m glib.new segs head used at_head idle short
              short_head few)

    module _ (e : LogEntry)
        (fits : m.log.head_position + sizeof_log_entry + e.length
          ≤ segment_size - sizeof_segment) where
      pub append_to_log-fits : (append_to_log m e).0 ≡ write_entry m e (log_entry_size e.length)
      unfolding append_to_log
      append_to_log-fits =
          rw (ensure_head-some m at_head.0, append_to_head-fits m ls Live is e (omega arith) fits)
            refl

      -- The copy is clear of the live entries.
      copy_to_head-same : (x : LogEntry) → SameLive Live m (copy_to_head m x)
      unfolding copy_to_head write
      copy_to_head-same x o live =
          ground (arith, Live-or_behind m ls Live is ne o sizeof_log_entry live)

      -- The log is well formed and holds the entries `entries_of segs ++ head`, no cleaner segment is
      -- on its list, the fuel is above the number of segments and of entries in a segment, and the
      -- head segment has room for the entry. A crash at any point of the append, with any bytes in
      -- the place of a copy that was not complete, leaves a memory in which every live entry reads
      -- as before. Either the recovery of that memory gives the table that the recovery before the
      -- append gives, or the memory is the one with the whole entry in it.
      pub append_to_log-crash :
          (m' : Memory)
          → AppendState m e m'
          → SameLive Live m m'
            × ((reconstruct_hash_table glib fuel steps m' glib.new
                  ≡ reconstruct_hash_table glib fuel steps m glib.new)
                ⊎ (m' ≡ (append_to_log m e).0))
      unfolding count_space advance_head copy_to_head
      append_to_log-crash _ before = ((λ o live. refl), inl refl)
      append_to_log-crash _ (copying x) =
          (copy_to_head-same x, inl (reconstruct-frame m.segment x (λ a. refl)))
      append_to_log-crash _ counted = (
        copy_to_head-same e,
        inl (reconstruct-frame _ e (set_used_space-next m.segment m.log.head_segment _)),
      )
      append_to_log-crash _ advanced = (
        copy_to_head-same e,
        inr (write_entry-steps m e (log_entry_size e.length) ∙ sym append_to_log-fits),
      )
