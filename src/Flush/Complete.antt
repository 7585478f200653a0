-- ===== src/Flush/Complete.antt =====
-- project/log.c, `append_to_log`: what the recovery finds after a crash while an entry is appended.
use log_heap_pmem.Base.{
  ℕ, ◌+◌, ◌-◌, ◌≤◌, ◌<◌, ◌≡◌, ◌≢◌, ◌⊎◌, inl, inr, refl, arith, sym, ap, ◌∙◌, List, [], ◌∷◌, All,
  All-append, length, length-append, ◌++◌, Run, ◌>>=◌, >>=-ok, >>=-cong,
}
use mathlib.Core.List.{append_assoc}
use log_heap_pmem.Base.Words.{add64}
use log_heap_pmem.Types.{
  Offset, Memory, LogEntry, segment_size, sizeof_segment, sizeof_log_entry, write,
}
use log_heap_pmem.Types.Chain.{set_used_space-next}
use log_heap_pmem.Glib.{GHashTable}
use log_heap_pmem.Log.{append_to_log, write_entry, head_end, log_entry_size}
use log_heap_pmem.Log.Lists.{Lists}
use log_heap_pmem.Store.{IsStore, SameLive}
use log_heap_pmem.Recovery.{note_entry, reconstruct_hash_table}
use log_heap_pmem.Recovery.Notes.{notes}
use log_heap_pmem.Recovery.Scan.{UsedSegments, HeadSegment, entries_of, behind, notes-append}
use log_heap_pmem.Recovery.Rebuild.{reconstruct-notes}
use log_heap_pmem.Recovery.Frame.{UsedSegments-frame, HeadEntries-frame, notes-frame}
use log_heap_pmem.Recovery.Snoc.{end_of, HeadEntries-snoc}
use log_heap_pmem.Flush.{AppendState}
use log_heap_pmem.Flush.Append.{
  head_end-Clear, head_end-Clear_head, append_to_log-fits, append_to_log-crash,
}

module _ (m : Memory) (ls : Lists) (Live : Offset → Type 0) (is : IsStore m ls Live)
    (ne : ls.head ≢ 0) (glib : GHashTable) (fuel steps : ℕ) (segs : List (Offset × List Offset))
    (head : List Offset) (used : UsedSegments m m.log.used.first segs)
    (at_head : HeadSegment m head) (stop : end_of m m.log.head_segment 0 head ≡ m.log.head_position)
    (idle : m.log.cleaner.first ≡ 0) (short : All (λ s. length s.1 < steps) segs)
    (short_head : length head + 1 < steps) (few : length segs < fuel) (e : LogEntry)
    (fits : m.log.head_position + sizeof_log_entry + e.length ≤ segment_size - sizeof_segment) where
  open glib use {new}

  -- The memory with the whole entry in it.
  abbrev whole : Memory
  whole = write_entry m e (log_entry_size e.length)

  whole-same : (o : Offset) → o ≢ head_end m → whole.entry o ≡ m.entry o
  unfolding write_entry write
  whole-same o other = ground (arith, other)

  whole-end : whole.log.head_position ≡ m.log.head_position + sizeof_log_entry + e.length
  unfolding write_entry log_entry_size add64
  whole-end = omega (arith, fits)

  whole-behind : behind whole m.log.head_segment m.log.head_position ≡ whole.log.head_position
  unfolding write_entry write head_end log_entry_size
  whole-behind = ground (arith, whole-end)

  -- The head segment has the new entry as its last one.
  whole-HeadSegment : HeadSegment whole (head ++ head_end m ∷ [])
  unfolding write_entry head_end
  whole-HeadSegment = (
    at_head.0,
    HeadEntries-snoc m whole (head_end m) whole-same m.log.head_segment refl
        (omega (arith, whole-end)) whole-behind (omega (arith, whole-end))
        (head_end-Clear_head m ls Live is ne) 0 head stop at_head.1,
  )

  whole-next : (a : Offset) → (whole.segment a).next_segment ≡ (m.segment a).next_segment
  unfolding write_entry
  whole-next = set_used_space-next m.segment m.log.head_segment _

  reconstruct_whole :
      reconstruct_hash_table glib fuel steps whole new
      ≡ (reconstruct_hash_table glib fuel steps m new >>= λ t. note_entry glib whole t (head_end m))
  unfolding notes write_entry
  reconstruct_whole =
      let p = head_end m in
      let offs = entries_of segs ++ head in
      let (used', clear) =
        UsedSegments-frame m whole p whole-same whole-next m.log.used.first segs ls.used
          is.log.used.chain (head_end-Clear m ls Live is ne) used in
      let (_, clear_head) =
        HeadEntries-frame m (record whole { log = m.log }) p whole-same m.log.head_segment 0 head
          refl (head_end-Clear_head m ls Live is ne) at_head.1 in
      let old =
        reconstruct-notes glib fuel steps m new segs head used at_head idle short
          (omega (arith, short_head)) few in
      reconstruct-notes glib fuel steps whole new segs (head ++ p ∷ []) used' whole-HeadSegment idle
        short (omega (arith, length-append head (p ∷ []), short_head)) few
      ∙ ap (notes glib whole new) (sym (append_assoc (entries_of segs) head (p ∷ [])))
      ∙ notes-append glib whole new offs (p ∷ [])
      ∙ >>=-cong (notes glib whole new offs) (λ t. >>=-ok (note_entry glib whole t p))
      ∙ ap (λ (run : Run glib.Table). run >>= λ t. note_entry glib whole t p)
          (notes-frame m whole p whole-same glib new offs
              (λ j c. ground (arith, c, glib.contains-new j))
              (All-append (λ o. o ≢ p) (entries_of segs) head clear clear_head)
            ∙ sym old)

  -- The log is well formed and holds the entries `entries_of segs ++ head`, which end at the head
  -- position, no cleaner segment is on its list, the fuel is above the number of segments and,
  -- after the append, of entries in a segment, and the head segment has room for the entry. A crash
  -- at any point of the append, with any bytes in the place of a copy that was not complete, leaves
  -- a memory in which every live entry reads as before. Its recovery gives the table that the
  -- recovery before the append gives, either as it is, or, in the memory that the whole append
  -- leaves, with the new entry noted in it.
  pub append_to_log-recovered :
      (m' : Memory)
      → AppendState m e m'
      → SameLive Live m m'
        × ((reconstruct_hash_table glib fuel steps m' new
              ≡ reconstruct_hash_table glib fuel steps m new)
            ⊎ ((m' ≡ (append_to_log m e).0)
                × (m'.entry (head_end m) ≡ e)
                × (reconstruct_hash_table glib fuel steps m' new ≡ (
                    reconstruct_hash_table glib fuel steps m new >>= λ t.
                    note_entry glib m' t (head_end m)))))
  unfolding write_entry write
  append_to_log-recovered m' state =
      let (same, outcome) =
        append_to_log-crash m ls Live is ne glib fuel steps segs head used at_head idle short
          (omega (arith, short_head)) few e fits m' state in
      (
        same,
        elim outcome [
          | inl before ↦ inl before
          | inr after ↦
              let is_whole =
                after
                ∙ append_to_log-fits m ls Live is ne glib fuel steps segs head used at_head idle
                    short (omega (arith, short_head)) few e fits in
              inr (after, rw is_whole (ground arith), rw is_whole reconstruct_whole)
        ],
      )
