-- ===== src/Recovery/Rebuild.antt =====
-- project/hash_table.c, `reconstruct_hash_table` without a cleaner segment on its list.
use log_heap_pmem.Base.{
  ℕ, zero, suc, >>=-ok, All-append, ◌<◌, ◌≡◌, ◌≢◌, sym, subst, ap, ◌∙◌, arith, none, List, ◌++◌, ok,
  All, length, has, >>=-cong,
}
use log_heap_pmem.Types.{Offset, Memory, offset_to_pointer}
use log_heap_pmem.Glib.{GHashTable}
use log_heap_pmem.Recovery.{scan_cleaners, scan_head_segment, reconstruct_hash_table}
use log_heap_pmem.Recovery.Notes.{
  entry_of_new, notes, entry_of, newest, newest_from, notes-newest_from,
}
use log_heap_pmem.Recovery.Newest.{IsNewest, newest-IsNewest}
use log_heap_pmem.Recovery.Scan.{
  UsedSegments, HeadSegment, entries_of, scan_segments-notes, scan_head_segment-notes, notes-append,
  used-nonzero, HeadEntries-nonzero,
}

module _ (glib : GHashTable) where
  open glib use {Table, new, contains, contains-new}

  scan_cleaners-none :
      (fuel steps : ℕ) (m : Memory) (p : Offset) (t : Table)
      → p ≡ 0
      → scan_cleaners glib (suc fuel) steps m p t ≡ ok t
  unfolding scan_cleaners offset_to_pointer
  scan_cleaners-none fuel steps m p t e = rw (e, scan_cleaners)

  pub reconstruct-notes :
      (fuel steps : ℕ) (m : Memory) (t : Table) (segs : List (Offset × List Offset))
      (head : List Offset)
      → UsedSegments m m.log.used.first segs
      → HeadSegment m head
      → m.log.cleaner.first ≡ 0
      → All (λ s. length s.1 < steps) segs
      → length head < steps
      → length segs < fuel
      → reconstruct_hash_table glib fuel steps m t ≡ notes glib m t (entries_of segs ++ head)
  unfolding reconstruct_hash_table
  reconstruct-notes zero steps m t segs head u h c a l f = ground arith
  reconstruct-notes (suc fuel) steps m t segs head u h c a l f =
      rw (scan_segments-notes glib (suc fuel) steps m m.log.used.first t segs u a f) (
        >>=-cong (notes glib m t (entries_of segs)) (λ t'.
          >>=-cong (scan_head_segment glib steps m t')
            (λ t''. scan_cleaners-none fuel steps m m.log.cleaner.first t'' c)
          ∙ (>>=-ok (scan_head_segment glib steps m t')
              ∙ scan_head_segment-notes glib steps m t' head h l))
        ∙ sym (notes-append glib m t (entries_of segs) head))

  -- The log's used segments and its head segment hold the entries `entries_of segs ++ head`, no
  -- cleaner segment is on its list, and the fuel is above the number of segments and of entries in
  -- a segment. Then the run on an empty table returns a table that has for each identifier a newest
  -- version of it among the entries that are not marked deleted, and none if there is no such entry.
  pub reconstruct-IsNewest :
      (fuel steps : ℕ) (m : Memory) (segs : List (Offset × List Offset)) (head : List Offset)
      → UsedSegments m m.log.used.first segs
      → HeadSegment m head
      → m.log.cleaner.first ≡ 0
      → All (λ s. length s.1 < steps) segs
      → length head < steps
      → length segs < fuel
      → (t : Table) × (reconstruct_hash_table glib fuel steps m new ≡ ok t)
        × ((id : ℕ) → IsNewest m id (λ o. has o (entries_of segs ++ head)) (entry_of glib t id))
  unfolding newest newest_from
  reconstruct-IsNewest fuel steps m segs head u h c a l f =
      let offs = entries_of segs ++ head in
      let (t, run, _, best) =
        notes-newest_from glib m new offs (λ j k. ground (arith, k, contains-new j))
          (All-append (λ off. off ≢ 0) (entries_of segs) head
            (used-nonzero m m.log.used.first segs u)
            (HeadEntries-nonzero m m.log.head_segment 0 head h.1)) in
      let empty : (id : ℕ) → entry_of glib new id ≡ none = λ id. entry_of_new glib id in
      (
        t,
        reconstruct-notes fuel steps m new segs head u h c a l f ∙ run,
        λ id.
            subst (IsNewest m id (λ o. has o offs))
              (sym (best id ∙ ap (λ b. newest_from m id b offs) (empty id)))
              (newest-IsNewest m id offs),
      )
