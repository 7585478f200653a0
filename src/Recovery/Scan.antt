-- ===== src/Recovery/Scan.antt =====
-- The loops of `reconstruct_hash_table` (project/hash_table.c) over the entries of the segments.
use log_heap_pmem.Base.{
  ℕ, zero, suc, ◌+◌, ◌<◌, ◌≤◌, ◌≡◌, ◌≢◌, refl, arith, sym, ◌∙◌, List, [], ◌∷◌, ◌++◌, ◌>>=◌,
  >>=-cong, >>=-assoc, All, All-append, ==_ne, lt→ltb, le→ltb, inl, inr, ◌⊎◌, length,
}
use log_heap_pmem.Base.Words.{add64, as_int, add64_small, as_int_small}
use log_heap_pmem.Types.{Offset, Memory, segment_size, offset_to_pointer}
use log_heap_pmem.Log.{log_entry_size}
use log_heap_pmem.Glib.{GHashTable}
use log_heap_pmem.Recovery.{
  entry_at, scan_limit, note_entry, scan_used, scan_segments, scan_head, scan_head_segment,
}
use log_heap_pmem.Recovery.Notes.{notes}

-- Where the entry that starts at `pos` ends.
abbrev pub behind : Memory → Offset → ℕ → ℕ
behind m seg pos = pos + log_entry_size (m.entry (entry_at seg pos)).length

-- Entries at `pos` and behind it that are not empty and inside the segment: the ones that the loop
-- over a used segment reads, up to its end or a zero length.
abbrev pub UsedEntries : Memory → Offset → ℕ → List Offset → Type 0
UsedEntries m seg pos [] = (scan_limit ≤ pos) ⊎ ((m.entry (entry_at seg pos)).length ≡ 0)
UsedEntries m seg pos (off ∷ offs) =
    (off ≡ entry_at seg pos)
    × (pos < scan_limit)
    × ((m.entry (entry_at seg pos)).length ≢ 0)
    × (behind m seg pos ≤ segment_size)
    × UsedEntries m seg (behind m seg pos) offs

-- The same for the head segment, whose entries end at the head position.
abbrev pub HeadEntries : Memory → Offset → ℕ → List Offset → Type 0
HeadEntries m seg pos [] = m.log.head_position ≤ pos
HeadEntries m seg pos (off ∷ offs) =
    (off ≡ entry_at seg pos)
    × (pos < m.log.head_position)
    × (behind m seg pos ≤ segment_size)
    × HeadEntries m seg (behind m seg pos) offs

-- The list of used segments from `p` on, each with the entries that lie in it.
abbrev pub UsedSegments : Memory → Offset → List (Offset × List Offset) → Type 0
UsedSegments m p [] = p ≡ 0
UsedSegments m p ((seg, offs) ∷ segs) =
    (p ≡ seg)
    × (seg ≢ 0)
    × UsedEntries m seg 0 offs
    × UsedSegments m (m.segment seg).next_segment segs

abbrev pub entries_of : List (Offset × List Offset) → List Offset
entries_of [] = []
entries_of ((seg, offs) ∷ segs) = offs ++ entries_of segs

-- There is a head segment, and these are its entries.
abbrev pub HeadSegment : Memory → List Offset → Type 0
HeadSegment m offs = (m.log.head_segment ≢ 0) × HeadEntries m m.log.head_segment 0 offs

UsedEntries-nonzero :
    (m : Memory) (seg : Offset) (pos : ℕ) (offs : List Offset)
    → UsedEntries m seg pos offs
    → All (λ off. off ≢ 0) offs
UsedEntries-nonzero m seg pos [] u = tt
UsedEntries-nonzero m seg pos (off ∷ offs) (e, _, _, _, u) =
    (λ z. omega (arith, e, z), UsedEntries-nonzero m seg (behind m seg pos) offs u)

pub HeadEntries-nonzero :
    (m : Memory) (seg : Offset) (pos : ℕ) (offs : List Offset)
    → HeadEntries m seg pos offs
    → All (λ off. off ≢ 0) offs
HeadEntries-nonzero m seg pos [] u = tt
HeadEntries-nonzero m seg pos (off ∷ offs) (e, _, _, u) =
    (λ z. omega (arith, e, z), HeadEntries-nonzero m seg (behind m seg pos) offs u)

pub used-nonzero :
    (m : Memory) (p : Offset) (segs : List (Offset × List Offset))
    → UsedSegments m p segs
    → All (λ off. off ≢ 0) (entries_of segs)
used-nonzero m p [] u = tt
used-nonzero m p ((seg, offs) ∷ segs) (_, _, u, us) =
    All-append (λ off. off ≢ 0) offs (entries_of segs) (UsedEntries-nonzero m seg 0 offs u)
      (used-nonzero m (m.segment seg).next_segment segs us)

pub next_position :
    (m : Memory) (seg : Offset) (pos : ℕ)
    → behind m seg pos ≤ segment_size
    → as_int (add64 pos (log_entry_size (m.entry (entry_at seg pos)).length)) ≡ behind m seg pos
next_position m seg pos b =
    let size = log_entry_size (m.entry (entry_at seg pos)).length in
    rw (add64_small pos size (omega arith)) (as_int_small (pos + size) (omega arith))

module _ (glib : GHashTable) where
  open glib use {Table}

  pub scan_used-notes :
      (fuel : ℕ) (m : Memory) (seg : Offset) (pos : ℕ) (t : Table) (offs : List Offset)
      → UsedEntries m seg pos offs
      → length offs < fuel
      → scan_used glib fuel m seg pos t ≡ notes glib m t offs
  unfolding scan_used notes
  scan_used-notes zero m seg pos t offs u f = ground arith
  scan_used-notes (suc fuel) m seg pos t [] (inl u) f = rw (le→ltb pos scan_limit u)
  scan_used-notes (suc fuel) m seg pos t [] (inr u) f = ground (arith, u)
  scan_used-notes (suc fuel) m seg pos t (off ∷ offs) (e, l, n, b, u) f =
      rw
        (
          e,
          lt→ltb pos scan_limit l,
          ==_ne (m.entry (entry_at seg pos)).length 0 n,
          next_position m seg pos b,
        )
        (>>=-cong (note_entry glib m t (entry_at seg pos))
          (λ t'. scan_used-notes fuel m seg (behind m seg pos) t' offs u (omega arith)))

  pub scan_head-notes :
      (fuel : ℕ) (m : Memory) (seg : Offset) (pos : ℕ) (t : Table) (offs : List Offset)
      → HeadEntries m seg pos offs
      → length offs < fuel
      → scan_head glib fuel m seg pos t ≡ notes glib m t offs
  unfolding scan_head notes
  scan_head-notes zero m seg pos t offs u f = ground arith
  scan_head-notes (suc fuel) m seg pos t [] u f = rw (le→ltb pos m.log.head_position u)
  scan_head-notes (suc fuel) m seg pos t (off ∷ offs) (e, l, b, u) f =
      rw (e, lt→ltb pos m.log.head_position l, next_position m seg pos b)
        (>>=-cong (note_entry glib m t (entry_at seg pos))
          (λ t'. scan_head-notes fuel m seg (behind m seg pos) t' offs u (omega arith)))

  pub notes-append :
      (m : Memory) (t : Table) (xs ys : List Offset)
      → notes glib m t (xs ++ ys) ≡ (notes glib m t xs >>= λ t. notes glib m t ys)
  unfolding notes
  notes-append m t [] ys = refl
  notes-append m t (x ∷ xs) ys =
      >>=-cong (note_entry glib m t x) (λ t'. notes-append m t' xs ys)
      ∙ sym
          (>>=-assoc (note_entry glib m t x) (λ t'. notes glib m t' xs) (λ t'. notes glib m t' ys))

  pub scan_segments-notes :
      (fuel steps : ℕ) (m : Memory) (p : Offset) (t : Table) (segs : List (Offset × List Offset))
      → UsedSegments m p segs
      → All (λ s. length s.1 < steps) segs
      → length segs < fuel
      → scan_segments glib fuel steps m p t ≡ notes glib m t (entries_of segs)
  unfolding scan_segments offset_to_pointer notes
  scan_segments-notes zero steps m p t segs u a f = ground arith
  scan_segments-notes (suc fuel) steps m p t [] u a f = rw (u)
  scan_segments-notes (suc fuel) steps m p t ((seg, offs) ∷ segs) (e, n, u, us) (a, rest) f =
      rw (e, ==_ne seg 0 n, scan_used-notes steps m seg 0 t offs u a, scan_segments)
        (>>=-cong (notes glib m t offs) (λ t'.
            scan_segments-notes fuel steps m (m.segment seg).next_segment t' segs us rest
              (omega arith))
          ∙ sym (notes-append m t offs (entries_of segs)))

  pub scan_head_segment-notes :
      (steps : ℕ) (m : Memory) (t : Table) (offs : List Offset)
      → HeadSegment m offs
      → length offs < steps
      → scan_head_segment glib steps m t ≡ notes glib m t offs
  unfolding scan_head_segment offset_to_pointer
  scan_head_segment-notes steps m t offs (n, u) f =
      rw (==_ne m.log.head_segment 0 n, scan_head_segment)
        (scan_head-notes steps m m.log.head_segment 0 t offs u f)
