-- ===== src/Recovery/Snoc.antt =====
-- project/hash_table.c, the loop of `reconstruct_hash_table` over the head segment, on a memory
-- that has one entry more at the head position.
use log_heap_pmem.Base.{ℕ, ◌<◌, ◌≤◌, ◌≡◌, ◌≢◌, arith, List, [], ◌∷◌, ◌++◌}
use log_heap_pmem.Types.{Offset, Memory, segment_size}
use log_heap_pmem.Recovery.{entry_at}
use log_heap_pmem.Recovery.Frame.{Clear}
use log_heap_pmem.Recovery.Scan.{HeadEntries, behind}

-- Where the entries, from `pos` on, end.
abbrev pub end_of : Memory → Offset → ℕ → List Offset → ℕ
end_of m seg pos [] = pos
end_of m seg pos (off ∷ offs) = end_of m seg (behind m seg pos) offs

module _ (m m' : Memory) (p : Offset) (same : (o : Offset) → o ≢ p → m'.entry o ≡ m.entry o)
    (seg : Offset) (place : p ≡ entry_at seg m.log.head_position)
    (grown : m.log.head_position < m'.log.head_position)
    (size : behind m' seg m.log.head_position ≡ m'.log.head_position)
    (fits : m'.log.head_position ≤ segment_size) (clear : Clear p seg m.log.head_position) where
  pub HeadEntries-snoc :
      (pos : ℕ) (offs : List Offset)
      → end_of m seg pos offs ≡ m.log.head_position
      → HeadEntries m seg pos offs
      → HeadEntries m' seg pos (offs ++ p ∷ [])
  HeadEntries-snoc pos [] stop u =
      rw stop (place, grown, omega (arith, size, fits), omega (arith, size))
  HeadEntries-snoc pos (off ∷ offs) stop (e, l, b, u) =
      let s = same (entry_at seg pos) (clear pos l) in
      let rest = HeadEntries-snoc (behind m seg pos) offs stop u in
      (e, omega (arith, l, grown), rw s b, rw s rest)
