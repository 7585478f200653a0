-- ===== src/Program/Dump.antt =====
-- The functions of project/main.c that print the lists of segments.
use log_heap_pmem.Base.{
  ℕ, zero, suc, ◌<◌, ◌≡◌, ◌≢◌, arith, ◌∙◌, List, [], ◌∷◌, map, length, ok, fault, Run, ◌>>=◌, ==_ne,
  last_or,
}
use log_heap_pmem.Types.{Offset, Memory, Segments, SegmentList, offset_to_pointer}
use log_heap_pmem.Types.Chain.{Chain, IsList, Chain-last_ne}
use log_heap_pmem.Log.Lists.{Lists, IsLog}
use log_heap_pmem.Program.{
  dump_seg_ids, dump_last_id, dump_used_seg_ids, dump_free_seg_ids, dump_emergency_cleaner_seg_ids,
  dump_cleaner_seg_ids,
}

dump_seg_ids-suc :
    (fuel : ℕ) (segs : Segments) (p : Offset)
    → p ≢ 0
    → dump_seg_ids (suc fuel) segs p
      ≡ (dump_seg_ids fuel segs (segs p).next_segment >>= λ ids. ok ((segs p).id ∷ ids))
unfolding dump_seg_ids offset_to_pointer
dump_seg_ids-suc fuel segs p ne = rw (==_ne p 0 ne, dump_seg_ids)

pub dump_seg_ids-Chain :
    (fuel : ℕ) (segs : Segments) (p : Offset) (xs : List ℕ)
    → Chain segs 0 p xs
    → length xs < fuel
    → dump_seg_ids fuel segs p ≡ ok (map (λ a. (segs a).id) xs)
unfolding dump_seg_ids offset_to_pointer
dump_seg_ids-Chain zero segs p xs c enough = absurd (omega (arith, enough))
dump_seg_ids-Chain (suc fuel) segs p [] c enough = rw c
dump_seg_ids-Chain (suc fuel) segs p (x ∷ xs) (e, ne, c) enough = rw e (
    dump_seg_ids-suc fuel segs x ne
    ∙ rw (dump_seg_ids-Chain fuel segs (segs x).next_segment xs c (omega (arith, enough))))

-- What printing a list gives: its identifiers in order and the one of its last segment.
abbrev pub Printed : Segments → List ℕ → Run (List ℕ × ℕ)
Printed segs [] = fault
Printed segs (x ∷ xs) = ok (map (λ a. (segs a).id) (x ∷ xs), (segs (last_or x xs)).id)

dump_last_id-some : (segs : Segments) (p : Offset) → p ≢ 0 → dump_last_id segs p ≡ ok (segs p).id
unfolding dump_last_id offset_to_pointer
dump_last_id-some segs p ne = rw (==_ne p 0 ne, dump_last_id)

dump-Printed :
    (fuel : ℕ) (segs : Segments) (l : SegmentList) (xs : List ℕ)
    → IsList segs l xs
    → length xs < fuel
    → (do ids ← dump_seg_ids fuel segs l.first; last ← dump_last_id segs l.last; ok (ids, last))
      ≡ Printed segs xs
unfolding dump_last_id offset_to_pointer
dump-Printed fuel segs l [] is enough =
    rw (dump_seg_ids-Chain fuel segs l.first [] is.chain enough, is.last)
dump-Printed fuel segs l (x ∷ xs) is enough = rw (
  dump_seg_ids-Chain fuel segs l.first (x ∷ xs) is.chain enough,
  is.last,
  dump_last_id-some segs (last_or x xs) (Chain-last_ne segs 0 l.first x xs is.chain),
)

-- On a memory that holds the log's lists, with fuel above their lengths, the functions that print the
-- free, the used and the emergency segments give the identifiers in order and the last one's, and
-- follow NULL if the list is empty; the one for the cleaner segments gives the identifiers in order.
pub dump-lists :
    (fuel : ℕ) (m : Memory) (ls : Lists)
    → IsLog m ls
    → length ls.free < fuel
    → length ls.used < fuel
    → length ls.cleaner < fuel
    → length ls.emergency < fuel
    → (dump_free_seg_ids fuel m ≡ Printed m.segment ls.free)
      × (dump_used_seg_ids fuel m ≡ Printed m.segment ls.used)
      × (dump_cleaner_seg_ids fuel m ≡ ok (map (λ a. (m.segment a).id) ls.cleaner))
      × (dump_emergency_cleaner_seg_ids fuel m ≡ Printed m.segment ls.emergency)
unfolding dump_free_seg_ids dump_used_seg_ids dump_cleaner_seg_ids dump_emergency_cleaner_seg_ids
dump-lists fuel m ls is f u c e = (
  dump-Printed fuel m.segment m.log.free ls.free is.free f,
  dump-Printed fuel m.segment m.log.used ls.used is.used u,
  dump_seg_ids-Chain fuel m.segment m.log.cleaner.first ls.cleaner is.cleaner.chain c,
  dump-Printed fuel m.segment m.log.emergency ls.emergency is.emergency e,
)
