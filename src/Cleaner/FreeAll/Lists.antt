-- ===== src/Cleaner/FreeAll/Lists.antt =====
-- `append_all_cleaner_segments_to_free_segments` (project/cleaner.c) against the lists of segments.
use log_heap_pmem.Base.{
  ℕ, zero, suc, ◌<◌, ◌≤◌, ◌≡◌, ◌≢◌, refl, ap, subst, sym, ◌∙◌, List, [], ◌∷◌, ◌++◌, arith, ◌∈◌, ◌∉◌,
  has-append, ==_iff, ==_ne, length, ok, le→ltb, lt→ltb,
}
use log_heap_pmem.Base.Words.{add64_small}
use log_heap_pmem.Types.{
  Memory, Offset, Segment, Segments, SegmentList, attach, set_used_space,
  emergency_cleaner_segment_count, offset_to_pointer,
}
use log_heap_pmem.Types.Chain.{
  Chain, Chain-frame, IsList, IsList-frame, attach-next, attach-last, set_used_space-next,
  last_or-mem,
}
use log_heap_pmem.Log.Lists.{Lists, IsLog, IsLog-keep, places}
use log_heap_pmem.Cleaner.{refill_emergency_cleaner_segment}
use log_heap_pmem.Cleaner.Release.{join-IsList, append_nil}
use log_heap_pmem.Cleaner.FreeAll.{
  clear_used_space, refill_first, refill_emergency, append_all_cleaner_segments_to_free_segments,
}

clear_used_space-suc :
    (fuel : ℕ) (segs : Segments) (p : Offset)
    → p ≢ 0
    → clear_used_space (suc fuel) segs p
      ≡ clear_used_space fuel (set_used_space segs p 0) ((set_used_space segs p 0) p).next_segment
unfolding clear_used_space offset_to_pointer
clear_used_space-suc fuel segs p ne = rw (==_ne p 0 ne, clear_used_space)

clear_used_space-next :
    (fuel : ℕ) (segs : Segments) (p : Offset) (xs : List ℕ)
    → Chain segs 0 p xs
    → length xs < fuel
    → (segs' : Segments) × (clear_used_space fuel segs p ≡ ok segs')
      × ((a : Offset) → (segs' a).next_segment ≡ (segs a).next_segment)
unfolding clear_used_space offset_to_pointer
clear_used_space-next zero segs p xs c enough = absurd (omega (arith, enough))
clear_used_space-next (suc fuel) segs p [] c enough = (segs, rw c, λ a. refl)
clear_used_space-next (suc fuel) segs p (x ∷ xs) (e, ne, c) enough =
    let cleared = set_used_space segs x 0 in
    let same : (a : Offset) → (cleared a).next_segment ≡ (segs a).next_segment =
      set_used_space-next segs x 0 in
    let c' = Chain-frame segs cleared 0 (segs x).next_segment xs (λ a _. same a) c in
    let (segs', run, kept) =
      clear_used_space-next fuel cleared (cleared x).next_segment xs (rw (same x) c')
        (omega (arith, enough)) in
    (
      segs',
      subst (λ (q : Offset). clear_used_space (suc fuel) segs q ≡ ok segs') (sym e)
          (clear_used_space-suc fuel segs x ne ∙ run),
      λ a. kept a ∙ same a,
    )

clear_used_space-end : (fuel : ℕ) (segs : Segments) → clear_used_space (suc fuel) segs 0 ≡ ok segs
unfolding clear_used_space offset_to_pointer
clear_used_space-end fuel segs = refl

refill_emergency-short :
    (fuel : ℕ) (m : Memory)
    → m.log.current_emergency_cleaner_segments_count < emergency_cleaner_segment_count
    → m.log.cleaner.first ≢ 0
    → refill_emergency (suc fuel) m ≡ refill_emergency fuel (refill_first m)
unfolding refill_emergency
refill_emergency-short fuel m short some = rw (
  lt→ltb m.log.current_emergency_cleaner_segments_count emergency_cleaner_segment_count short,
  ==_ne m.log.cleaner.first 0 some,
)

refill_emergency-enough :
    (fuel : ℕ) (m : Memory)
    → emergency_cleaner_segment_count ≤ m.log.current_emergency_cleaner_segments_count
    → refill_emergency (suc fuel) m ≡ ok m
unfolding refill_emergency
refill_emergency-enough fuel m enough =
    rw
      (le→ltb m.log.current_emergency_cleaner_segments_count emergency_cleaner_segment_count enough)

module _ (m : Memory) (ls : Lists) (is : IsLog m ls) where
  free_all-IsLog :
      (cs : List ℕ) (fuel : ℕ)
      → ls.cleaner ≡ cs
      → length cs < fuel
      → emergency_cleaner_segment_count ≤ m.log.current_emergency_cleaner_segments_count
      → (m' : Memory) × (append_all_cleaner_segments_to_free_segments fuel m ≡ ok m')
        × IsLog m' (record ls { free = ls.free ++ cs; cleaner = [] })
  unfolding append_all_cleaner_segments_to_free_segments
  free_all-IsLog cs zero e enough ample = absurd (omega (arith, enough))
  free_all-IsLog [] (suc fuel) e enough ample =
      let empty = subst (IsList m.segment m.log.cleaner) e is.cleaner in
      (
        m,
        rw ((==_iff m.log.cleaner.first 0).1 empty.chain),
        rw (append_nil ls.free) (record {
          free = is.free;
          used = is.used;
          cleaner = empty;
          emergency = is.emergency;
          head = is.head;
          head_next = is.head_next;
          apart = λ a. ground (arith, is.apart a);
        }),
      )
  free_all-IsLog (c ∷ cs) (suc fuel) e enough ample =
      let (segs, run, next) =
        clear_used_space-next (suc fuel) m.segment m.log.cleaner.first (c ∷ cs)
          (subst (Chain m.segment 0 m.log.cleaner.first) e is.cleaner.chain) enough in
      let q = record m { segment = segs } in
      let js = IsLog-keep m ls segs m.entry m.log.head_position m.log.current_id next is in
      let full = subst (IsList segs m.log.cleaner) e js.cleaner in
      let first : m.log.cleaner.first ≡ c = full.chain.0 in
      let apart : (a : ℕ) → places a (record ls { cleaner = c ∷ cs }) ≤ 1 =
        λ a. subst (λ ys. places a (record ls { cleaner = ys }) ≤ 1) e (is.apart a) in
      let same : (a : ℕ)
          → a ∉ ls.free
          → ((attach segs m.log.free c).0 a).next_segment ≡ (segs a).next_segment =
        λ a out.
          ap (λ (s : Segment). s.next_segment)
            (attach-next segs m.log.free ls.free c a js.free out) in
      (
        record m {
          segment = (attach segs m.log.free c).0;
          log = record m.log {
            free = record (attach segs m.log.free c).1 { last = m.log.cleaner.last };
            cleaner = record { first = 0; last = 0 };
          };
        },
        rw (run, refill_emergency-enough fuel q ample, first, ==_ne c 0 full.chain.1),
        record {
          free =
              join-IsList segs m.log.free m.log.cleaner ls.free c cs js.free full
                (λ a i. ground (arith, apart a));
          used =
              IsList-frame segs _ m.log.used ls.used (λ a i. same a (ground (arith, apart a)))
                js.used;
          cleaner = record { chain = refl; last = refl; distinct = tt };
          emergency =
              IsList-frame segs _ m.log.emergency ls.emergency
                (λ a i. same a (ground (arith, apart a))) js.emergency;
          head = js.head;
          head_next = λ ne. same ls.head (ground (arith, apart ls.head)) ∙ js.head_next ne;
          apart = λ a. ground (arith, apart a, has-append a ls.free (c ∷ cs));
        },
      )

  -- On a memory that holds the log's lists, with enough emergency segments and fuel above the number of
  -- cleaner segments, the call returns, and all cleaner segments move in their order behind the
  -- free segments; the other lists keep.
  pub append_all_to_free-IsLog :
      (fuel : ℕ)
      → length ls.cleaner < fuel
      → emergency_cleaner_segment_count ≤ m.log.current_emergency_cleaner_segments_count
      → (m' : Memory) × (append_all_cleaner_segments_to_free_segments fuel m ≡ ok m')
        × IsLog m' (record ls { free = ls.free ++ ls.cleaner; cleaner = [] })
  append_all_to_free-IsLog fuel = free_all-IsLog ls.cleaner fuel refl

last-∈ :
    (segs : Segments) (l : SegmentList) (xs : List ℕ) → IsList segs l xs → l.last ≢ 0 → l.last ∈ xs
last-∈ segs l [] is ne = absurd (ne is.last)
last-∈ segs l (x ∷ xs) is ne = subst (λ (a : ℕ). a ∈ x ∷ xs) (sym is.last) (last_or-mem x xs)

module _ (m : Memory) (x : Offset) (first : m.log.cleaner.first ≡ x) (last : m.log.cleaner.last ≡ x)
    (some : x ≢ 0) (next : (m.segment x).next_segment ≡ 0)
    (short : m.log.current_emergency_cleaner_segments_count ≡ 0) where
  abbrev cleared : Memory
  cleared = record m { segment = set_used_space m.segment x 0 }

  clear_one : (fuel : ℕ) → clear_used_space (suc (suc fuel)) m.segment x ≡ ok cleared.segment
  clear_one fuel =
      clear_used_space-suc (suc fuel) m.segment x some
      ∙ ap (clear_used_space (suc fuel) cleared.segment)
          (set_used_space-next m.segment x 0 x ∙ next)
      ∙ clear_used_space-end fuel cleared.segment

  refill_one : (fuel : ℕ) → refill_emergency (suc (suc fuel)) cleared ≡ ok (refill_first cleared)
  unfolding refill_first refill_emergency_cleaner_segment
  refill_one fuel =
      refill_emergency-short (suc fuel) cleared (omega (arith, short)) (λ z. some (sym first ∙ z))
      ∙ refill_emergency-enough fuel (refill_first cleared)
          (omega (arith, short, add64_small m.log.current_emergency_cleaner_segments_count 1))

  -- What the call leaves: its last part on `r`.
  abbrev left : Memory → Memory
  left r =
      let (segs, free) = attach r.segment r.log.free r.log.cleaner.first in
      record r {
        segment = segs;
        log = record r.log {
          free = record free { last = r.log.cleaner.last };
          cleaner = record { first = 0; last = 0 };
        };
      }

  free_one :
      (fuel : ℕ)
      → append_all_cleaner_segments_to_free_segments (suc (suc fuel)) m
        ≡ ok (left (refill_first cleared))
  unfolding append_all_cleaner_segments_to_free_segments
  free_one fuel =
      let clear =
        subst (λ (q : Offset). clear_used_space (suc (suc fuel)) m.segment q ≡ ok cleared.segment)
          (sym first) (clear_one fuel) in
      rw (==_ne m.log.cleaner.first 0 (λ z. some (sym first ∙ z)), clear, refill_one fuel)

  -- With one cleaner segment and an emergency list that is short of segments, the call returns, but
  -- no lists of segments without a segment in two places describe what it leaves: the cleaner segment
  -- is the last free and the last emergency segment.
  append_all_to_free-shares :
      (fuel : ℕ)
      → (m' : Memory) × (append_all_cleaner_segments_to_free_segments (suc (suc fuel)) m ≡ ok m')
        × ((ls : Lists) → ¬ IsLog m' ls)
  unfolding refill_first refill_emergency_cleaner_segment
  append_all_to_free-shares fuel =
      let m' = left (refill_first cleared) in
      (
        m',
        free_one fuel,
        λ ls is.
            let free_last : m'.log.free.last ≡ x = last in
            let emergency_last : m'.log.emergency.last ≡ x =
              attach-last cleared.segment cleared.log.emergency cleared.log.cleaner.first ∙ first in
            let in_free : x ∈ ls.free =
              subst (λ (b : ℕ). b ∈ ls.free) free_last
                (last-∈ m'.segment m'.log.free ls.free is.free (λ z. some (sym free_last ∙ z))) in
            let in_emergency : x ∈ ls.emergency =
              subst (λ (b : ℕ). b ∈ ls.emergency) emergency_last
                (last-∈ m'.segment m'.log.emergency ls.emergency is.emergency
                  (λ z. some (sym emergency_last ∙ z))) in
            ground (arith, is.apart x, in_free, in_emergency),
      )
