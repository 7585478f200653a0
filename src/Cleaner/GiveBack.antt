-- ===== src/Cleaner/GiveBack.antt =====
-- project/cleaner.c, `append_cleaned_segment_to_free_segments` against the lists of segments.
use log_heap_pmem.Base.{
  ℕ, ◌<◌, ◌≤◌, ◌≡◌, ◌≢◌, subst, ◌∙◌, List, [], ◌∷◌, ◌++◌, arith, ltb, inl, inr, Bool-cases,
  if◌then◌else◌, ◌∉◌, has-append, ==_ne, true, false, length, ok,
}
use native.Mathlib.Decide.{ℕ_discrete}
use log_heap_pmem.Base.Words.{add64, sub64}
use log_heap_pmem.Types.{
  Offset, Memory, Segments, SegmentList, set_next, attach, set_used_space,
  emergency_cleaner_segment_count,
}
use log_heap_pmem.Types.Chain.{IsList, IsList-frame, set_used_space-next}
use log_heap_pmem.Log.Lists.{Lists, IsLog, places}
use log_heap_pmem.Cleaner.{
  append_cleaned_segment_to_free_segments, give_back, refill_emergency_cleaner_segment,
}
use log_heap_pmem.Cleaner.Unlink.{Lacks, seek-finds, Distinct-split}
use log_heap_pmem.Cleaner.Move.{relocate}

-- Where a segment is given back to: the emergency list while it is short of segments.
unfoldable pub give_back_lists : ℕ → Lists → Offset → List ℕ → Lists
give_back_lists count ls x left =
    if ltb count emergency_cleaner_segment_count
    then record ls { used = left; emergency = ls.emergency ++ x ∷ [] }
    else record ls { used = left; free = ls.free ++ x ∷ [] }

module _ (m : Memory) (ls : Lists) (is : IsLog m ls) (id : ℕ) (pre post : List ℕ) (x : Offset)
    (e : ls.used ≡ pre ++ x ∷ post) (own : (m.segment x).id ≡ id) (before : Lacks m.segment id pre)
    (behind : Lacks m.segment id post) where
  whole : IsList m.segment m.log.used (pre ++ x ∷ post)
  whole = subst (IsList m.segment m.log.used) e is.used

  all_apart : (a : ℕ) → places a (record ls { used = pre ++ x ∷ post }) ≤ 1
  all_apart a = subst (λ zs. places a (record ls { used = zs }) ≤ 1) e (is.apart a)

  x_nonzero : x ≢ 0
  x_nonzero z = ground (arith, all_apart x, has-append x pre (x ∷ post))

  reset-IsList :
      (segs : Segments) (l : SegmentList) (xs : List ℕ)
      → IsList segs l xs
      → IsList (set_used_space segs x 0) l xs
  reset-IsList segs l xs =
      IsList-frame segs (set_used_space segs x 0) l xs (λ a i. set_used_space-next segs x 0 a)

  emergency_apart :
      (a : ℕ) → places a (record ls { used = pre ++ post; emergency = ls.emergency ++ x ∷ [] }) ≤ 1
  emergency_apart a =
      let left = (Distinct-split pre x post whole.distinct).1 in
      let claim = λ (b : ℕ).
        places b (record ls { used = pre ++ post; emergency = ls.emergency ++ x ∷ [] }) ≤ 1 in
      elim (ℕ_discrete x a) [
        | yes p ↦ subst claim p (
            ground (
              arith,
              all_apart x,
              left,
              has-append x pre (x ∷ post),
              has-append x ls.emergency (x ∷ []),
            ))
        | no ne ↦ ground (
          arith,
          all_apart a,
          has-append a pre (x ∷ post),
          has-append a pre post,
          has-append a ls.emergency (x ∷ []),
        )
      ]

  free_apart : (a : ℕ) → places a (record ls { used = pre ++ post; free = ls.free ++ x ∷ [] }) ≤ 1
  free_apart a =
      let left = (Distinct-split pre x post whole.distinct).1 in
      let claim =
        λ (b : ℕ). places b (record ls { used = pre ++ post; free = ls.free ++ x ∷ [] }) ≤ 1 in
      elim (ℕ_discrete x a) [
        | yes p ↦ subst claim p (
            ground (
              arith,
              all_apart x,
              left,
              has-append x pre (x ∷ post),
              has-append x ls.free (x ∷ []),
            ))
        | no ne ↦ ground (
          arith,
          all_apart a,
          has-append a pre (x ∷ post),
          has-append a pre post,
          has-append a ls.free (x ∷ []),
        )
      ]

  to_emergency :
      (fuel : ℕ)
      → length pre < fuel
      → ltb m.log.current_emergency_cleaner_segments_count emergency_cleaner_segment_count ≡ true
      → (m' : Memory) × (append_cleaned_segment_to_free_segments fuel m id ≡ ok m')
        × IsLog m' (record ls { used = pre ++ post; emergency = ls.emergency ++ x ∷ [] })
  unfolding append_cleaned_segment_to_free_segments give_back refill_emergency_cleaner_segment
  to_emergency fuel enough test =
      let (r, run, moved) =
        relocate m.segment m.log.used m.log.emergency pre post ls.emergency x id whole is.emergency
          (λ a i. ground (arith, all_apart a)) x_nonzero own before behind in
      let found =
        seek-finds m.segment fuel id 0 m.log.used.first x pre post whole.chain before own enough in
      let same : (a : ℕ)
          → a ∉ ls.emergency
          → a ∉ pre ++ x ∷ post
          → ((set_next r.0 x 0) a).next_segment ≡ (m.segment a).next_segment =
        moved.others in
      let frame = reset-IsList (set_next r.0 x 0) in
      (
        record m {
          segment = set_used_space (set_next r.0 x 0) x 0;
          log = record m.log {
            used = r.1;
            used_segments_count = sub64 m.log.used_segments_count 1;
            emergency = (attach m.segment m.log.emergency x).1;
            current_emergency_cleaner_segments_count =
                add64 m.log.current_emergency_cleaner_segments_count 1;
          };
        },
        rw (found, ==_ne x 0 x_nonzero, test, run),
        record {
          free = frame m.log.free ls.free (
              IsList-frame m.segment _ m.log.free ls.free
                (λ a i. same a (ground (arith, all_apart a)) (ground (arith, all_apart a)))
                is.free);
          used = frame r.1 (pre ++ post) moved.source;
          cleaner = frame m.log.cleaner ls.cleaner (
              IsList-frame m.segment _ m.log.cleaner ls.cleaner
                (λ a i. same a (ground (arith, all_apart a)) (ground (arith, all_apart a)))
                is.cleaner);
          emergency =
              frame (attach m.segment m.log.emergency x).1 (ls.emergency ++ x ∷ []) moved.target;
          head = is.head;
          head_next = λ ne.
              set_used_space-next (set_next r.0 x 0) x 0 ls.head
              ∙ (same ls.head (ground (arith, all_apart ls.head))
                    (ground (arith, all_apart ls.head))
                  ∙ is.head_next ne);
          apart = emergency_apart;
        },
      )

  to_free :
      (fuel : ℕ)
      → length pre < fuel
      → ltb m.log.current_emergency_cleaner_segments_count emergency_cleaner_segment_count ≡ false
      → (m' : Memory) × (append_cleaned_segment_to_free_segments fuel m id ≡ ok m')
        × IsLog m' (record ls { used = pre ++ post; free = ls.free ++ x ∷ [] })
  unfolding append_cleaned_segment_to_free_segments give_back
  to_free fuel enough test =
      let (r, run, moved) =
        relocate m.segment m.log.used m.log.free pre post ls.free x id whole is.free
          (λ a i. ground (arith, all_apart a)) x_nonzero own before behind in
      let found =
        seek-finds m.segment fuel id 0 m.log.used.first x pre post whole.chain before own enough in
      let same : (a : ℕ)
          → a ∉ ls.free
          → a ∉ pre ++ x ∷ post
          → ((set_next r.0 x 0) a).next_segment ≡ (m.segment a).next_segment =
        moved.others in
      let frame = reset-IsList (set_next r.0 x 0) in
      (
        record m {
          segment = set_used_space (set_next r.0 x 0) x 0;
          log = record m.log {
            used = r.1;
            used_segments_count = sub64 m.log.used_segments_count 1;
            free = (attach m.segment m.log.free x).1;
          };
        },
        rw (found, ==_ne x 0 x_nonzero, test, run),
        record {
          free = frame (attach m.segment m.log.free x).1 (ls.free ++ x ∷ []) moved.target;
          used = frame r.1 (pre ++ post) moved.source;
          cleaner = frame m.log.cleaner ls.cleaner (
              IsList-frame m.segment _ m.log.cleaner ls.cleaner
                (λ a i. same a (ground (arith, all_apart a)) (ground (arith, all_apart a)))
                is.cleaner);
          emergency = frame m.log.emergency ls.emergency (
              IsList-frame m.segment _ m.log.emergency ls.emergency
                (λ a i. same a (ground (arith, all_apart a)) (ground (arith, all_apart a)))
                is.emergency);
          head = is.head;
          head_next = λ ne.
              set_used_space-next (set_next r.0 x 0) x 0 ls.head
              ∙ (same ls.head (ground (arith, all_apart ls.head))
                    (ground (arith, all_apart ls.head))
                  ∙ is.head_next ne);
          apart = free_apart;
        },
      )

  -- The memory holds the log's lists, just one used segment `x` has the id, and the fuel is above
  -- the number of used segments before it. Then the call ends without a fault: `x` leaves the
  -- used segments, which keep their order, and becomes the last emergency segment if there are
  -- too few of them, else the last free segment; the other lists keep.
  pub append_cleaned_segment-IsLog :
      (fuel : ℕ)
      → length pre < fuel
      → (m' : Memory) × (append_cleaned_segment_to_free_segments fuel m id ≡ ok m')
        × IsLog m'
            (give_back_lists m.log.current_emergency_cleaner_segments_count ls x (pre ++ post))
  unfolding give_back_lists
  append_cleaned_segment-IsLog fuel enough =
      let count = m.log.current_emergency_cleaner_segments_count in
      elim (Bool-cases (ltb count emergency_cleaner_segment_count)) [
        | inl few ↦ rw few (to_emergency fuel enough few)
        | inr plenty ↦ rw plenty (to_free fuel enough plenty)
      ]
