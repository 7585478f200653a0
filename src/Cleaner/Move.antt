-- ===== src/Cleaner/Move.antt =====
-- project/cleaner.c, `append_cleaner_segment_to_used_segments` against the lists of segments, and what
-- the moves of a single segment share.
use log_heap_pmem.Base.{
  ℕ, ◌<◌, ◌≤◌, ◌≡◌, ◌≢◌, refl, ap, subst, sym, ◌∙◌, List, [], ◌∷◌, ◌++◌, arith, ◌∈◌, ◌∉◌,
  has-append, ==_ne, length, last_or, last_or-append, ok,
}
use native.Mathlib.Decide.{ℕ_discrete}
use log_heap_pmem.Types.{Offset, Memory, Segment, Segments, SegmentList, set_next, write, attach}
use log_heap_pmem.Types.Chain.{
  IsList, IsList-frame, Chain-frame, Chain-append, attach-Chain, attach-next, attach-last,
  attach-fields, Distinct-snoc, ∉-ne,
}
use log_heap_pmem.Log.Lists.{Lists, IsLog, places}
use log_heap_pmem.Cleaner.{unlink, append_cleaner_segment_to_used_segments}
use log_heap_pmem.Cleaner.Unlink.{Lacks, seek-finds, unlink-Unlinked, Distinct-split, set_next-same}

module _ (segs : Segments) (k l : SegmentList) (pre post ys : List ℕ) (x : Offset) (id : ℕ)
    (from : IsList segs k (pre ++ x ∷ post)) (to : IsList segs l ys)
    (apart : (a : ℕ) → a ∈ pre ++ x ∷ post → a ∉ ys) (nonzero : x ≢ 0) (own : (segs x).id ≡ id)
    (before : Lacks segs id pre) (behind : Lacks segs id post) where
  abbrev attached : Segments
  attached = (attach segs l x).0

  in_pre : (a : ℕ) → a ∈ pre → a ∈ pre ++ x ∷ post
  in_pre a i = ground (arith, has-append a pre (x ∷ post))

  in_post : (a : ℕ) → a ∈ post → a ∈ pre ++ x ∷ post
  in_post a i = ground (arith, has-append a pre (x ∷ post))

  x_in : x ∈ pre ++ x ∷ post
  x_in = ground (arith, has-append x pre (x ∷ post))

  out_of_all : (a : ℕ) → a ∉ pre ++ x ∷ post → (a ∉ pre) × (a ≢ x)
  out_of_all a h = ground (arith, has-append a pre (x ∷ post))

  out_of_target : (a : ℕ) → a ∈ ys → a ∉ pre ++ x ∷ post
  out_of_target a i = ground (arith, apart a)

  set_next-at : (f : Segments) → ((set_next f x 0) x).next_segment ≡ 0
  unfolding set_next write
  set_next-at f = ground arith

  -- The attached segment is cut off from both lists' other segments.
  pub record Relocated (r : Segments × SegmentList) : Type 0 where
    pub source : IsList (set_next r.0 x 0) r.1 (pre ++ post)
    pub target : IsList (set_next r.0 x 0) (attach segs l x).1 (ys ++ x ∷ [])
    pub others :
        (a : ℕ)
        → a ∉ ys
        → a ∉ pre ++ x ∷ post
        → ((set_next r.0 x 0) a).next_segment ≡ (segs a).next_segment

  pub relocate :
      (r : Segments × SegmentList) × (unlink attached k id (last_or 0 pre) x ≡ ok r) × Relocated r
  relocate =
      let keeps : (a : ℕ) → a ∉ ys → (attached a).next_segment ≡ (segs a).next_segment =
        λ a h. ap (λ (s : Segment). s.next_segment) (attach-next segs l ys x a to h) in
      let ids = attach-fields segs l x in
      let from' =
        IsList-frame segs attached k (pre ++ x ∷ post) (λ a i. keeps a (apart a i)) from in
      let (r, run, un) =
        unlink-Unlinked attached k id x (ids x ∙ own) pre post from'
          (λ a i e. before a i (sym (ids a) ∙ e)) (λ a i e. behind a i (sym (ids a) ∙ e)) in
      let left = (Distinct-split pre x post from.distinct).1 in
      let final = set_next r.0 x 0 in
      let cut : (a : ℕ) → a ≢ x → (final a).next_segment ≡ (r.0 a).next_segment =
        λ a ne. ap (λ (s : Segment). s.next_segment) (set_next-same r.0 x 0 a ne) in
      let same : (a : ℕ)
          → a ∉ pre ++ x ∷ post
          → (final a).next_segment ≡ (attached a).next_segment =
        λ a h.
          let (p, ne) = out_of_all a h in
          cut a ne ∙ ap (λ (s : Segment). s.next_segment) (un.same a p) in
      (
        r,
        run,
        record {
          source =
              IsList-frame r.0 final r.1 (pre ++ post)
                (λ a i. cut a (λ e. ∉-ne x a (pre ++ post) left i (sym e))) un.list;
          target = record {
            chain =
                Chain-append final 0 x (attach segs l x).1.first ys (x ∷ [])
                  (Chain-frame attached final x (attach segs l x).1.first ys
                    (λ a i. same a (out_of_target a i)) (attach-Chain segs l ys x to))
                  (refl, nonzero, set_next-at r.0);
            last = attach-last segs l x ∙ sym (last_or-append 0 ys x);
            distinct = Distinct-snoc ys x to.distinct (apart x x_in);
          };
          others = λ a h out. same a out ∙ keeps a h;
        },
      )

module _ (m : Memory) (ls : Lists) (is : IsLog m ls) (id : ℕ) (pre post : List ℕ) (x : Offset)
    (e : ls.cleaner ≡ pre ++ x ∷ post) (own : (m.segment x).id ≡ id)
    (before : Lacks m.segment id pre) (behind : Lacks m.segment id post) where
  whole : IsList m.segment m.log.cleaner (pre ++ x ∷ post)
  whole = subst (IsList m.segment m.log.cleaner) e is.cleaner

  all_apart : (a : ℕ) → places a (record ls { cleaner = pre ++ x ∷ post }) ≤ 1
  all_apart a = subst (λ zs. places a (record ls { cleaner = zs }) ≤ 1) e (is.apart a)

  moved_apart :
      (a : ℕ) → places a (record ls { cleaner = pre ++ post; used = ls.used ++ x ∷ [] }) ≤ 1
  moved_apart a =
      let left = (Distinct-split pre x post whole.distinct).1 in
      let claim =
        λ (b : ℕ). places b (record ls { cleaner = pre ++ post; used = ls.used ++ x ∷ [] }) ≤ 1 in
      elim (ℕ_discrete x a) [
        | yes p ↦ subst claim p (
            ground (
              arith,
              all_apart x,
              left,
              has-append x pre (x ∷ post),
              has-append x ls.used (x ∷ []),
            ))
        | no ne ↦ ground (
          arith,
          all_apart a,
          has-append a pre (x ∷ post),
          has-append a pre post,
          has-append a ls.used (x ∷ []),
        )
      ]

  -- The memory holds the log's lists, just one cleaner segment `x` has the id, and the fuel is
  -- above the number of cleaner segments before it. Then the call ends without a fault: `x`
  -- leaves the cleaner segments, which keep their order, and becomes the last used segment; the
  -- other lists keep.
  pub append_cleaner_segment_to_used_segments-IsLog :
      (fuel : ℕ)
      → length pre < fuel
      → (m' : Memory) × (append_cleaner_segment_to_used_segments fuel m id ≡ ok m')
        × IsLog m' (record ls { cleaner = pre ++ post; used = ls.used ++ x ∷ [] })
  unfolding append_cleaner_segment_to_used_segments
  append_cleaner_segment_to_used_segments-IsLog fuel enough =
      let nonzero : x ≢ 0 = λ z. ground (arith, all_apart x, has-append x pre (x ∷ post)) in
      let (r, run, moved) =
        relocate m.segment m.log.cleaner m.log.used pre post ls.used x id whole is.used
          (λ a i. ground (arith, all_apart a)) nonzero own before behind in
      let found =
        seek-finds m.segment fuel id 0 m.log.cleaner.first x pre post whole.chain before own
          enough in
      let same : (a : ℕ)
          → a ∉ ls.used
          → a ∉ pre ++ x ∷ post
          → ((set_next r.0 x 0) a).next_segment ≡ (m.segment a).next_segment =
        moved.others in
      (
        record m {
          segment = set_next r.0 x 0;
          log = record m.log { used = (attach m.segment m.log.used x).1; cleaner = r.1 };
        },
        rw (found, ==_ne x 0 nonzero, run),
        record {
          free =
              IsList-frame m.segment _ m.log.free ls.free
                (λ a i. same a (ground (arith, all_apart a)) (ground (arith, all_apart a))) is.free;
          used = moved.target;
          cleaner = moved.source;
          emergency =
              IsList-frame m.segment _ m.log.emergency ls.emergency
                (λ a i. same a (ground (arith, all_apart a)) (ground (arith, all_apart a)))
                is.emergency;
          head = is.head;
          head_next = λ ne.
              same ls.head (ground (arith, all_apart ls.head)) (ground (arith, all_apart ls.head))
              ∙ is.head_next ne;
          apart = moved_apart;
        },
      )
