-- ===== src/Cleaner/Release.antt =====
-- project/cleaner.c, `append_all_cleaner_segments_to_used_segments` against the lists of segments.
use log_heap_pmem.Base.{
  ℕ, ◌≤◌, ◌≡◌, refl, ap, subst, sym, ◌∙◌, List, [], ◌∷◌, ◌++◌, arith, ◌∈◌, ◌∉◌, has-append, ==_iff,
  ==_ne, Distinct, last_or,
}
use log_heap_pmem.Types.{Memory, Segment, Segments, SegmentList, attach}
use log_heap_pmem.Types.Chain.{
  IsList, IsList-frame, Chain-frame, Chain-append, attach-Chain, attach-next,
}
use log_heap_pmem.Log.Lists.{Lists, IsLog, places}
use log_heap_pmem.Cleaner.{append_all_cleaner_segments_to_used_segments}

pub append_nil : (xs : List ℕ) → xs ++ [] ≡ xs
append_nil [] = refl
append_nil (x ∷ xs) = ap (λ (ys : List ℕ). x ∷ ys) (append_nil xs)

pub last_or-join :
    (d : ℕ) (xs : List ℕ) (y : ℕ) (ys : List ℕ) → last_or d (xs ++ y ∷ ys) ≡ last_or y ys
last_or-join d [] y ys = refl
last_or-join d (x ∷ xs) y ys = last_or-join x xs y ys

Distinct-append :
    (xs ys : List ℕ) → Distinct xs → Distinct ys → ((a : ℕ) → a ∈ xs → a ∉ ys) → Distinct (xs ++ ys)
Distinct-append [] ys d e apart = e
Distinct-append (x ∷ xs) ys d e apart = (
  ground (arith, has-append x xs ys, apart x),
  Distinct-append xs ys d.1 e (λ a i. apart a (ground (arith, i))),
)

module _ (segs : Segments) (l k : SegmentList) (xs : List ℕ) (y : ℕ) (ys : List ℕ)
    (is : IsList segs l xs) (more : IsList segs k (y ∷ ys))
    (apart : (a : ℕ) → a ∈ xs → a ∉ y ∷ ys) where
  -- A list that is linked behind another one.
  pub join-IsList :
      IsList (attach segs l y).0 (record (attach segs l y).1 { last = k.last }) (xs ++ y ∷ ys)
  join-IsList = record {
    chain =
        Chain-append (attach segs l y).0 0 y (attach segs l y).1.first xs (y ∷ ys)
          (attach-Chain segs l xs y is)
          (Chain-frame segs (attach segs l y).0 0 y (y ∷ ys)
            (λ a i.
              ap (λ (s : Segment). s.next_segment)
                (attach-next segs l xs y a is (ground (arith, apart a, i))))
            (refl, more.chain.1, more.chain.2));
    last = more.last ∙ sym (last_or-join 0 xs y ys);
    distinct = Distinct-append xs (y ∷ ys) is.distinct more.distinct apart;
  }

module _ (m : Memory) (ls : Lists) (is : IsLog m ls) where
  release-IsLog :
      (cs : List ℕ)
      → ls.cleaner ≡ cs
      → IsLog
          (append_all_cleaner_segments_to_used_segments m)
          (record ls { used = ls.used ++ cs; cleaner = [] })
  unfolding append_all_cleaner_segments_to_used_segments
  release-IsLog [] e =
      let empty = subst (IsList m.segment m.log.cleaner) e is.cleaner in
      rw (append_nil ls.used, (==_iff m.log.cleaner.first 0).1 empty.chain)
        (record {
          free = is.free;
          used = is.used;
          cleaner = empty;
          emergency = is.emergency;
          head = is.head;
          head_next = is.head_next;
          apart = λ a. ground (arith, is.apart a);
        })
  release-IsLog (c ∷ cs) e =
      let full = subst (IsList m.segment m.log.cleaner) e is.cleaner in
      let first : m.log.cleaner.first ≡ c = full.chain.0 in
      let apart : (a : ℕ) → places a (record ls { cleaner = c ∷ cs }) ≤ 1 =
        λ a. subst (λ ys. places a (record ls { cleaner = ys }) ≤ 1) e (is.apart a) in
      let same : (a : ℕ)
          → a ∉ ls.used
          → ((attach m.segment m.log.used c).0 a).next_segment ≡ (m.segment a).next_segment =
        λ a out.
          ap (λ (s : Segment). s.next_segment)
            (attach-next m.segment m.log.used ls.used c a is.used out) in
      rw (first, ==_ne c 0 full.chain.1)
        (record {
          free =
              IsList-frame m.segment _ m.log.free ls.free (λ a i. same a (ground (arith, apart a)))
                is.free;
          used =
              join-IsList m.segment m.log.used m.log.cleaner ls.used c cs is.used full
                (λ a i. ground (arith, apart a));
          cleaner = record { chain = refl; last = refl; distinct = tt };
          emergency =
              IsList-frame m.segment _ m.log.emergency ls.emergency
                (λ a i. same a (ground (arith, apart a))) is.emergency;
          head = is.head;
          head_next = λ ne. same ls.head (ground (arith, apart ls.head)) ∙ is.head_next ne;
          apart = λ a. ground (arith, apart a, has-append a ls.used (c ∷ cs));
        })

  -- On a memory that holds the log's lists, all cleaner segments move in their order behind the
  -- used segments, and the other lists keep.
  pub append_all_cleaner_segments-IsLog :
      IsLog
        (append_all_cleaner_segments_to_used_segments m)
        (record ls { used = ls.used ++ ls.cleaner; cleaner = [] })
  append_all_cleaner_segments-IsLog = release-IsLog ls.cleaner refl
