-- ===== src/Cleaner/Supply.antt =====
-- project/cleaner.c, `get_new_cleaner_segment` and `get_emergency_cleaner_segment` against the lists
-- of segments.
use log_heap_pmem.Base.{
  ℕ, ◌≤◌, ◌≡◌, ◌≢◌, refl, ap, subst, sym, ◌∙◌, List, [], ◌∷◌, ◌++◌, arith, ◌∈◌, ◌∉◌, has-append,
  ==_iff, ==_ne, last_or-append,
}
use log_heap_pmem.Types.{
  Offset, Memory, Segment, Segments, SegmentList, attach, set_next, write, drop_first,
}
use log_heap_pmem.Types.Chain.{
  IsList, IsList-frame, Chain-append, Chain-set_next, attach-Chain, attach-last, attach-next, ∉-ne,
  drop_first-IsList, Distinct-snoc,
}
use log_heap_pmem.Log.Lists.{Lists, IsLog, Matches, places}
use log_heap_pmem.Cleaner.{
  get_emergency_cleaner_segment, get_new_cleaner_segment, acquire_emergency, acquire,
}

-- The segments after `s` was attached to a list and its successor was cut off.
abbrev cut : Segments → SegmentList → Offset → Segments
cut segs l s = set_next (attach segs l s).0 s 0

module _ (segs : Segments) (l : SegmentList) (xs : List ℕ) (s : Offset) (is : IsList segs l xs)
    (out : s ∉ xs) where
  cut-IsList : s ≢ 0 → IsList (cut segs l s) (attach segs l s).1 (xs ++ s ∷ [])
  unfolding set_next write
  cut-IsList ne = record {
    chain =
        Chain-append (cut segs l s) 0 s (attach segs l s).1.first xs (s ∷ [])
          (Chain-set_next (attach segs l s).0 s (attach segs l s).1.first xs s 0 out
            (attach-Chain segs l xs s is))
          (refl, ne, ground arith);
    last = attach-last segs l s ∙ sym (last_or-append 0 xs s);
    distinct = Distinct-snoc xs s is.distinct out;
  }

  -- Every other segment keeps its successor.
  cut-next : (a : ℕ) → a ∉ xs → a ≢ s → ((cut segs l s) a).next_segment ≡ (segs a).next_segment
  unfolding set_next write
  cut-next a h ne = ground (arith, attach-next segs l xs s a is h)

  -- A list that starts with `s` loses it.
  cut-drop :
      (k : SegmentList) (ys : List ℕ)
      → IsList segs k (s ∷ ys)
      → ((a : ℕ) → a ∈ ys → a ∉ xs)
      → IsList (cut segs l s) (drop_first k ((attach segs l s).0 s).next_segment) ys
  cut-drop k ys full apart =
      let next = ap (λ (t : Segment). t.next_segment) (attach-next segs l xs s s is out) in
      rw next (
        IsList-frame segs (cut segs l s) (drop_first k (segs s).next_segment) ys
          (λ a i. cut-next a (apart a i) (λ e. ∉-ne s a ys full.distinct.0 i (sym e)))
          (drop_first-IsList segs k s ys full))

module _ (m : Memory) (ls : Lists) (is : IsLog m ls) where
  emergency-Matches :
      (es : List ℕ)
      → ls.emergency ≡ es
      → Matches (get_emergency_cleaner_segment m) (acquire_emergency es ls)
  unfolding get_emergency_cleaner_segment acquire_emergency drop_first
  emergency-Matches [] e =
      let empty = subst (IsList m.segment m.log.emergency) e is.emergency in
      rw ((==_iff m.log.emergency.first 0).1 empty.chain) (is, refl)
  emergency-Matches (s ∷ es) e =
      let full = subst (IsList m.segment m.log.emergency) e is.emergency in
      let first : m.log.emergency.first ≡ s = full.chain.0 in
      let apart : (a : ℕ) → places a (record ls { emergency = s ∷ es }) ≤ 1 =
        λ a. subst (λ ys. places a (record ls { emergency = ys }) ≤ 1) e (is.apart a) in
      let out : s ∉ ls.cleaner = ground (arith, apart s) in
      let same = cut-next m.segment m.log.cleaner ls.cleaner s is.cleaner out in
      rw (first, ==_ne s 0 full.chain.1)
        (
          record {
            free =
                IsList-frame m.segment _ m.log.free ls.free
                  (λ a i. same a (ground (arith, apart a)) (ground (arith, apart a))) is.free;
            used =
                IsList-frame m.segment _ m.log.used ls.used
                  (λ a i. same a (ground (arith, apart a)) (ground (arith, apart a))) is.used;
            cleaner = cut-IsList m.segment m.log.cleaner ls.cleaner s is.cleaner out full.chain.1;
            emergency =
                cut-drop m.segment m.log.cleaner ls.cleaner s is.cleaner out m.log.emergency es full
                  (λ a i. ground (arith, apart a));
            head = is.head;
            head_next = λ ne.
                same ls.head (ground (arith, apart ls.head)) (ground (arith, apart ls.head))
                ∙ is.head_next ne;
            apart = λ a. ground (arith, apart a, has-append a ls.cleaner (s ∷ []));
          },
          refl,
        )

  free-Matches : (fs : List ℕ) → ls.free ≡ fs → Matches (get_new_cleaner_segment m) (acquire fs ls)
  unfolding get_new_cleaner_segment acquire drop_first
  free-Matches [] e =
      let empty = subst (IsList m.segment m.log.free) e is.free in
      rw ((==_iff m.log.free.first 0).1 empty.chain) (emergency-Matches ls.emergency refl)
  free-Matches (s ∷ fs) e =
      let full = subst (IsList m.segment m.log.free) e is.free in
      let first : m.log.free.first ≡ s = full.chain.0 in
      let apart : (a : ℕ) → places a (record ls { free = s ∷ fs }) ≤ 1 =
        λ a. subst (λ ys. places a (record ls { free = ys }) ≤ 1) e (is.apart a) in
      let out : s ∉ ls.cleaner = ground (arith, apart s) in
      let same = cut-next m.segment m.log.cleaner ls.cleaner s is.cleaner out in
      rw (first, ==_ne s 0 full.chain.1)
        (
          record {
            free =
                cut-drop m.segment m.log.cleaner ls.cleaner s is.cleaner out m.log.free fs full
                  (λ a i. ground (arith, apart a));
            used =
                IsList-frame m.segment _ m.log.used ls.used
                  (λ a i. same a (ground (arith, apart a)) (ground (arith, apart a))) is.used;
            cleaner = cut-IsList m.segment m.log.cleaner ls.cleaner s is.cleaner out full.chain.1;
            emergency =
                IsList-frame m.segment _ m.log.emergency ls.emergency
                  (λ a i. same a (ground (arith, apart a)) (ground (arith, apart a))) is.emergency;
            head = is.head;
            head_next = λ ne.
                same ls.head (ground (arith, apart ls.head)) (ground (arith, apart ls.head))
                ∙ is.head_next ne;
            apart = λ a. ground (arith, apart a, has-append a ls.cleaner (s ∷ []));
          },
          refl,
        )

  -- On a memory that holds the log's lists, the cleaner's new segment is the first free one, or
  -- the first emergency one if none is free: it leaves that list and becomes the last cleaner
  -- segment. With neither the result is NULL. The other lists keep.
  pub get_new_cleaner_segment-acquire : Matches (get_new_cleaner_segment m) (acquire ls.free ls)
  get_new_cleaner_segment-acquire = free-Matches ls.free refl
