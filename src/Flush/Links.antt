-- ===== src/Flush/Links.antt =====
-- project/log.c, `append_head_to_used_segments_and_get_new_head_segment`: the lists of segments at the
-- points where a crash may stop the exchange.
use log_heap_pmem.Base.{
  ℕ, ◌+◌, ◌≡◌, ◌≢◌, refl, arith, ap, sym, subst, List, [], ◌∷◌, ◌++◌, length, length-append, ==_ne,
  ◌∉◌,
}
use log_heap_pmem.Types.{Memory, Segment, attach}
use log_heap_pmem.Types.Chain.{Chain, IsList, attach-IsList, attach-first, attach-next}
use log_heap_pmem.Log.{retire_head, take_free}
use log_heap_pmem.Log.Lists.{Lists, IsLog, retire, IsLog-keep}
use log_heap_pmem.Log.Head.{retire_head-IsLog, take_free-IsLog, retire-head}
use log_heap_pmem.Consistency.{segment_count}
use log_heap_pmem.Flush.{link_last, switch_head, cut_head}

abbrev pub one_if_any : List ℕ → ℕ
one_if_any [] = 0
one_if_any (x ∷ xs) = 1

module _ (m : Memory) (ls : Lists) (is : IsLog m ls) (ne : ls.head ≢ 0) (f : ℕ) (fs : List ℕ)
    (some_free : ls.free ≡ f ∷ fs) where
  pub after : Lists
  after = record (retire ls) { head = f; free = fs }

  pub retire-free : (retire ls).free ≡ f ∷ fs
  unfolding retire
  retire-free = ground (arith, some_free)

  pub after-IsLog : IsLog (take_free (retire_head m)) after
  unfolding after
  after-IsLog =
      take_free-IsLog (retire_head m) (retire ls) (retire_head-IsLog m ls is) (retire-head ls) f fs
        retire-free

  pub cut-IsLog : IsLog (cut_head (switch_head m)) after
  unfolding cut_head switch_head take_free
  cut-IsLog =
      let r = take_free (retire_head m) in
      IsLog-keep r after r.segment r.entry (retire_head m).log.head_position r.log.current_id
        (λ a. refl) after-IsLog

  -- The used list runs on into the head segment, if it is not empty.
  pub linked_used : List ℕ → List ℕ
  linked_used [] = []
  linked_used (x ∷ xs) = (x ∷ xs) ++ ls.head ∷ []

  pub length-linked_used : (xs : List ℕ) → length (linked_used xs) ≡ length xs + one_if_any xs
  unfolding linked_used
  length-linked_used [] = refl
  length-linked_used (x ∷ xs) = omega (arith, length-append (x ∷ xs) (ls.head ∷ []))

  link_last_lem : link_last m ≡ record m { segment = (attach m.segment m.log.used ls.head).0 }
  unfolding link_last retire_head
  link_last_lem = rw (is.head, ==_ne ls.head 0 ne) refl

  pub linked-next :
      (a : ℕ) → a ∉ ls.used → ((link_last m).segment a).next_segment ≡ (m.segment a).next_segment
  linked-next a out = rw link_last_lem (
      ap (λ (s : Segment). s.next_segment)
        (attach-next m.segment m.log.used ls.used ls.head a is.used out))

  pub linked-Chain :
      (xs : List ℕ) → ls.used ≡ xs → Chain (link_last m).segment 0 m.log.used.first (linked_used xs)
  unfolding linked_used
  linked-Chain [] e = (subst (IsList m.segment m.log.used) e is.used).chain
  linked-Chain (x ∷ xs) e =
      let used = subst (IsList m.segment m.log.used) e is.used in
      let out : ls.head ∉ x ∷ xs =
        subst (λ (ys : List ℕ). ls.head ∉ ys) e (ground (arith, is.apart ls.head)) in
      let whole =
        attach-IsList m.segment m.log.used (x ∷ xs) ls.head used out ne (is.head_next ne) in
      let segs = (attach m.segment m.log.used ls.head).0 in
      subst (λ (k : Memory). Chain k.segment 0 m.log.used.first ((x ∷ xs) ++ ls.head ∷ []))
        (sym link_last_lem)
        (subst (λ q. Chain segs 0 q ((x ∷ xs) ++ ls.head ∷ []))
          (attach-first m.segment m.log.used x xs ls.head used) whole.chain)

  pub count_lem :
      segment_count ls
      ≡ 1 + length (f ∷ fs) + length ls.used + length ls.cleaner + length ls.emergency
  unfolding segment_count
  count_lem = rw (==_ne ls.head 0 ne, some_free) refl

  pub retire-lengths :
      (length (retire ls).used ≡ length ls.used + 1)
      × (length (retire ls).cleaner ≡ length ls.cleaner)
      × (length (retire ls).emergency ≡ length ls.emergency)
  unfolding retire
  retire-lengths = rw (==_ne ls.head 0 ne) (length-append ls.used (ls.head ∷ []), refl, refl)

  pub segment_count-after : segment_count after ≡ segment_count ls
  unfolding segment_count after
  segment_count-after = ground (arith, retire-lengths, count_lem, retire-free)
