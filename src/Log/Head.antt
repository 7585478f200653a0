-- ===== src/Log/Head.antt =====
-- `append_head_to_used_segments_and_get_new_head_segment` against the lists of segments.
use log_heap_pmem.Base.{
  ℕ, ◌≡◌, refl, ap, subst, List, [], ◌∷◌, arith, ◌==◌, if◌then◌else◌, ◌∉◌, has-append, inl, inr,
  Bool-cases, ==_iff, ==_ne,
}
use log_heap_pmem.Types.{Memory, Segment, attach, set_next, write, drop_first}
use log_heap_pmem.Types.Chain.{
  IsList, IsList-frame, attach-IsList, attach-next, ∉-ne, drop_first-IsList,
}
use log_heap_pmem.Log.{
  retire_head, take_free, append_head_to_used_segments_and_get_new_head_segment,
}
use log_heap_pmem.Log.Lists.{Lists, IsLog, retire, fetch, fetch_from, exchange, Matches}

-- The memory between the two halves of an exchange: no head segment.
abbrev pub headless : Memory → Memory
headless m = record m { log = record m.log { head_segment = 0 } }

module _ (m : Memory) (ls : Lists) (is : IsLog m ls) where
  -- `retire_head` moves the head segment behind the used segments.
  pub retire_head-IsLog : IsLog (headless (retire_head m)) (retire ls)
  unfolding retire_head retire
  retire_head-IsLog = elim (Bool-cases (ls.head == 0)) [
    | inl none_left ↦
        rw (is.head, none_left)
          (record {
            free = is.free;
            used = is.used;
            cleaner = is.cleaner;
            emergency = is.emergency;
            head = ground arith;
            head_next = is.head_next;
            apart = is.apart;
          })
    | inr some_left ↦
        rw (is.head, some_left)
          (record {
            free =
                IsList-frame m.segment _ m.log.free ls.free
                  (λ a i. same a (ground (arith, is.apart a))) is.free;
            used =
                attach-IsList m.segment m.log.used ls.used ls.head is.used
                  (ground (arith, is.apart ls.head)) (ground arith) (is.head_next (ground arith));
            cleaner =
                IsList-frame m.segment _ m.log.cleaner ls.cleaner
                  (λ a i. same a (ground (arith, is.apart a))) is.cleaner;
            emergency =
                IsList-frame m.segment _ m.log.emergency ls.emergency
                  (λ a i. same a (ground (arith, is.apart a))) is.emergency;
            head = refl;
            head_next = λ ne. absurd (ne refl);
            apart = λ a. ground (arith, is.apart a, has-append a ls.used (ls.head ∷ []));
          })
  ]
    where
      same :
          (a : ℕ)
          → a ∉ ls.used
          → ((attach m.segment m.log.used ls.head).0 a).next_segment ≡ (m.segment a).next_segment
      same a out =
          ap (λ (s : Segment). s.next_segment)
            (attach-next m.segment m.log.used ls.used ls.head a is.used out)

module _ (m : Memory) (ls : Lists) (is : IsLog (headless m) ls) (none_yet : ls.head ≡ 0) where
  -- With a free segment, `take_free` makes the first one the head segment.
  pub take_free-IsLog :
      (f : ℕ) (fs : List ℕ)
      → ls.free ≡ f ∷ fs
      → IsLog (take_free m) (record ls { head = f; free = fs })
  unfolding take_free set_next write drop_first
  take_free-IsLog f fs e =
      let whole = subst (IsList m.segment m.log.free) e is.free in
      let first : m.log.free.first ≡ f = whole.chain.0 in
      rw first (record {
        free =
            IsList-frame m.segment _ (drop_first m.log.free (m.segment f).next_segment) fs
              (λ a i. ground (arith, ∉-ne f a fs whole.distinct.0 i))
              (drop_first-IsList m.segment m.log.free f fs whole);
        used =
            IsList-frame m.segment _ m.log.used ls.used (λ a i. ground (arith, is.apart a)) is.used;
        cleaner =
            IsList-frame m.segment _ m.log.cleaner ls.cleaner (λ a i. ground (arith, is.apart a))
              is.cleaner;
        emergency =
            IsList-frame m.segment _ m.log.emergency ls.emergency
              (λ a i. ground (arith, is.apart a)) is.emergency;
        head = refl;
        head_next = λ ne. ground arith;
        apart = λ a. ground (arith, is.apart a, e);
      })

pub retire-head : (ls : Lists) → (retire ls).head ≡ 0
unfolding retire
retire-head ls = ground arith

-- The second half of an exchange, once no head segment is left.
fetch-Matches :
    (m : Memory) (ls : Lists) (fs : List ℕ)
    → IsLog (headless m) ls
    → ls.head ≡ 0
    → ls.free ≡ fs
    → Matches (if m.log.free.first == 0 then (headless m, 1) else (take_free m, 0)) (fetch ls)
unfolding fetch_from
fetch-Matches m ls [] is none_yet e =
    let empty = subst (IsList m.segment m.log.free) e is.free in
    rw ((==_iff m.log.free.first 0).1 empty.chain, e)
      (
        record {
          free = empty;
          used = is.used;
          cleaner = is.cleaner;
          emergency = is.emergency;
          head = refl;
          head_next = λ ne. absurd (ne refl);
          apart = λ a. ground (arith, is.apart a, e);
        },
        refl,
      )
fetch-Matches m ls (f ∷ fs) is none_yet e =
    let full = subst (IsList m.segment m.log.free) e is.free in
    rw (==_ne m.log.free.first 0 (ground (arith, full.chain.0, full.chain.1)), e)
      (take_free-IsLog m ls is none_yet f fs e, refl)

-- On a memory that holds the log's lists, the exchange of the head segment moves it behind the
-- used segments and makes the first free segment the head; without a free one it reports 1 and
-- leaves no head segment. The other lists keep.
pub append_head-exchange :
    (m : Memory) (ls : Lists)
    → IsLog m ls
    → Matches (append_head_to_used_segments_and_get_new_head_segment m) (exchange ls)
unfolding append_head_to_used_segments_and_get_new_head_segment exchange
append_head-exchange m ls is =
    fetch-Matches (retire_head m) (retire ls) (retire ls).free (retire_head-IsLog m ls is)
      (retire-head ls) refl
