-- ===== src/Consistency.antt =====
-- project/log.c, `check_consistency`: the segments on the lists are counted. Each count runs on fuel.
use log_heap_pmem.Base.{
  ℕ, zero, suc, ◌+◌, ◌/◌, ◌≡◌, ◌≢◌, ◌<◌, refl, ap, ◌∙◌, arith, none, some, List, [], ◌∷◌,
  if◌then◌else◌, Run, ok, out_of_fuel, ◌>>=◌, ◌==◌, length, ==_ne, ==_iff,
}
use native.Mathlib.Decide.{ℕ_discrete}
use log_heap_pmem.Base.Words.{add64, sub64, word, add64_small}
use log_heap_pmem.Types.{
  Offset, Segments, Memory, Pmem, segment_size, sizeof_log, offset_to_pointer,
}
use log_heap_pmem.Types.Chain.{Chain}
use log_heap_pmem.Log.Lists.{Lists, IsLog}

-- `for(; curr_seg; curr_seg = next) count++`
unfoldable pub count_segments : ℕ → Segments → Offset → ℕ → Run ℕ
count_segments zero segs p count = out_of_fuel
count_segments (suc fuel) segs p count = elim (offset_to_pointer p) [
  | none ↦ ok count
  | some s ↦ count_segments fuel segs (segs s).next_segment (add64 count 1)
]

module _ {T : Type 0} where
  unfoldable pub check_consistency : ℕ → Pmem T → Run (Pmem T)
  check_consistency fuel p = do
    let m = p.memory
    let total = sub64 p.size sizeof_log / segment_size
    count ← count_segments fuel m.segment m.log.head_segment 0
    count ← count_segments fuel m.segment m.log.free.first count
    count ← count_segments fuel m.segment m.log.used.first count
    count ← count_segments fuel m.segment m.log.cleaner.first count
    count ← count_segments fuel m.segment m.log.emergency.first count
    ok (record p { consistent = if count == total then 1 else 0 })

count_segments-suc :
    (fuel : ℕ) (segs : Segments) (p : Offset) (count : ℕ)
    → p ≢ 0
    → count_segments (suc fuel) segs p count
      ≡ count_segments fuel segs (segs p).next_segment (add64 count 1)
unfolding count_segments offset_to_pointer
count_segments-suc fuel segs p count ne = rw (==_ne p 0 ne, count_segments)

count_segments-length :
    (fuel : ℕ) (segs : Segments) (p : Offset) (xs : List ℕ) (count : ℕ)
    → Chain segs 0 p xs
    → length xs < fuel
    → count + length xs < word
    → count_segments fuel segs p count ≡ ok (count + length xs)
unfolding count_segments offset_to_pointer
count_segments-length zero segs p xs count c enough small = absurd (omega arith)
count_segments-length (suc fuel) segs p [] count c enough small = rw c (ap ok (omega arith))
count_segments-length (suc fuel) segs p (x ∷ xs) count c enough small = rw c.0 (
    count_segments-suc fuel segs x count c.1
    ∙ rw (add64_small count 1 (omega arith)) (
        count_segments-length fuel segs (segs x).next_segment xs (count + 1) c.2 (omega arith)
          (omega arith)
        ∙ ap ok (omega arith)))

-- How many segments there are on the lists, the head segment included.
unfoldable pub segment_count : Lists → ℕ
segment_count ls =
    (if ls.head == 0 then 0 else 1)
    + length ls.free
    + length ls.used
    + length ls.cleaner
    + length ls.emergency

-- the head segment is a list of one or none
pub head_list : Lists → List ℕ
head_list ls = if ls.head == 0 then [] else ls.head ∷ []

pub length-head_list : (ls : Lists) → length (head_list ls) ≡ (if ls.head == 0 then 0 else 1)
unfolding head_list
length-head_list ls = ground arith

pub head-Chain :
    (m : Memory) (ls : Lists) → IsLog m ls → Chain m.segment 0 m.log.head_segment (head_list ls)
unfolding head_list
head-Chain m ls is = elim (ℕ_discrete ls.head 0) [
  | yes none_left ↦ rw (is.head, (==_iff ls.head 0).1 none_left) none_left
  | no some_left ↦ rw (is.head, ==_ne ls.head 0 some_left) (refl, some_left, is.head_next some_left)
]

module _ {T : Type 0} (p : Pmem T) where
  -- The five counts, one after the other, of any five chains.
  pub check_consistency-chains :
      (fuel : ℕ) (hs fs us cs es : List ℕ)
      → Chain p.memory.segment 0 p.memory.log.head_segment hs
      → Chain p.memory.segment 0 p.memory.log.free.first fs
      → Chain p.memory.segment 0 p.memory.log.used.first us
      → Chain p.memory.segment 0 p.memory.log.cleaner.first cs
      → Chain p.memory.segment 0 p.memory.log.emergency.first es
      → 0 + length hs + length fs + length us + length cs + length es < fuel
      → 0 + length hs + length fs + length us + length cs + length es < word
      → check_consistency fuel p
        ≡ ok (record p {
          consistent =
              if 0 + length hs + length fs + length us + length cs + length es
                == sub64 p.size sizeof_log / segment_size
              then 1
              else 0;
        })
  unfolding check_consistency
  check_consistency-chains fuel hs fs us cs es h f u c e enough small =
      let count = count_segments-length fuel p.memory.segment in
      rw
        (
          count p.memory.log.head_segment hs 0 h (omega arith) (omega arith),
          count p.memory.log.free.first fs (0 + length hs) f (omega arith) (omega arith),
          count p.memory.log.used.first us (0 + length hs + length fs) u (omega arith)
              (omega arith),
          count p.memory.log.cleaner.first cs (0 + length hs + length fs + length us) c
              (omega arith) (omega arith),
          count p.memory.log.emergency.first es (0 + length hs + length fs + length us + length cs)
              e (omega arith) (omega arith),
        )
        refl

module _ {T : Type 0} (p : Pmem T) (ls : Lists) (is : IsLog p.memory ls) where
  total-count :
      0
        + length (head_list ls)
        + length ls.free
        + length ls.used
        + length ls.cleaner
        + length ls.emergency
      ≡ segment_count ls
  unfolding segment_count
  total-count = omega (arith, length-head_list ls)

  -- On a memory that holds the log's lists, with fuel above the number of segments on them,
  -- `check_consistency` ends and sets the flag to 1 exactly if that number is the number of
  -- segments that `size - sizeof(log_t)` bytes have room for.
  pub check_consistency-count :
      (fuel : ℕ)
      → segment_count ls < fuel
      → segment_count ls < word
      → check_consistency fuel p
        ≡ ok (record p {
          consistent = if segment_count ls == sub64 p.size sizeof_log / segment_size then 1 else 0;
        })
  check_consistency-count fuel enough small =
      let t = total-count in
      check_consistency-chains p fuel (head_list ls) ls.free ls.used ls.cleaner ls.emergency
        (head-Chain p.memory ls is) is.free.chain is.used.chain is.cleaner.chain is.emergency.chain
        (omega arith) (omega arith)
      ∙ rw t refl
