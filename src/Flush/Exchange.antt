-- ===== src/Flush/Exchange.antt =====
-- project/log.c, `append_head_to_used_segments_and_get_new_head_segment`: a crash while the head
-- segment is exchanged, and `check_consistency` after it.
use log_heap_pmem.Base.{
  ℕ, ◌+◌, ◌*◌, ◌-◌, ◌/◌, ◌≤◌, ◌<◌, ◌≡◌, ◌≢◌, refl, arith, ap, subst, ◌∙◌, List, [], ◌∷◌, length, ok,
  ◌==◌, if◌then◌else◌, ◌∈◌, ◌∉◌,
}
use log_heap_pmem.Base.Words.{sub64, word}
use log_heap_pmem.Types.{Offset, Memory, Pmem, segment_size, sizeof_log, drop_first}
use log_heap_pmem.Types.Chain.{Chain, IsList, Chain-frame}
use log_heap_pmem.Log.{retire_head}
use log_heap_pmem.Log.Lists.{Lists, IsLog, retire}
use log_heap_pmem.Log.Head.{retire_head-IsLog}
use log_heap_pmem.Consistency.{
  check_consistency, check_consistency-chains, check_consistency-count, segment_count,
}
use log_heap_pmem.Flush.Links.{
  one_if_any, linked-next, linked_used, length-linked_used, linked-Chain, count_lem, retire-lengths,
  retire-free, after, after-IsLog, cut-IsLog, segment_count-after,
}
use log_heap_pmem.Flush.{
  ExchangeState, before, linked, switched, cut, reset, link_last, switch_head, cut_head,
  reset_position, take_free-steps,
}

-- How many segments are reached twice from the log after a crash: the head segment, once the last
-- used one leads to it; the free segments, while the new head segment still leads to them.
abbrev pub repeats : {m m' : Memory} → Lists → ExchangeState m m' → ℕ
repeats ls before = 0
repeats ls linked = one_if_any ls.used
repeats ls switched = length ls.free - 1
repeats ls cut = 0
repeats ls reset = 0

module _ {T : Type 0} (p : Pmem T) (ls : Lists) (is : IsLog p.memory ls) (ne : ls.head ≢ 0) (f : ℕ)
    (fs : List ℕ) (some_free : ls.free ≡ f ∷ fs) (fuel : ℕ) (enough : 2 * segment_count ls < fuel)
    (small : 2 * segment_count ls < word) where
  abbrev Counted : Memory → ℕ → Type 0
  Counted m' n =
      check_consistency fuel (record p { memory = m' })
      ≡ ok (record p {
        memory = m';
        consistent = if n == sub64 p.size sizeof_log / segment_size then 1 else 0;
      })

  whole-Counted :
      (m' : Memory) (ls' : Lists)
      → IsLog m' ls'
      → segment_count ls' ≡ segment_count ls
      → Counted m' (segment_count ls + 0)
  whole-Counted m' ls' is' same =
      let count : segment_count ls' ≡ segment_count ls + 0 = omega (arith, same) in
      check_consistency-count (record p { memory = m' }) ls' is' fuel (omega arith) (omega arith)
      ∙ rw count refl

  chains-Counted :
      (m' : Memory) (hs fs us cs es : List ℕ) (n : ℕ)
      → Chain m'.segment 0 m'.log.head_segment hs
      → Chain m'.segment 0 m'.log.free.first fs
      → Chain m'.segment 0 m'.log.used.first us
      → Chain m'.segment 0 m'.log.cleaner.first cs
      → Chain m'.segment 0 m'.log.emergency.first es
      → 0 + length hs + length fs + length us + length cs + length es ≡ n
      → n ≤ 2 * segment_count ls
      → Counted m' n
  chains-Counted m' hs fs us cs es n h f u c e sum few =
      check_consistency-chains (record p { memory = m' }) fuel hs fs us cs es h f u c e
        (omega arith) (omega arith)
      ∙ rw sum refl

  linked-Counted :
      (xs : List ℕ) → ls.used ≡ xs → Counted (link_last p.memory) (segment_count ls + one_if_any xs)
  unfolding link_last
  linked-Counted xs e =
      let m = p.memory in
      let count = count_lem m ls is ne f fs some_free in
      let keep = linked-next m ls is ne f fs some_free in
      let stays = λ (first : Offset) (ys : List ℕ) (out : (a : ℕ) → a ∈ ys → a ∉ ls.used).
        Chain-frame m.segment (link_last m).segment 0 first ys (λ a i. keep a (out a i)) in
      chains-Counted (link_last m) (ls.head ∷ []) ls.free (linked_used m ls is ne f fs some_free xs)
        ls.cleaner ls.emergency (segment_count ls + one_if_any xs)
        (is.head, ne, keep ls.head (ground (arith, is.apart ls.head)) ∙ is.head_next ne)
        (stays m.log.free.first ls.free (λ a i. ground (arith, is.apart a)) is.free.chain)
        (linked-Chain m ls is ne f fs some_free xs e)
        (stays m.log.cleaner.first ls.cleaner (λ a i. ground (arith, is.apart a)) is.cleaner.chain)
        (stays m.log.emergency.first ls.emergency (λ a i. ground (arith, is.apart a))
          is.emergency.chain)
        (omega (
          arith,
          count,
          ap (λ (ys : List ℕ). length ys) e,
          ap (λ (ys : List ℕ). length ys) some_free,
          length-linked_used m ls is ne f fs some_free xs,
        ))
        (ground (arith, count, xs))

  switched-Counted : Counted (switch_head p.memory) (segment_count ls + length fs)
  unfolding switch_head drop_first
  switched-Counted =
      let m = p.memory in
      let r = retire_head-IsLog m ls is in
      let count = count_lem m ls is ne f fs some_free in
      let lengths = retire-lengths m ls is ne f fs some_free in
      let whole =
        subst (IsList (retire_head m).segment (retire_head m).log.free)
          (retire-free m ls is ne f fs some_free) r.free in
      chains-Counted (switch_head m) (f ∷ fs) fs (retire ls).used (retire ls).cleaner
        (retire ls).emergency (segment_count ls + length fs) whole.chain
        (rw (whole.chain.0) whole.chain.2) r.used.chain r.cleaner.chain r.emergency.chain
        (omega (arith, count, lengths.0, lengths.1, lengths.2)) (omega (arith, count))

  verdict :
      (m' : Memory) (twice : ℕ)
      → segment_count ls ≡ sub64 p.size sizeof_log / segment_size
      → Counted m' (segment_count ls + twice)
      → check_consistency fuel (record p { memory = m' })
        ≡ ok (record p { memory = m'; consistent = if twice == 0 then 1 else 0 })
  verdict m' twice whole counted =
      let n = segment_count ls in
      let test : (n + twice == n) ≡ (twice == 0) = ground arith in counted ∙ rw (← whole, test) refl

  -- The memory holds the log's lists, which are as many segments as the mapping has room for, the
  -- head segment is exchanged for the first of the free segments, and the fuel and 2 ^ 64 are above
  -- twice the number of segments. After a crash between two flushes of the exchange
  -- `check_consistency` accepts the log exactly if no segment is reached twice: it refuses it when
  -- the last used segment already leads to the head segment, and, with more than one free segment,
  -- until the new head segment no longer leads to the others.
  pub append_head-crash :
      segment_count ls ≡ sub64 p.size sizeof_log / segment_size
      → (m' : Memory) (state : ExchangeState p.memory m')
      → check_consistency fuel (record p { memory = m' })
        ≡ ok (record p { memory = m'; consistent = if repeats ls state == 0 then 1 else 0 })
  append_head-crash whole _ before = verdict p.memory 0 whole (whole-Counted p.memory ls is refl)
  append_head-crash whole _ linked =
      verdict (link_last p.memory) (one_if_any ls.used) whole (linked-Counted ls.used refl)
  append_head-crash whole _ switched =
      let others : length ls.free - 1 ≡ length fs = rw some_free (omega arith) in
      rw others (verdict (switch_head p.memory) (length fs) whole switched-Counted)
  append_head-crash whole _ cut = verdict (cut_head (switch_head p.memory)) 0 whole (
      whole-Counted (cut_head (switch_head p.memory)) (after p.memory ls is ne f fs some_free)
        (cut-IsLog p.memory ls is ne f fs some_free)
        (segment_count-after p.memory ls is ne f fs some_free))
  append_head-crash whole _ reset =
      verdict (reset_position (cut_head (switch_head p.memory))) 0 whole (
        whole-Counted (reset_position (cut_head (switch_head p.memory)))
          (after p.memory ls is ne f fs some_free)
          (rw (take_free-steps p.memory) (after-IsLog p.memory ls is ne f fs some_free))
          (segment_count-after p.memory ls is ne f fs some_free))
