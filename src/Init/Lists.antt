-- ===== src/Init/Lists.antt =====
-- project/log.c, `init_log` against the lists of segments of an empty log.
use log_heap_pmem.Base.{
  ℕ, suc, ◌+◌, ◌-◌, ◌*◌, ◌/◌, ◌^◌, ◌≤◌, ◌<◌, ◌≡◌, ◌≢◌, refl, ap, sym, ◌∙◌, arith, subst, none, [],
  ◌∷◌, ok, has, inl, inr, Bool-cases, last_or,
}
use log_heap_pmem.Base.Words.{sub64_small}
use log_heap_pmem.Types.{
  Offset, Memory, Segments, Segment, segment_size, min_log_length, sizeof_log, sizeof_segment,
  set_next, write, pointer_to_offset,
}
use log_heap_pmem.Types.Chain.{Chain, Chain-extend, Chain-frame, IsList}
use log_heap_pmem.Log.Lists.{Lists, IsLog, places}
use log_heap_pmem.Store.{IsStore, IsSegment}
use log_heap_pmem.Init.{Walk, init_segment, init_rounds, close, init_lists, init_log}
use log_heap_pmem.Init.Rounds.{
  run, run_bounds, run-Distinct, init_free_loop-rounds, curr-rounds, prev-rounds, rounds-Chain,
  last_or-run,
}

abbrev start : Segments → Walk
start segs = record { segment = segs; curr = sizeof_log; prev = none; seg_id = 0 }

-- the last of `k + 1` segments behind the log header
abbrev nth : ℕ → Offset
nth k = sizeof_log + segment_size * k

module _ (m : Memory) (k : ℕ) where
  -- the `k + 2` rounds of the first loop, closed
  free_walk : Walk
  free_walk =
      let w = init_rounds (suc (suc k)) (start m.segment) in
      record w { segment = set_next w.segment (nth (suc k)) 0 }

  -- the emergency segment, closed
  emergency_walk : Walk
  emergency_walk =
      let w = init_segment free_walk in record w { segment = set_next w.segment free_walk.curr 0 }

  pub fresh : Memory
  fresh = init_lists m free_walk emergency_walk

  close-free : close (init_rounds (suc (suc k)) (start m.segment)) ≡ ok free_walk
  unfolding close free_walk
  close-free = rw (prev-rounds (suc k) (start m.segment))

  close-emergency : close (init_rounds 1 free_walk) ≡ ok emergency_walk
  unfolding close emergency_walk init_rounds init_segment
  close-emergency = refl

  pub init_log-fresh :
      (fuel size : ℕ)
      → segment_size * (suc (suc k)) < size - segment_size
      → size ≤ segment_size * (suc (suc k)) + 2 * segment_size
      → size < 2 ^ 31
      → suc (suc k) < fuel
      → init_log fuel size m ≡ ok fresh
  unfolding init_log fresh
  init_log-fresh fuel size lt le small enough = rw (
    sub64_small size 8192 (omega arith) (omega arith),
    init_free_loop-rounds (suc (suc k)) fuel (size - 8192) 0 (start m.segment) enough (omega arith)
        (omega arith) (omega arith),
    close-free,
    close-emergency,
  )

  free_curr : free_walk.curr ≡ nth (suc (suc k))
  unfolding free_walk
  free_curr = curr-rounds (suc (suc k)) (start m.segment)

  free-Chain : Chain free_walk.segment 0 sizeof_log (run sizeof_log (suc (suc k)))
  unfolding free_walk run
  free-Chain =
      let w = init_rounds (suc (suc k)) (start m.segment) in
      let last : last_or sizeof_log (run (sizeof_log + segment_size) (suc k)) ≡ nth (suc k) =
        last_or-run (sizeof_log + segment_size) sizeof_log k ∙ omega arith in
      subst (λ (a : ℕ). Chain (set_next w.segment a 0) 0 sizeof_log (run sizeof_log (suc (suc k))))
        last
        (Chain-extend w.segment (nth (suc (suc k))) sizeof_log 0 sizeof_log
          (run (sizeof_log + segment_size) (suc k))
          (rounds-Chain (suc (suc k)) (start m.segment) (omega arith))
          (run-Distinct sizeof_log (suc (suc k))))

  emergency-other :
      (a : Offset) → a ≢ nth (suc (suc k)) → emergency_walk.segment a ≡ free_walk.segment a
  unfolding emergency_walk init_segment set_next write
  emergency-other a ne = ground (arith, free_curr)

  fresh-other :
      (a : Offset) → a ≢ nth (suc (suc k)) → a ≢ sizeof_log → fresh.segment a ≡ free_walk.segment a
  unfolding fresh init_lists set_next write
  fresh-other a ne first = ground (arith, emergency-other a ne)

  fresh-emergency : (fresh.segment (nth (suc (suc k)))).next_segment ≡ 0
  unfolding fresh init_lists emergency_walk init_segment set_next write
  fresh-emergency = ground (arith, free_curr)

  emergency-last : pointer_to_offset emergency_walk.prev ≡ nth (suc (suc k))
  unfolding emergency_walk init_segment pointer_to_offset
  emergency-last = free_curr

  fresh-head : (fresh.segment sizeof_log).next_segment ≡ 0
  unfolding fresh init_lists set_next write
  fresh-head = refl

  free-first : fresh.log.free.first ≡ (free_walk.segment sizeof_log).next_segment
  unfolding fresh init_lists
  free-first = ap (λ (s : Segment). s.next_segment) (emergency-other sizeof_log (omega arith))

  free-last : fresh.log.free.last ≡ nth (suc k)
  unfolding fresh init_lists free_walk pointer_to_offset
  free-last = ap pointer_to_offset (prev-rounds (suc k) (start m.segment))

  free-IsList : IsList fresh.segment fresh.log.free (run (sizeof_log + segment_size) (suc k))
  unfolding run
  free-IsList = record {
    chain =
        subst (λ (p : ℕ). Chain fresh.segment 0 p (run (sizeof_log + segment_size) (suc k)))
          (sym free-first)
          (Chain-frame free_walk.segment fresh.segment 0 (free_walk.segment sizeof_log).next_segment
            (run (sizeof_log + segment_size) (suc k))
            (λ a i.
              ap (λ (s : Segment). s.next_segment)
                (fresh-other a
                  (λ e. omega (arith, run_bounds a (sizeof_log + segment_size) (suc k) i, e))
                  (λ e. omega (arith, run_bounds a (sizeof_log + segment_size) (suc k) i, e))))
            free-Chain.2);
    last = free-last ∙ omega arith ∙ sym (last_or-run (sizeof_log + segment_size) 0 k);
    distinct = run-Distinct (sizeof_log + segment_size) (suc k);
  }

-- The lists of an empty log of `k + 3` segments: the first one is the head segment, the last one is
-- kept for the cleaner.
unfoldable pub fresh_lists : ℕ → Lists
fresh_lists k = record {
  head = sizeof_log;
  free = run (sizeof_log + segment_size) (suc k);
  used = [];
  cleaner = [];
  emergency = nth (suc (suc k)) ∷ [];
}

module _ (m : Memory) (k : ℕ) where
  fresh-position : (fresh m k).log.head_position ≤ segment_size - sizeof_segment
  unfolding fresh init_lists
  fresh-position = omega arith

  fresh-apart : (a : ℕ) → places a (fresh_lists k) ≤ 1
  unfolding fresh_lists
  fresh-apart a = elim (Bool-cases (has a (run (sizeof_log + segment_size) (suc k)))) [
    | inl free ↦
        let b = run_bounds a (sizeof_log + segment_size) (suc k) free in rw free (ground arith)
    | inr other ↦ rw other (ground arith)
  ]

  fresh-IsLog : IsLog (fresh m k) (fresh_lists k)
  unfolding fresh_lists fresh init_lists
  fresh-IsLog = record {
    free = free-IsList m k;
    used = record { chain = refl; last = refl; distinct = tt };
    cleaner = record { chain = refl; last = refl; distinct = tt };
    emergency = record {
      chain = (free_curr m k, λ e. omega (arith, e), fresh-emergency m k);
      last = emergency-last m k;
      distinct = (refl, tt);
    };
    head = refl;
    head_next = λ ne. fresh-head m k;
    apart = fresh-apart;
  }

  fresh-IsSegment :
      segment_size * k + 4 * segment_size < 2 ^ 32
      → (a : Offset) → a ≢ 0
      → 1 ≤ places a (fresh_lists k)
      → IsSegment a
  unfolding fresh_lists
  fresh-IsSegment fits a ne h =
      elim (Bool-cases (has a (run (sizeof_log + segment_size) (suc k)))) [
        | inl free ↦ omega (arith, run_bounds a (sizeof_log + segment_size) (suc k) free)
        | inr other ↦ let h' = rw other at h in ground (arith, h')
      ]

-- How many free segments `init_log` leaves in so many bytes, less one.
unfoldable pub spare_segments : ℕ → ℕ
spare_segments size = (size - segment_size - 1) / segment_size - 2

-- For a size of at least five segments, below 2 GiB, and fuel for more bytes than that at a
-- segment a round, `init_log` ends without a fault on any memory and leaves a sound empty log:
-- the first segment is the head, the last one the emergency segment, and all between are free.
pub init_log-IsStore :
    (m : Memory) (fuel size : ℕ)
    → min_log_length ≤ size
    → size < 2 ^ 31
    → size < segment_size * fuel
    → (m' : Memory) × (init_log fuel size m ≡ ok m')
      × IsStore m' (fresh_lists (spare_segments size)) (λ _. ⊥)
unfolding spare_segments
init_log-IsStore m fuel size large small enough =
    let k = (size - segment_size - 1) / segment_size - 2 in
    (
      fresh m k,
      init_log-fresh m k fuel size (omega arith) (omega arith) small (omega arith),
      record {
        log = fresh-IsLog m k;
        position = fresh-position m k;
        segments = fresh-IsSegment m k (omega arith);
        placed = λ off never. absurd never;
      },
    )
