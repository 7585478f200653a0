-- ===== src/Init/Consistent.antt =====
-- project/log.c, `check_consistency` on a log that `init_log` has just laid out.
use log_heap_pmem.Base.{
  ℕ, suc, ◌+◌, ◌*◌, ◌/◌, ◌%◌, ◌^◌, ◌≤◌, ◌<◌, ◌≡◌, ap, arith, ok, ltb, ◌==◌, ◌&&◌, if◌then◌else◌,
  Bool, not,
}
use log_heap_pmem.Base.Words.{sub64, sub64_small}
use log_heap_pmem.Types.{Memory, Pmem, segment_size, min_log_length, sizeof_log}
use log_heap_pmem.Consistency.{check_consistency, check_consistency-count, segment_count}
use log_heap_pmem.Init.{init_log}
use log_heap_pmem.Init.Rounds.{run, length-run}
use log_heap_pmem.Init.Lists.{fresh_lists, spare_segments, init_log-IsStore}

count-fresh : (k : ℕ) → segment_count (fresh_lists k) ≡ k + 3
unfolding segment_count fresh_lists
count-fresh k = omega (arith, length-run (sizeof_log + segment_size) (suc k))

-- The bytes behind the last whole segment, if they are fewer than a log header takes.
abbrev pub short_rest : ℕ → Bool
short_rest size = not (size % segment_size == 0) && ltb (size % segment_size) sizeof_log

spare_lt : (size : ℕ) → min_log_length ≤ size → (spare_segments size + 3) * segment_size < size
unfolding spare_segments
spare_lt size large = omega arith

flag_lem :
    (size : ℕ)
    → min_log_length ≤ size
    → size < 2 ^ 31
    → ◌≡◌ {A = ℕ}
        (if spare_segments size + 3 == sub64 size sizeof_log / segment_size then 1 else 0)
        (if short_rest size then 0 else 1)
unfolding spare_segments
flag_lem size large small =
    rw (sub64_small size sizeof_log (omega arith) (omega arith)) (ground arith)

-- For a size as in `init_log-IsStore`, `init_log` ends, and `check_consistency` then sets the
-- flag to 0, which makes the heap read-only, exactly if the size leaves a rest of 1 to 127 bytes
-- behind the last whole segment. (`size` is already less the log header, which
-- `check_consistency` subtracts once more.)
pub init_log-consistent :
    {T : Type 0} (p : Pmem T) (fuel : ℕ)
    → min_log_length ≤ p.size
    → p.size < 2 ^ 31
    → p.size < segment_size * fuel
    → (m : Memory) × (init_log fuel p.size p.memory ≡ ok m)
      × (check_consistency fuel (record p { memory = m })
          ≡ ok (record p { memory = m; consistent = if short_rest p.size then 0 else 1 }))
init_log-consistent p fuel large small enough =
    let (m, run, is) = init_log-IsStore p.memory fuel p.size large small enough in
    let count = count-fresh (spare_segments p.size) in
    let spare = spare_lt p.size large in
    (
      m,
      run,
      rw
          (check_consistency-count (record p { memory = m }) (fresh_lists (spare_segments p.size))
            is.log fuel (omega (arith, count)) (omega (arith, count)))
          (ap (λ (n : ℕ). ok (record p { memory = m; consistent = n }))
            (rw count (flag_lem p.size large small))),
    )
