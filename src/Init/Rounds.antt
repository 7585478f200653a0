-- ===== src/Init/Rounds.antt =====
-- What the loops of `init_log` leave in memory.
use log_heap_pmem.Base.{
  ℕ, zero, suc, ◌+◌, ◌-◌, ◌*◌, ◌%◌, ◌^◌, ◌≤◌, ◌<◌, ◌≡◌, refl, subst₂, inl, inr, ap, sym, ◌∙◌, arith,
  some, List, [], ◌∷◌, lt→ltb, le→ltb, ok, Distinct, ◌∈◌, ◌∉◌, has, Bool-cases, length, last_or,
}
use log_heap_pmem.Base.Words.{as_int_small}
use log_heap_pmem.Types.{Offset, Segment, segment_size, write}
use log_heap_pmem.Types.Chain.{Chain}
use log_heap_pmem.Init.{Walk, init_segment, init_free_loop, init_rounds}

-- `n` segments from `a` on, one behind the other.
unfoldable pub run : Offset → ℕ → List ℕ
run a zero = []
run a (suc n) = a ∷ run (a + segment_size) n

pub length-run : (a n : ℕ) → length (run a n) ≡ n
unfolding run
length-run a zero = refl
length-run a (suc n) = ap suc (length-run (a + segment_size) n)

pub run_bounds :
    (a b n : ℕ) → a ∈ run b n → (b ≤ a) × (a < b + segment_size * n) × ((a - b) % segment_size ≡ 0)
unfolding run
run_bounds a b zero h = cc
run_bounds a b (suc n) h = ground (arith, run_bounds a (b + segment_size) n)

run-out : (a n : ℕ) → a ∉ run (a + segment_size) n
run-out a n = elim (Bool-cases (has a (run (a + segment_size) n))) [
  | inl there ↦ absurd (omega (arith, run_bounds a (a + segment_size) n there))
  | inr out ↦ out
]

pub run-Distinct : (a n : ℕ) → Distinct (run a n)
unfolding run
run-Distinct a zero = tt
run-Distinct a (suc n) = (run-out a n, run-Distinct (a + segment_size) n)

-- With `n` rounds left to the limit, the loop is these `n` rounds.
pub init_free_loop-rounds :
    (n fuel limit i : ℕ) (w : Walk)
    → n < fuel
    → limit ≤ i + segment_size * n
    → i + segment_size * n < limit + segment_size
    → limit + segment_size < 2 ^ 31
    → init_free_loop fuel limit i w ≡ ok (init_rounds n w)
unfolding init_free_loop init_rounds
init_free_loop-rounds n zero limit i w enough le lt small = absurd (omega arith)
init_free_loop-rounds zero (suc fuel) limit i w enough le lt small =
    rw (le→ltb i limit (omega arith))
init_free_loop-rounds (suc n) (suc fuel) limit i w enough le lt small =
    rw (lt→ltb i limit (omega arith), as_int_small (i + segment_size) (omega arith))
      (init_free_loop-rounds n fuel limit (i + segment_size) (init_segment w) (omega arith)
        (omega arith) (omega arith) small)

pub curr-rounds : (n : ℕ) (w : Walk) → (init_rounds n w).curr ≡ w.curr + segment_size * n
unfolding init_rounds init_segment
curr-rounds zero w = omega arith
curr-rounds (suc n) w = omega (arith, curr-rounds n (init_segment w))

pub rounds-frame :
    (n : ℕ) (w : Walk) (a : Offset) → a < w.curr → (init_rounds n w).segment a ≡ w.segment a
unfolding init_rounds init_segment write
rounds-frame zero w a lt = refl
rounds-frame (suc n) w a lt = rounds-frame n (init_segment w) a (omega arith) ∙ ground arith

pub prev-rounds :
    (n : ℕ) (w : Walk) → (init_rounds (suc n) w).prev ≡ some (w.curr + segment_size * n)
unfolding init_rounds init_segment
prev-rounds zero w = ap some (omega arith)
prev-rounds (suc n) w = prev-rounds n (init_segment w) ∙ ap some (omega arith)

next-rounds :
    (n : ℕ) (w : Walk)
    → ((init_rounds (suc n) w).segment w.curr).next_segment ≡ w.curr + segment_size
unfolding init_rounds init_segment write
next-rounds n w =
    ap (λ (s : Segment). s.next_segment) (rounds-frame n (init_segment w) w.curr (omega arith))
    ∙ ground arith

pub rounds-Chain :
    (n : ℕ) (w : Walk)
    → 0 < w.curr
    → Chain (init_rounds n w).segment (w.curr + segment_size * n) w.curr (run w.curr n)
unfolding init_rounds init_segment run
rounds-Chain zero w pos = omega arith
rounds-Chain (suc n) w pos =
    let end : w.curr + segment_size + segment_size * n ≡ w.curr + segment_size * suc n =
      omega arith in
    (
      refl,
      omega arith,
      subst₂
          (λ (q p : ℕ). Chain (init_rounds (suc n) w).segment q p (run (w.curr + segment_size) n))
          end (sym (next-rounds n w)) (rounds-Chain n (init_segment w) (omega arith)),
    )

pub last_or-run : (a d n : ℕ) → last_or d (run a (suc n)) ≡ a + segment_size * n
unfolding run
last_or-run a d zero = omega arith
last_or-run a d (suc n) = last_or-run (a + segment_size) a n ∙ omega arith
