-- ===== src/Id.antt =====
-- project/log.c, `gen_id`: the next identifier that is neither 0 nor in the hash table. The loop runs
-- on fuel, one round for each identifier that is drawn.
use log_heap_pmem.Base.{
  ℕ, zero, suc, ◌+◌, ◌-◌, ap, ◌<◌, ◌≤◌, ◌≡◌, ◌≢◌, refl, inl, inr, Bool, true, false, arith, ◌==◌,
  if◌then◌else◌, Bool-cases, Run, ok, out_of_fuel,
}
use log_heap_pmem.Base.Words.{add64, word, add64_small}

-- `id = current_id++`, once more if that gives 0: the identifier and the counter behind it.
unfoldable pub draw : ℕ → ℕ × ℕ
unfolding add64
draw current =
    let next = add64 current 1 in if current == 0 then (next, add64 next 1) else (current, next)

unfoldable pub gen_id : ℕ → (ℕ → Bool) → ℕ → Run (ℕ × ℕ)
unfolding draw
gen_id zero contains current = out_of_fuel
gen_id (suc fuel) contains current =
    let drawn = draw current in
    let rest = gen_id fuel contains drawn.1 in if contains drawn.0 then rest else ok drawn

-- What `gen_id` finds from a counter: the least identifier from there on that is not taken.
pub record IsNextId (contains : ℕ → Bool) (current id current' : ℕ) : Type 0 where
  pub positive : 0 < id
  pub above : current ≤ id
  pub unused : contains id ≡ false
  pub least : (j : ℕ) → 0 < j → current ≤ j → j < id → contains j ≡ true
  pub counter : current' ≡ add64 id 1

-- the identifier 0 is skipped, so the counter 0 stands for 1
start : ℕ → ℕ
start current = if current == 0 then 1 else current

draw-start : (current : ℕ) → draw current ≡ (start current, add64 (start current) 1)
unfolding draw start add64
draw-start current = ground arith

start_bounds : (current : ℕ) → (0 < start current) × (current ≤ start current)
unfolding start
start_bounds current = ground arith

start-le : (current j : ℕ) → 0 < j → current ≤ j → start current ≤ j
unfolding start
start-le current j pos le = ground arith

-- With an unused identifier `k` ahead, `k - current + 1` rounds suffice, and the result is the least
-- unused one.
abbrev pub Finds : (contains : ℕ → Bool) (fuel current k : ℕ) → Type 0
Finds contains fuel current k =
    (id : ℕ) × (c : ℕ) × (gen_id fuel contains current ≡ ok (id, c))
    × IsNextId contains current id c
    × (id ≤ k)

next_round :
    (contains : ℕ → Bool) (fuel current k : ℕ)
    → contains (start current) ≡ true
    → Finds contains fuel (start current + 1) k
    → start current + 1 < word
    → Finds contains (suc fuel) current k
unfolding gen_id
next_round contains fuel current k taken (id, c, run, next, le) small =
    let bounds = start_bounds current in
    (
      id,
      c,
      rw (draw-start current, taken, add64_small (start current) 1 small) run,
      record {
        positive = next.positive;
        above = omega (arith, next.above);
        unused = next.unused;
        least = λ j pos ge lt. ground (arith, next.least j, start-le current j, ap contains);
        counter = next.counter;
      },
      le,
    )

-- If an identifier `k`, not 0, from the counter on is unused, fuel above `k - current` is enough
-- for `gen_id` to end. It finds the least unused identifier from the counter on that is not 0,
-- and the counter moves behind it.
pub gen_id-IsNextId :
    (contains : ℕ → Bool) (fuel current k : ℕ)
    → 0 < k
    → k < word
    → contains k ≡ false
    → current ≤ k
    → k - current < fuel
    → Finds contains fuel current k
unfolding gen_id
gen_id-IsNextId contains zero current k pos small free le enough = absurd (omega arith)
gen_id-IsNextId contains (suc fuel) current k pos small free le enough =
    let bounds = start_bounds current in
    let ahead = start-le current k pos le in
    elim (Bool-cases (contains (start current))) [
      | inl taken ↦
          let ne : start current ≢ k = λ e. ground (arith, ap contains e) in
          let lt : start current + 1 ≤ k = omega arith in
          next_round contains fuel current k taken
            (gen_id-IsNextId contains fuel (start current + 1) k pos small free lt (omega arith))
            (omega arith)
      | inr unused ↦ (
        start current,
        add64 (start current) 1,
        rw (draw-start current, unused),
        record {
          positive = bounds.0;
          above = bounds.1;
          unused = unused;
          least = λ j p ge lt. absurd (omega (arith, start-le current j p ge));
          counter = refl;
        },
        ahead,
      )
    ]
