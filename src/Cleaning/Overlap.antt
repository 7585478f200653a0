-- ===== src/Cleaning/Overlap.antt =====
-- project/cleaner.c, `unset_curr_cleaned`, which does not lock `curr_cleaned_mutex`.
use log_heap_pmem.Base.{ℕ, ◌≡◌, ◌≢◌, refl, arith, sym, ◌∙◌, true, none, some, ==_ne}
use native.Mathlib.Decide.{ℕ_discrete}
use log_heap_pmem.Types.{Offset}
use log_heap_pmem.Glib.{GHashTable}
use log_heap_pmem.Heap.{Heap}
use log_heap_pmem.Cleaning.{test_and_set_curr_cleaned}
use log_heap_pmem.Cleaning.Marks.{
  Phase, Phases, idle, testing, working, removing, assign, Uses, State, Overlap, Steps, done, more,
  at_rest, lock, claim, begin_remove,
}

-- Every thread but thread 0 is idle.
abbrev OthersIdle : Phases → Type 0
OthersIdle f = (u : ℕ) → 0 ≢ u → f u ≡ idle

assign-OthersIdle : (f : Phases) (x : Phase) → OthersIdle f → OthersIdle (assign f 0 x)
assign-OthersIdle f x is u ne = rw (==_ne 0 u ne) (is u ne)

Uses-first : (f : Phases) (u : ℕ) → OthersIdle f → Uses (f u) → 0 ≡ u
Uses-first f u is h = elim (ℕ_discrete 0 u) [
  | yes same ↦ same
  | no other ↦ let h' = rw (is u other) at h in absurd h'
]

module _ (glib : GHashTable) where
  open glib use {new, contains-new}

  alone : (s : State glib) → OthersIdle s.phase → Overlap glib s → ⊥
  alone s is o =
      o.distinct
        (sym (Uses-first s.phase o.one is o.one_uses) ∙ Uses-first s.phase o.other is o.other_uses)

  first_wins :
      (p : Heap glib) (a : Offset)
      → p.currently_cleaned_segments ≡ new
      → (test_and_set_curr_cleaned glib p a).1 ≡ true
  unfolding test_and_set_curr_cleaned
  first_wins p a empty = rw (empty, contains-new (p.memory.segment a).id) refl

  -- From a heap with no marks, the mutex free and every thread idle, a state is reached in which
  -- thread 0 removes its mark while thread 1 is in `test_and_set_curr_cleaned` with the mutex, for any
  -- two segments.
  pub removal-Overlap :
      (p : Heap glib) (a b : Offset)
      → p.currently_cleaned_segments ≡ new
      → (r : State glib) × (Steps glib (at_rest glib p) r × Overlap glib r)
  removal-Overlap p a b empty =
      let won = first_wins p a empty in
      let s0 = at_rest glib p in
      let f1 = assign s0.phase 0 (testing a) in
      let s1 : State glib = record s0 { mutex = some 0; phase = f1 } in
      let f2 = assign f1 0 (working a) in
      let s2 : State glib = record {
        heap = (test_and_set_curr_cleaned glib p a).0;
        mutex = none;
        phase = f2;
      } in
      let f3 = assign f2 0 (removing a) in
      let s3 : State glib = record s2 { phase = f3 } in
      let s4 : State glib = record s3 { mutex = some 1; phase = assign f3 1 (testing b) } in
      let idle0 : OthersIdle s0.phase = λ u ne. refl in
      let idle1 = assign-OthersIdle s0.phase (testing a) idle0 in
      let idle2 = assign-OthersIdle f1 (working a) idle1 in
      let idle3 = assign-OthersIdle f2 (removing a) idle2 in
      (
        s4,
        (
          more s0 s3 s4
              (more s0 s2 s3
                (more s0 s1 s2 (more s0 s0 s1 (done s0) (alone s0 idle0) (lock s0 0 a refl refl))
                  (alone s1 idle1) (claim s1 0 a refl won))
                (alone s2 idle2) (begin_remove s2 0 a refl))
              (alone s3 idle3) (lock s3 1 b refl refl),
          record {
            one = 0;
            other = 1;
            distinct = λ e. ground (arith, e);
            one_uses = tt;
            other_uses = tt;
          },
        ),
      )
