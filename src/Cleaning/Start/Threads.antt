-- ===== src/Cleaning/Start/Threads.antt =====
-- `init_cleaner` (project/cleaner.c) against the list of cleaner segments.
use log_heap_pmem.Base.{
  ℕ, zero, suc, ◌+◌, Bool-cases, ◌≡◌, ◌≢◌, ◌⊎◌, inl, inr, refl, arith, Bool, true, List, [], ◌∷◌,
  ==_ne, Distinct,
}
use log_heap_pmem.Types.{Offset, Memory, Segments}
use log_heap_pmem.Types.Chain.{Chain}
use log_heap_pmem.Glib.{GHashTable}
use log_heap_pmem.Log.Lists.{Lists, IsLog}
use log_heap_pmem.Heap.{Heap}
use log_heap_pmem.Cleaning.Start.{skip_segments, create_threads, init_cleaner}

-- The element at an index, or 0 behind the list's end.
abbrev pub nth : List ℕ → ℕ → ℕ
nth [] i = 0
nth (x ∷ xs) zero = x
nth (x ∷ xs) (suc i) = nth xs i

skip_segments-nth :
    (segs : Segments) (i : ℕ) (p : Offset) (xs : List ℕ)
    → Chain segs 0 p xs
    → skip_segments i segs p ≡ nth xs i
unfolding skip_segments
skip_segments-nth segs zero p [] c = c
skip_segments-nth segs zero p (x ∷ xs) c = c.0
skip_segments-nth segs (suc i) p [] c = rw c
skip_segments-nth segs (suc i) p (x ∷ xs) (e, ne, c) =
    rw (e, ==_ne x 0 ne) (skip_segments-nth segs i (segs x).next_segment xs c)

nth-apart :
    (segs : Segments) (p : Offset) (xs : List ℕ)
    → Chain segs 0 p xs
    → Distinct xs
    → (nth xs 0 ≢ nth xs 1) ⊎ (nth xs 0 ≡ 0)
nth-apart segs p [] c d = inr refl
nth-apart segs p (x ∷ []) (_, ne, _) d = inl ne
nth-apart segs p (x ∷ y ∷ xs) c (out, _) = inl (λ e. ground (arith, e, out))

module _ (glib : GHashTable) where
  open glib use {new}

  -- Threads that take no step before the call returns leave the heap as it was.
  pub create_threads-same :
      (n : ℕ) (create : ℕ → Bool) (regular i : ℕ) (p : Heap glib)
      → (create_threads glib n create (λ j q. q) regular i p).0 ≡ p
  unfolding create_threads
  create_threads-same zero create regular i p = refl
  create_threads-same (suc n) create regular i p = elim (Bool-cases (create i)) [
    | inl made ↦ rw made (create_threads-same n create regular (i + 1) p)
    | inr failed ↦ rw failed refl
  ]

  -- The heap that `init_cleaner` finds when it looks for the second thread's segment.
  abbrev pub between : (ℕ → Heap glib → Heap glib) → Heap glib → Heap glib
  between run p = run 0 (record p { currently_cleaned_segments = new })

  module _ (create : ℕ → Bool) (run : ℕ → Heap glib → Heap glib) (p : Heap glib) (ls : Lists)
      (regular : ℕ) (is : IsLog p.memory ls) where
    -- The memory holds the log's lists `ls` when `init_cleaner` is called, and `ls'` when the first
    -- thread is created and may have taken steps. If both threads can be created, `init_cleaner`
    -- reports 0 and gives the first thread the first cleaner segment of `ls` and the second thread
    -- the second one of `ls'`, or NULL where the list is shorter, each with the flag of the
    -- termination. The second one is not the first one of `ls'`, unless that list is empty, so the
    -- two differ if the list of cleaner segments has not changed in between. The call itself only
    -- makes the table of the marks.
    pub init_cleaner-segments :
        (ls' : Lists)
        → IsLog (between run p).memory ls'
        → create 0 ≡ true
        → create 1 ≡ true
        → (init_cleaner glib create run p regular ≡ (
          run 1 (between run p),
          record { segment = nth ls.cleaner 0; regular_termination = regular }
              ∷ record { segment = nth ls'.cleaner 1; regular_termination = regular }
              ∷ [],
          0,
        ))
          × ((nth ls'.cleaner 0 ≢ nth ls'.cleaner 1) ⊎ (nth ls'.cleaner 0 ≡ 0))
    unfolding init_cleaner create_threads
    init_cleaner-segments ls' is' first second =
        let at : (m : Memory) (l : Lists) (i : ℕ)
            → IsLog m l
            → skip_segments i m.segment m.log.cleaner.first ≡ nth l.cleaner i =
          λ m l i on.
            skip_segments-nth m.segment i m.log.cleaner.first l.cleaner on.cleaner.chain in
        let m = (between run p).memory in
        (
          rw (first, second, at p.memory ls 0 is, at m ls' 1 is') refl,
          nth-apart m.segment m.log.cleaner.first ls'.cleaner is'.cleaner.chain
              is'.cleaner.distinct,
        )
