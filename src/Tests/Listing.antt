-- ===== src/Tests/Listing.antt =====
-- The theorems on the start of the threads, on freeing all cleaner segments and on project/main.c, applied
-- to small logs.
use log_heap_pmem.Base.{
  ℕ, zero, suc, sym, ==_ne, ◌∙◌, List, ◌>>=◌, ◌≡◌, ◌≢◌, ◌≤◌, ◌<◌, ◌⊎◌, ◌*◌, refl, arith, true, none,
  some, [], ◌∷◌, ok, ◌==◌, if◌then◌else◌,
}
use log_heap_pmem.Base.Words.{add64}
use log_heap_pmem.Types.{Memory, Offset}
use log_heap_pmem.Glib.Assoc.{assoc}
use log_heap_pmem.Log.{log_entry_size}
use log_heap_pmem.Log.Lists.{IsLog}
use log_heap_pmem.Heap.{Heap}
use log_heap_pmem.Cleaner.FreeAll.{append_all_cleaner_segments_to_free_segments}
use log_heap_pmem.Cleaner.FreeAll.Lists.{append_all_to_free-IsLog}
use log_heap_pmem.Cleaning.{Cursor, copy_entry, test_and_set_curr_cleaned}
use log_heap_pmem.Cleaning.Start.{CleanerInfo, init_cleaner, start_cleaning}
use log_heap_pmem.Cleaning.Start.Threads.{nth, between, init_cleaner-segments}
use log_heap_pmem.Cleaning.Start.Overwrites.{start_cleaning-overwrites}
use log_heap_pmem.Cleaning.Marks.{
  idle, testing, working, assign, Uses, State, Overlap, done, more, lock, claim, at_rest,
}
use log_heap_pmem.Cleaning.Exclusion.{Exclusive, Steps-apart}
use log_heap_pmem.Program.{random_string}
use log_heap_pmem.Program.Text.{IsAlphanumeric, random_string-bounds}
use log_heap_pmem.Program.Main.{PrintedLists, print_and_close, print_and_close-Printed}
use log_heap_pmem.Pool.{delete_pmem}
use log_heap_pmem.Persist.Mapping.{nothing_open}
use log_heap_pmem.Tests.Pools.{all_succeed}
use log_heap_pmem.Tests.{object_entry, no_entry, small_heap, small_memory, small_lists, small-IsLog}
use log_heap_pmem.Tests.Threads.{threads_memory, threads_lists, threads_heap, threads-IsLog}

-- The threads take no step before the call returns.
abbrev waiting : ℕ → Heap assoc → Heap assoc
waiting i p = p

init_cleaner_example :
    (init_cleaner assoc (λ i. true) waiting threads_heap 0 ≡ (
      waiting 1 (between assoc waiting threads_heap),
      record { segment = nth threads_lists.cleaner 0; regular_termination = 0 }
          ∷ record { segment = nth threads_lists.cleaner 1; regular_termination = 0 }
          ∷ [],
      0,
    ))
    × ((nth threads_lists.cleaner 0 ≢ nth threads_lists.cleaner 1)
        ⊎ (nth threads_lists.cleaner 0 ≡ 0))
init_cleaner_example =
    init_cleaner-segments assoc (λ i. true) waiting threads_heap threads_lists 0 threads-IsLog
      threads_lists threads-IsLog refl refl

-- The object 2 was updated inside the cleaner segment: its old entry is the first one there.
abbrev superseded_heap : Heap assoc
superseded_heap = record threads_heap {
  memory = record threads_memory {
    segment = λ a. record (threads_memory.segment a) { used_space = 35 };
    entry = λ a.
        if a == 12440
        then object_entry 2 (4 ∷ 5 ∷ 6 ∷ [])
        else (if a == 12475 then object_entry 2 (7 ∷ 8 ∷ 9 ∷ []) else no_entry);
  };
  hash_table = assoc.insert assoc.new 2 12475;
}

abbrev taken : CleanerInfo
taken = record { segment = 12416; regular_termination = 1 }

points_behind : assoc.lookup superseded_heap.hash_table 2 ≡ 12475
unfolding assoc
points_behind = refl

overwrites_example :
    (c : Cursor) × (start_cleaning assoc 5 superseded_heap taken ≡ ok (superseded_heap, c))
    × ((off : Offset)
        → (copy_entry superseded_heap.memory c off).entry
            (assoc.lookup superseded_heap.hash_table 2)
          ≡ superseded_heap.memory.entry off)
unfolding log_entry_size add64
overwrites_example =
    start_cleaning-overwrites assoc 3 superseded_heap taken 2 (λ z. omega (arith, z))
      (λ z. omega (arith, z)) refl (λ z. omega (arith, z)) (omega arith) refl points_behind

marks : (test_and_set_curr_cleaned assoc threads_heap 128).1 ≡ true
unfolding test_and_set_curr_cleaned assoc
marks = refl

-- Thread 0 tests the segment at 128, and claims it.
abbrev tested : State assoc
tested = record { heap = threads_heap; mutex = some 0; phase = assign (λ t. idle) 0 (testing 128) }

abbrev won : State assoc
won = record {
  heap = (test_and_set_curr_cleaned assoc threads_heap 128).0;
  mutex = none;
  phase = assign tested.phase 0 (working 128);
}

-- Only thread 0 uses the table.
none_at_rest : Overlap assoc (at_rest assoc threads_heap) → ⊥
none_at_rest o = o.one_uses

first_only : (u : ℕ) → Uses (tested.phase u) → u ≡ 0
first_only zero h = refl
first_only (suc u) h = let h' = rw (==_ne 0 (suc u) (λ e. omega (arith, e))) at h in absurd h'

none_tested : Overlap assoc tested → ⊥
none_tested o = o.distinct (first_only o.one o.one_uses ∙ sym (first_only o.other o.other_uses))

steps_example : Exclusive assoc won
steps_example = Steps-apart assoc threads_heap won refl (
    more (at_rest assoc threads_heap) tested won
      (more (at_rest assoc threads_heap) (at_rest assoc threads_heap) tested
        (done (at_rest assoc threads_heap)) none_at_rest
        (lock (at_rest assoc threads_heap) 0 128 refl refl))
      none_tested (claim tested 0 128 refl marks))

free_all_example :
    (m : Memory) × (append_all_cleaner_segments_to_free_segments 2 threads_memory ≡ ok m)
    × IsLog m (record threads_lists { free = 8320 ∷ 12416 ∷ []; cleaner = [] })
free_all_example =
    append_all_to_free-IsLog threads_memory threads_lists threads-IsLog 2 (omega arith)
      (omega arith)

abbrev sevens : ℕ → ℕ
sevens i = 7 * i

abbrev ones : ℕ → ℕ
ones j = 1

random_string_example :
    ((j : ℕ) → 4 ≤ j → random_string sevens ones 4 j ≡ 1)
    × ((n : ℕ)
        → 4 ≡ suc n
        → (random_string sevens ones 4 n ≡ 0)
          × ((j : ℕ) → j < n → IsAlphanumeric (random_string sevens ones 4 j)))
random_string_example = random_string-bounds sevens ones 4

-- The threads do nothing while `main` sleeps.
abbrev no_work : Heap assoc → List CleanerInfo → Heap assoc
no_work p threads = p

main_example :
    print_and_close assoc 2 no_work all_succeed all_succeed true (small_heap, none, []) nothing_open
    ≡ (do
      printed ← PrintedLists small_memory small_lists
      ((m, file, _), r) ←
          delete_pmem assoc all_succeed all_succeed true small_heap none nothing_open
      ok (some printed, some (m, file), if r == 0 then 0 else 1))
main_example =
    print_and_close-Printed assoc 2 no_work all_succeed all_succeed true small_heap none []
      nothing_open small_lists small-IsLog (omega arith) (omega arith) (omega arith) (omega arith)
      (omega arith)
