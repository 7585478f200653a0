-- ===== src/Pool/RoundTrip.antt =====
-- `delete_pmem` and then `init_pmem` (project/log_pmem.c): what the heap holds after a regular
-- shutdown.
use log_heap_pmem.Base.{
  ℕ, ◌^◌, ◌<◌, ◌≡◌, ◌≢◌, ◌∙◌, ◌==◌, if◌then◌else◌, refl, Bool, true, Option, none, some, List, ok,
}
use log_heap_pmem.Base.Words.{word}
use log_heap_pmem.Types.{Memory}
use log_heap_pmem.Glib.{GHashTable}
use log_heap_pmem.Log.Lists.{Lists}
use log_heap_pmem.Heap.{Heap}
use log_heap_pmem.Heap.Content.{IsHeap, read}
use log_heap_pmem.Heap.Flagged.{set_regular_termination, IsHeap-flag, read-flag}
use log_heap_pmem.Init.{is_log_initialized}
use log_heap_pmem.Consistency.{segment_count}
use log_heap_pmem.Recovery.Notes.{entry_of}
use log_heap_pmem.Persist.{HashFile, persist_hash_table}
use log_heap_pmem.Persist.Mapping.{Calls, Handles}
use log_heap_pmem.Cleaning.Start.{CleanerInfo}
use log_heap_pmem.Pool.{init_pmem, delete_pmem}
use log_heap_pmem.Pool.Mapping.{open_mapping, let_go, unmap, pool_size}
use log_heap_pmem.Pool.Reopen.{Maps, Holds, opened_with, persist-Holds, init_pmem-Holds}

module _ (glib : GHashTable) where
  open glib use {Table, size}

  module _ (p : Heap glib) (ls : Lists) (is : IsHeap glib p ls)
      (initialized : is_log_initialized p.memory ≡ true) (few : segment_count ls < word)
      (fuel steps map_size : ℕ) (calls : Calls) (create : ℕ → Bool)
      (enough : segment_count ls < fuel) (good : (open_mapping calls true map_size).1 ≡ 0)
      (same_size : pool_size map_size ≡ p.size) (closing hash_closing hash_calls : Calls)
      (maps : (f : HashFile) → Maps hash_calls 0 (some f)) where
    -- What is open before the last calls of `init_pmem`.
    abbrev before_end : Handles
    before_end = (open_mapping calls true map_size).0

    -- Take a heap with at least one object and below 2^31, on an initialized log, with the numbers
    -- of objects and of segments below the fuel and that of segments below a word. Let both
    -- allocations succeed, the calls that map the table's file in both runs, and all calls of
    -- `init_pmem` on the pool's file, which has the pool's size. Then `delete_pmem` returns, and
    -- `init_pmem` on the memory and the file that it left reports 0, with a heap in which every id
    -- reads what it read before, in a well-formed state over the same lists of segments.
    pub delete_pmem-init_pmem :
        (file : Option HashFile) (h : Handles)
        → size p.hash_table ≢ 0
        → size p.hash_table < 2 ^ 31
        → size p.hash_table < fuel
        → Maps hash_closing (size p.hash_table) file
        → (let_go calls before_end).1 ≡ 0
        → (m : Memory) × (f : HashFile) × (q : Heap glib) × (threads : List CleanerInfo) × ((let (
          left, r,
        ) =
                unmap closing h in
              delete_pmem glib closing hash_closing true p file h ≡ ok ((m, some f, left), r))
            × (init_pmem glib fuel steps calls hash_calls true create map_size m (some f)
                ≡ ok ((some (q, some f, threads), (let_go calls before_end).0), 0))
            × IsHeap glib q ls
            × ((j : ℕ) → read glib q j ≡ read glib p j))
    unfolding delete_pmem
    delete_pmem-init_pmem file h some_pairs small enough' persisted let_go_well =
        let (f, hs, run, holds) =
          persist-Holds glib hash_closing p.hash_table file some_pairs small persisted in
        let (t, threads, opened, same) =
          init_pmem-Holds glib p ls is.store.log initialized few fuel steps map_size calls
            hash_calls create enough good same_size f p.hash_table holds (maps f) enough' in
        let q = opened_with glib p ls is.store.log initialized few t in
        (
          set_regular_termination p.memory 1,
          f,
          q,
          threads,
          (
            rw run,
            opened ∙ rw let_go_well,
            IsHeap-flag glib p q ls 0 is refl same,
            read-flag glib p q ls 0 is refl same,
          ),
        )

    -- Take the same heap but without an object, and a file that holds a table `t` of an earlier
    -- shutdown, of fewer entries than the fuel. `delete_pmem` leaves the file as it is and marks
    -- the termination as regular, and `init_pmem` takes the entries of `t` into the table of the
    -- heap, which it gives its caller if the calls at its end succeed.
    pub delete_pmem-stale :
        (f : HashFile) (t : Table) (h : Handles)
        → size p.hash_table ≡ 0
        → Holds glib f t
        → size t < fuel
        → (m : Memory) × (q : Heap glib) × (threads : List CleanerInfo) × ((let (left, r) =
                unmap closing h in
              delete_pmem glib closing hash_closing true p (some f) h ≡ ok ((m, some f, left), r))
            × (let (opened, r) = let_go calls (open_mapping calls true map_size).0 in
                init_pmem glib fuel steps calls hash_calls true create map_size m (some f)
                ≡ ok ((if r == 0 then some (q, some f, threads) else none, opened), r))
            × ((j : ℕ) → entry_of glib q.hash_table j ≡ entry_of glib t j))
    unfolding delete_pmem persist_hash_table
    delete_pmem-stale f t h empty holds enough' =
        let (t', threads, opened, same) =
          init_pmem-Holds glib p ls is.store.log initialized few fuel steps map_size calls
            hash_calls create enough good same_size f t holds (maps f) enough' in
        (
          set_regular_termination p.memory 1,
          opened_with glib p ls is.store.log initialized few t',
          threads,
          (rw empty, opened, same),
        )
