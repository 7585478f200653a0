-- ===== src/Pool/Reopen.antt =====
-- `delete_pmem` and then `init_pmem` (project/log_pmem.c) on the same two files.
use log_heap_pmem.Base.{
  ℕ, ◌/◌, ◌^◌, ◌<◌, ◌≤◌, ◌≡◌, ◌≢◌, refl, sym, ◌∙◌, ap, arith, Bool, true, Option, none, some, List,
  [], ◌∷◌, ◌==◌, if◌then◌else◌, ok, length, ==_ne, Bool-cases, inl, inr,
}
use log_heap_pmem.Base.Words.{word, sub64}
use log_heap_pmem.Types.{Memory, sizeof_log, segment_size, cleaner_thread_count}
use log_heap_pmem.Glib.{GHashTable, find}
use log_heap_pmem.Log.Lists.{Lists, IsLog}
use log_heap_pmem.Heap.{Heap, init_hash_table}
use log_heap_pmem.Heap.Flagged.{set_regular_termination, IsLog-flag}
use log_heap_pmem.Init.{is_log_initialized}
use log_heap_pmem.Consistency.{check_consistency-count, segment_count}
use log_heap_pmem.Recovery.Notes.{entry_of}
use log_heap_pmem.Persist.{
  HashFile, bytes_for, resize, existing, init_hash_pmem, delete_hash_pmem, persist_hash_table,
  get_persisted_hash_table, load_table,
}
use log_heap_pmem.Persist.Mapping.{Calls, Handles, nothing_open, mapped}
use log_heap_pmem.Persist.Resources.{init_hash_pmem-handles}
use log_heap_pmem.Persist.RoundTrip.{load-persist}
use log_heap_pmem.Pool.{build_table, open_heap, start_cleaner, init_pmem}
use log_heap_pmem.Cleaning.Start.{CleanerInfo, init_cleaner}
use log_heap_pmem.Cleaning.Start.Threads.{create_threads-same}
use log_heap_pmem.Pool.Mapping.{open_mapping, let_go, pool_size}

-- The calls that map the file of a table with `n` pairs succeed.
abbrev pub Maps : Calls → ℕ → Option HashFile → Type 0
Maps calls n file = (init_hash_pmem calls n file nothing_open).1 ≡ 0

resize-room : (f : HashFile) (n : ℕ) → bytes_for n ≤ (resize f (bytes_for n)).size
unfolding resize
resize-room f n = omega arith

is_log_initialized-flag :
    (m : Memory) (b : ℕ) → is_log_initialized (set_regular_termination m b) ≡ is_log_initialized m
unfolding is_log_initialized
is_log_initialized-flag m b = refl

module _ (glib : GHashTable) where
  open glib use {Table, new, contains, contains-new, size, size-to_list, find-to_list, to_list}

  -- A file that `get_persisted_hash_table` reads as the entries of `t`.
  abbrev pub Holds : HashFile → Table → Type 0
  Holds f t =
      (fuel : ℕ) (p : Heap glib)
      → size t < fuel
      → p.hash_table ≡ new
      → (t' : Table) × (load_table glib fuel f p ≡ ok (record p { hash_table = t' }, 0))
        × ((j : ℕ) → entry_of glib t' j ≡ entry_of glib t j)

  empty-list : (xs : List (ℕ × ℕ)) → ((j : ℕ) → find j xs ≡ none) → length xs ≡ 0
  unfolding find
  empty-list [] h = refl
  empty-list ((k, v) ∷ xs) h = let found = h k in ground (arith, found)

  pub size-new : size new ≡ 0
  size-new =
      size-to_list new ∙ empty-list (to_list new) (λ j. find-to_list new j ∙ rw (contains-new j))

  -- A table that is not empty is persisted in a file that holds it.
  pub persist-Holds :
      (calls : Calls) (t : Table) (file : Option HashFile)
      → size t ≢ 0
      → size t < 2 ^ 31
      → Maps calls (size t) file
      → (f : HashFile) × (h : Handles) × (persist_hash_table glib calls true t file nothing_open
          ≡ ok ((some f, h), 0))
        × Holds f t
  unfolding persist_hash_table
  persist-Holds calls t file some_pairs few maps =
      let n = size t in
      let (_, e) = init_hash_pmem-handles calls n file in
      let opened : init_hash_pmem calls n file nothing_open
          ≡ ((some (resize (existing file) (bytes_for n)), mapped), 0) =
        e ∙ rw (maps, ==_ne n 0 some_pairs) in
      let (f, run, holds) =
        load-persist glib t few (resize (existing file) (bytes_for n))
          (resize-room (existing file) n) in
      (f, (delete_hash_pmem calls mapped).0, rw (==_ne n 0 some_pairs, opened, run, opened), holds)

  get_persisted-Holds :
      (fuel : ℕ) (calls : Calls) (f : HashFile) (t : Table) (p : Heap glib)
      → Holds f t
      → size t < fuel
      → p.hash_table ≡ new
      → Maps calls 0 (some f)
      → (t' : Table) × (h : Handles) × (get_persisted_hash_table glib fuel calls true
            (some f)
            p
            nothing_open
          ≡ ok ((record p { hash_table = t' }, some f, h), 0))
        × ((j : ℕ) → entry_of glib t' j ≡ entry_of glib t j)
  unfolding get_persisted_hash_table
  get_persisted-Holds fuel calls f t p holds enough empty maps =
      let (_, e) = init_hash_pmem-handles calls 0 (some f) in
      let opened : init_hash_pmem calls 0 (some f) nothing_open ≡ ((some f, mapped), 0) =
        e ∙ rw maps in
      let none_yet : size p.hash_table ≡ 0 = ap size empty ∙ size-new in
      let (t', run, same) = holds fuel p enough empty in
      (t', (delete_hash_pmem calls mapped).0, rw (none_yet, opened, run, none_yet, opened), same)

  module _ (p : Heap glib) (ls : Lists) (is : IsLog p.memory ls)
      (initialized : is_log_initialized p.memory ≡ true) (few : segment_count ls < word) where
    -- The heap behind `init_pmem` on the memory that `delete_pmem` left.
    abbrev pub opened_with : Table → Heap glib
    opened_with t = record {
      memory = set_regular_termination p.memory 0;
      size = p.size;
      hash_table = t;
      currently_cleaned_segments = new;
      consistent = if segment_count ls == sub64 p.size sizeof_log / segment_size then 1 else 0;
    }

    start_cleaner-same :
        (create : ℕ → Bool) (q : Heap glib)
        → q.currently_cleaned_segments ≡ new
        → start_cleaner glib create q ≡ (q, (start_cleaner glib create q).1)
    unfolding start_cleaner init_cleaner
    start_cleaner-same create q none_yet = elim (Bool-cases (q.consistent == 0)) [
      | inl inconsistent ↦ rw inconsistent
      | inr consistent ↦
          let regular = q.memory.log.regular_termination in
          let infos = (init_cleaner glib create (λ i r. r) q regular).1 in
          let unmarked : record q { currently_cleaned_segments = new } ≡ q =
            ap (λ (t : Table). record q { currently_cleaned_segments = t }) (sym none_yet) in
          rw consistent (
            ap (λ (h : Heap glib). (h, infos))
              (create_threads-same glib cleaner_thread_count create regular 0
                  (record q { currently_cleaned_segments = new })
                ∙ unmarked))
    ]

    open_heap-Holds :
        (fuel steps : ℕ) (calls : Calls) (create : ℕ → Bool) (f : HashFile) (t : Table)
        → Holds f t
        → Maps calls 0 (some f)
        → size t < fuel
        → segment_count ls < fuel
        → (t' : Table) × (threads : List CleanerInfo) × (open_heap glib fuel steps calls true create
              p.size
              (set_regular_termination p.memory 1)
              (some f)
            ≡ ok (opened_with t', some f, threads))
          × ((j : ℕ) → entry_of glib t' j ≡ entry_of glib t j)
    unfolding open_heap build_table init_hash_table
    open_heap-Holds fuel steps calls create f t holds maps enough enough' =
        let m = set_regular_termination p.memory 1 in
        let start : Heap glib = record (opened_with new) { memory = m; consistent = 0 } in
        let counted =
          check_consistency-count start ls (IsLog-flag p.memory ls 1 is) fuel enough' few in
        let checked : Heap glib = record (opened_with new) { memory = m } in
        let (t', h, run, same) =
          get_persisted-Holds fuel calls f t checked holds enough refl maps in
        let q : Heap glib = record (opened_with t') { memory = m } in
        (
          t',
          (start_cleaner glib create q).1,
          rw (
            is_log_initialized-flag p.memory 1,
            initialized,
            counted,
            run,
            start_cleaner-same create q refl,
          ),
          same,
        )

    module _ (fuel steps map_size : ℕ) (calls hash_calls : Calls) (create : ℕ → Bool)
        (enough : segment_count ls < fuel) (good : (open_mapping calls true map_size).1 ≡ 0)
        (same_size : pool_size map_size ≡ p.size) where
      -- `init_pmem` after a regular termination, with a file that holds a table.
      pub init_pmem-Holds :
          (f : HashFile) (t : Table)
          → Holds f t
          → Maps hash_calls 0 (some f)
          → size t < fuel
          → (t' : Table) × (threads : List CleanerInfo) × (init_pmem glib fuel steps calls
                hash_calls true create map_size
                (set_regular_termination p.memory 1)
                (some f)
              ≡ (let (h, r) = let_go calls (open_mapping calls true map_size).0 in
                  ok ((if r == 0 then some (opened_with t', some f, threads) else none, h), r)))
            × ((j : ℕ) → entry_of glib t' j ≡ entry_of glib t j)
      unfolding init_pmem
      init_pmem-Holds f t holds maps few_pairs =
          let (t', threads, run, same) =
            open_heap-Holds fuel steps hash_calls create f t holds maps few_pairs enough in
          (t', threads, rw (good, same_size, run), same)
