-- ===== src/Pool.antt =====
-- project/log_pmem.c, `init_pmem` and `delete_pmem`: a pool is opened and closed. Its two files are the
-- mapped memory and the copy of the hash table.
pub mod Mapping
pub mod Resources
pub mod Reopen
pub mod RoundTrip
pub mod Fallback
use log_heap_pmem.Base.{ℕ, Bool, Option, none, some, List, [], ◌==◌, if◌then◌else◌, Run, ok, ◌>>=◌}
use log_heap_pmem.Types.{Memory}
use log_heap_pmem.Glib.{GHashTable}
use log_heap_pmem.Heap.{Heap, init_hash_table}
use log_heap_pmem.Heap.Flagged.{set_regular_termination}
use log_heap_pmem.Init.{is_log_initialized, init_log}
use log_heap_pmem.Consistency.{check_consistency}
use log_heap_pmem.Recovery.{reconstruct_hash_table}
use log_heap_pmem.Persist.{HashFile, persist_hash_table, get_persisted_hash_table}
use log_heap_pmem.Cleaning.Start.{CleanerInfo, init_cleaner}
use log_heap_pmem.Persist.Mapping.{Calls, Handles, nothing_open}
use log_heap_pmem.Pool.Mapping.{open_mapping, pool_size, let_go, unmap}

module _ (glib : GHashTable) where
  open glib use {Table, new}

  unfoldable pub rebuild : ℕ → ℕ → Heap glib → Option HashFile → Run (Heap glib × Option HashFile)
  rebuild fuel steps p file = do
    t ← reconstruct_hash_table glib fuel steps p.memory p.hash_table
    ok (record p { hash_table = t }, file)

  -- The table: after a regular termination from its file, else, or if that fails, from the log.
  unfoldable pub build_table :
      ℕ → ℕ → Calls → Bool → Heap glib → Option HashFile → Run (Heap glib × Option HashFile)
  build_table fuel steps calls malloc p file =
      let loaded = do
        ((p, file, _), failed) ← get_persisted_hash_table glib fuel calls malloc file p nothing_open
        if failed == 0 then ok (p, file) else rebuild fuel steps p file
      in if p.memory.log.regular_termination == 0 then rebuild fuel steps p file else loaded

  -- What `init_pmem` gives its caller: the heap, the file of its table and the cleaner's threads.
  abbrev pub Opened : Type 0
  Opened = Heap glib × Option HashFile × List CleanerInfo

  -- The threads of the cleaner are started if the log is consistent. They take no step before the
  -- pool is open.
  unfoldable pub start_cleaner : (ℕ → Bool) → Heap glib → Heap glib × List CleanerInfo
  start_cleaner create p =
      if p.consistent == 0
      then (p, [])
      else (let (p, infos, _) =
            init_cleaner glib create (λ i q. q) p p.memory.log.regular_termination in
          (p, infos))

  -- The part of `init_pmem` on the mapped memory. `create` is for the threads.
  unfoldable pub open_heap :
      ℕ → ℕ → Calls → Bool → (ℕ → Bool) → ℕ → Memory → Option HashFile → Run Opened
  open_heap fuel steps calls malloc create size m file = do
    m ← if is_log_initialized m then ok m else init_log fuel size m
    p ← check_consistency fuel (record {
      memory = m;
      size = size;
      hash_table = new;
      currently_cleaned_segments = new;
      consistent = 0;
    })
    (p, file) ← build_table fuel steps calls malloc (init_hash_table glib p) file
    let (p, infos) = start_cleaner create p
    ok (record p { memory = set_regular_termination p.memory 0 }, file, infos)

  -- What the caller is given if the pool could be opened, what is open, and the result. If a call
  -- fails at the end the mapping is gone, and the caller is given nothing. `calls` are
  -- for the pool's file, `hash_calls` for the table's.
  unfoldable pub init_pmem :
      ℕ
      → ℕ
      → Calls
      → Calls
      → Bool
      → (ℕ → Bool)
      → ℕ
      → Memory
      → Option HashFile
      → Run ((Option Opened × Handles) × ℕ)
  init_pmem fuel steps calls hash_calls malloc create map_size m file =
      let (h, failed) = open_mapping calls malloc map_size in
      let opened = do
        s ← open_heap fuel steps hash_calls malloc create (pool_size map_size) m file
        let (h, r) = let_go calls h
        ok ((if r == 0 then some s else none, h), r)
      in if failed == 0 then opened else ok ((none, h), 1)

  -- The memory and the table's file that are left, what is open, and the result.
  unfoldable pub delete_pmem :
      Calls
      → Calls
      → Bool
      → Heap glib
      → Option HashFile
      → Handles
      → Run ((Memory × Option HashFile × Handles) × ℕ)
  delete_pmem calls hash_calls malloc p file h = do
    ((file, _), _) ← persist_hash_table glib hash_calls malloc p.hash_table file nothing_open
    let (h, r) = unmap calls h
    ok ((set_regular_termination p.memory 1, file, h), r)
