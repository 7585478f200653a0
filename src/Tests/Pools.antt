-- ===== src/Tests/Pools.antt =====
-- The theorems on opening and closing a pool, applied to the small heap in a pool of five segments' size.
use log_heap_pmem.Base.{
  ℕ, ◌≡◌, ◌≢◌, ◌<◌, refl, arith, Bool, true, false, Option, none, some, List, ◌==◌, if◌then◌else◌,
  ok,
}
use log_heap_pmem.Base.Words.{sub64}
use log_heap_pmem.Types.{Memory, Offset}
use log_heap_pmem.Glib.Assoc.{assoc}
use log_heap_pmem.Log.Lists.{IsLog}
use log_heap_pmem.Store.{IsPlaced}
use log_heap_pmem.Heap.{Heap}
use log_heap_pmem.Heap.Content.{IsHeap, Live, read}
use log_heap_pmem.Init.{is_log_initialized, log_signature, same_bytes}
use log_heap_pmem.Consistency.{segment_count}
use log_heap_pmem.Recovery.Notes.{entry_of}
use log_heap_pmem.Persist.{
  HashFile, created, resize, bytes_for, init_hash_pmem, persist_table, load_table,
}
use log_heap_pmem.Persist.Mapping.{Calls, nothing_open, mapped}
use log_heap_pmem.Persist.RoundTrip.{load-persist}
use log_heap_pmem.Persist.Resources.{init_hash_pmem-handles}
use log_heap_pmem.Cleaning.Start.{CleanerInfo}
use log_heap_pmem.Pool.{init_pmem, delete_pmem, build_table, rebuild}
use log_heap_pmem.Pool.Fallback.{build_table-rebuild, unfinished}
use log_heap_pmem.Pool.Mapping.{open_mapping, let_go, unmap, pool_size}
use log_heap_pmem.Pool.Resources.{pool_open, left_open, init_pmem-handles}
use log_heap_pmem.Pool.Reopen.{Maps, Holds}
use log_heap_pmem.Pool.RoundTrip.{delete_pmem-init_pmem, delete_pmem-stale}
use log_heap_pmem.Tests.{
  small_memory, small_lists, small_table, small_heap, small-IsHeap, small-IsLog,
}

abbrev pub all_succeed : Calls
all_succeed = record {
  open_file = true;
  truncate = true;
  config_new = true;
  set_granularity = true;
  source_from_fd = true;
  map_new = true;
  source_delete = true;
  config_delete = true;
  map_delete = true;
  close_file = true;
}

abbrev no_mapping : Calls
no_mapping = record all_succeed { map_new = false }

abbrev roomy : HashFile
roomy = record created { size = 64 }

small_size : assoc.size small_table ≡ 2
unfolding assoc
small_size = refl

-- Both threads are created.
abbrev started : ℕ → Bool
started i = true

load-persist_example :
    (f : HashFile) × (persist_table assoc small_table roomy ≡ ok f)
    × ((fuel : ℕ) (p : Heap assoc)
        → assoc.size small_table < fuel
        → p.hash_table ≡ assoc.new
        → (t : assoc.Table) × (load_table assoc fuel f p ≡ ok (record p { hash_table = t }, 0))
          × ((j : ℕ) → entry_of assoc t j ≡ entry_of assoc small_table j))
load-persist_example =
    load-persist assoc small_table (omega (arith, small_size)) roomy (omega (arith, small_size))

init_hash_pmem_example :
    (file : Option HashFile) × (init_hash_pmem no_mapping 2 (some roomy) nothing_open ≡ (
      if (init_hash_pmem no_mapping 2 (some roomy) nothing_open).1 == 0
      then ((some (if 2 == 0 then roomy else resize roomy (bytes_for 2)), mapped), 0)
      else ((file, nothing_open), 1)))
init_hash_pmem_example = init_hash_pmem-handles no_mapping 2 (some roomy)

init_pmem_example : nothing_open ≡ (if 1 == 0 then pool_open else left_open no_mapping true)
unfolding init_pmem open_mapping pool_size
init_pmem_example =
    init_pmem-handles assoc 9 9 no_mapping all_succeed true started 20608 small_memory none none
      nothing_open 1 refl

-- The small heap on a log with the signature.
abbrev signed_memory : Memory
signed_memory = record small_memory { log = record small_memory.log { signature = log_signature } }

abbrev pool : Heap assoc
pool = record small_heap { memory = signed_memory; size = 20480 }

signed-IsLog : IsLog signed_memory small_lists
signed-IsLog = record {
  free = small-IsLog.free;
  used = small-IsLog.used;
  cleaner = small-IsLog.cleaner;
  emergency = small-IsLog.emergency;
  head = refl;
  head_next = λ ne. refl;
  apart = small-IsLog.apart;
}

pool-IsPlaced : (o : Offset) → Live assoc pool o → IsPlaced signed_memory small_lists o
pool-IsPlaced o live =
    let at = small-IsHeap.store.placed o live in
    record {
      segment = at.segment;
      above = at.above;
      below = at.below;
      not_free = at.not_free;
      behind = at.behind;
    }

pool-IsHeap : IsHeap assoc pool small_lists
pool-IsHeap = record {
  store = record {
    log = signed-IsLog;
    position = small-IsHeap.store.position;
    segments = small-IsHeap.store.segments;
    placed = pool-IsPlaced;
  };
  entries = λ i h.
      let at = small-IsHeap.entries i h in
      record { nonzero = at.nonzero; own = at.own; nonempty = at.nonempty; kept = at.kept };
  separate = small-IsHeap.separate;
}

signed : is_log_initialized signed_memory ≡ true
unfolding is_log_initialized same_bytes
signed = refl

pool_opens : (open_mapping all_succeed true 20608).1 ≡ 0
unfolding open_mapping pool_size
pool_opens = refl

fits_pool : pool_size 20608 ≡ 20480
unfolding pool_size sub64
fits_pool = refl

file_opens : (n : ℕ) (file : Option HashFile) → Maps all_succeed n file
unfolding init_hash_pmem
file_opens n file = ground arith

four_segments : segment_count small_lists ≡ 4
unfolding segment_count
four_segments = refl

lets_go : (let_go all_succeed (open_mapping all_succeed true 20608).0).1 ≡ 0
unfolding let_go open_mapping pool_size
lets_go = refl

reopen_example :
    (m : Memory) × (f : HashFile) × (q : Heap assoc) × (threads : List CleanerInfo) × ((let (
      left, r,
    ) =
          unmap all_succeed pool_open in
        delete_pmem assoc all_succeed all_succeed true pool none pool_open
        ≡ ok ((m, some f, left), r))
      × (init_pmem assoc 9 9 all_succeed all_succeed true started 20608 m (some f)
          ≡ ok (
            (
              some (q, some f, threads),
              (let_go all_succeed (open_mapping all_succeed true 20608).0).0,
            ),
            0,
          ))
      × IsHeap assoc q small_lists
      × ((j : ℕ) → read assoc q j ≡ read assoc pool j))
reopen_example =
    delete_pmem-init_pmem assoc pool small_lists pool-IsHeap signed (omega (arith, four_segments)) 9
      9 20608 all_succeed started (omega (arith, four_segments)) pool_opens fits_pool all_succeed
      all_succeed all_succeed (λ f. file_opens 0 (some f)) none pool_open
      (λ z. omega (arith, small_size, z)) (omega (arith, small_size)) (omega (arith, small_size))
      (file_opens (assoc.size small_table) none) lets_go

-- The pool after its last object was freed.
abbrev empty_pool : Heap assoc
empty_pool = record pool { hash_table = assoc.new }

nothing_there : (id : ℕ) → assoc.contains assoc.new id ≢ true
nothing_there id h = ground (arith, assoc.contains-new id, h)

empty_pool-IsHeap : IsHeap assoc empty_pool small_lists
empty_pool-IsHeap = record {
  store = record {
    log = signed-IsLog;
    position = small-IsHeap.store.position;
    segments = small-IsHeap.store.segments;
    placed = λ o (id, h, _). absurd (nothing_there id h);
  };
  entries = λ id h. absurd (nothing_there id h);
  separate = λ i j ne h _. absurd (nothing_there i h);
}

-- The file of an earlier shutdown, when the two objects were there.
abbrev old_file : HashFile
old_file =
    (load-persist assoc small_table (omega (arith, small_size)) roomy (omega (arith, small_size))).0

old_file-Holds : Holds assoc old_file small_table
old_file-Holds =
    (load-persist assoc small_table (omega (arith, small_size)) roomy (omega (arith, small_size))).2

empty_size : assoc.size assoc.new ≡ 0
unfolding assoc
empty_size = refl

stale_example :
    (m : Memory) × (q : Heap assoc) × (threads : List CleanerInfo) × ((let (left, r) =
          unmap all_succeed pool_open in
        delete_pmem assoc all_succeed all_succeed true empty_pool (some old_file) pool_open
        ≡ ok ((m, some old_file, left), r))
      × (let (opened, r) = let_go all_succeed (open_mapping all_succeed true 20608).0 in
          init_pmem assoc 9 9 all_succeed all_succeed true started 20608 m (some old_file)
          ≡ ok ((if r == 0 then some (q, some old_file, threads) else none, opened), r))
      × ((j : ℕ) → entry_of assoc q.hash_table j ≡ entry_of assoc small_table j))
stale_example =
    delete_pmem-stale assoc empty_pool small_lists empty_pool-IsHeap signed
      (omega (arith, four_segments)) 9 9 20608 all_succeed started (omega (arith, four_segments))
      pool_opens fits_pool all_succeed all_succeed all_succeed (λ f. file_opens 0 (some f)) old_file
      small_table pool_open empty_size old_file-Holds (omega (arith, small_size))

-- A pool that was closed; its table's file was never finished.
abbrev closed_pool : Heap assoc
closed_pool = record empty_pool {
  memory = record signed_memory { log = record signed_memory.log { regular_termination = 1 } };
}

fallback_example :
    (file : Option HashFile) × (build_table assoc 9 9 all_succeed true closed_pool (some roomy)
      ≡ rebuild assoc 9 9 closed_pool file)
fallback_example =
    build_table-rebuild assoc all_succeed true 9 9 closed_pool refl (some roomy)
      (unfinished roomy refl (file_opens 0 (some roomy)) refl)
