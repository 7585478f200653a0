-- ===== src/Program/Main.antt =====
-- project/main.c, `main`: a pool is opened, its lists of segments are printed while the cleaner's threads
-- run, and it is closed.
use log_heap_pmem.Base.{
  ℕ, ◌<◌, ◌≡◌, refl, arith, Bool, Option, none, some, List, map, length, Run, ok, ◌>>=◌, ◌==◌,
  if◌then◌else◌,
}
use log_heap_pmem.Types.{Memory}
use log_heap_pmem.Glib.{GHashTable}
use log_heap_pmem.Log.Lists.{Lists, IsLog}
use log_heap_pmem.Heap.{Heap}
use log_heap_pmem.Persist.{HashFile}
use log_heap_pmem.Persist.Mapping.{Calls, Handles}
use log_heap_pmem.Cleaning.Start.{CleanerInfo}
use log_heap_pmem.Pool.{Opened, init_pmem, delete_pmem}
use log_heap_pmem.Consistency.{head_list, head-Chain, length-head_list}
use log_heap_pmem.Program.{
  dump_free_seg_ids, dump_head_seg_ids, dump_used_seg_ids, dump_cleaner_seg_ids,
  dump_emergency_cleaner_seg_ids,
}
use log_heap_pmem.Program.Dump.{Printed, dump-lists, dump_seg_ids-Chain}

-- What is printed: the free, the head, the used, the cleaner and the emergency segments.
pub record Printout : Type 0 where
  pub free : List ℕ × ℕ
  pub head : List ℕ
  pub used : List ℕ × ℕ
  pub cleaner : List ℕ
  pub emergency : List ℕ × ℕ

unfoldable pub print_lists : ℕ → Memory → Run Printout
print_lists fuel m = do
  free ← dump_free_seg_ids fuel m
  head ← dump_head_seg_ids fuel m
  used ← dump_used_seg_ids fuel m
  cleaner ← dump_cleaner_seg_ids fuel m
  emergency ← dump_emergency_cleaner_seg_ids fuel m
  ok (record { free = free; head = head; used = used; cleaner = cleaner; emergency = emergency })

-- The printout of a log: a list without a last segment is a NULL that is followed.
abbrev pub PrintedLists : Memory → Lists → Run Printout
PrintedLists m ls = do
  let ids = map (λ a. (m.segment a).id)
  free ← Printed m.segment ls.free
  used ← Printed m.segment ls.used
  emergency ← Printed m.segment ls.emergency
  ok (record {
    free = free;
    head = ids (head_list ls);
    used = used;
    cleaner = ids ls.cleaner;
    emergency = emergency;
  })

print_lists-Printed :
    (fuel : ℕ) (m : Memory) (ls : Lists)
    → IsLog m ls
    → 1 < fuel
    → length ls.free < fuel
    → length ls.used < fuel
    → length ls.cleaner < fuel
    → length ls.emergency < fuel
    → print_lists fuel m ≡ PrintedLists m ls
unfolding print_lists dump_head_seg_ids
print_lists-Printed fuel m ls is h f u c e =
    let (free, used, cleaner, emergency) = dump-lists fuel m ls is f u c e in
    let short : length (head_list ls) < fuel = ground (arith, length-head_list ls) in
    rw
      (
        free,
        dump_seg_ids-Chain fuel m.segment m.log.head_segment (head_list ls) (head-Chain m ls is)
            short,
        used,
        cleaner,
        emergency,
      )
      refl

module _ (glib : GHashTable) where
  -- What is printed, if something is, the memory and the table's file that are left, if the pool
  -- was open, and the result.
  abbrev pub Ended : Type 0
  Ended = Option Printout × Option (Memory × Option HashFile) × ℕ

  -- `main` once the pool is open. `work` is what the threads do meanwhile.
  unfoldable pub print_and_close :
      ℕ
      → (Heap glib → List CleanerInfo → Heap glib)
      → Calls
      → Calls
      → Bool
      → Opened glib
      → Handles
      → Run Ended
  print_and_close fuel work closing hash_closing malloc (p, file, threads) h = do
    let p = work p threads
    printed ← print_lists fuel p.memory
    ((m, file, _), r) ← delete_pmem glib closing hash_closing malloc p file h
    ok (some printed, some (m, file), if r == 0 then 0 else 1)

  -- `alloc` is for the `malloc` of `pmem_t`; the other arguments are those of `init_pmem` and of
  -- `delete_pmem`.
  unfoldable pub main :
      ℕ
      → ℕ
      → Bool
      → Calls
      → Calls
      → Bool
      → (ℕ → Bool)
      → ℕ
      → Memory
      → Option HashFile
      → (Heap glib → List CleanerInfo → Heap glib)
      → Calls
      → Calls
      → Bool
      → Run Ended
  main fuel steps alloc calls hash_calls malloc create map_size m file work closing hash_closing
        malloc' =
      let opened = do
        ((s, h), r) ← init_pmem glib fuel steps calls hash_calls malloc create map_size m file
        elim s [
          | none ↦ ok (none, none, 1)
          | some pool ↦ print_and_close fuel work closing hash_closing malloc' pool h
        ]
      in if alloc then opened else ok (none, none, 1)

  -- The threads leave a memory that holds the log's lists, and the fuel is above their lengths and
  -- above 1. Then `main` on the open pool prints the identifiers of the lists' segments in order,
  -- and of the last one of the free, the used and the emergency segments; if one of these three
  -- lists is empty it follows NULL. After that the pool is closed, and the result is 0 exactly if
  -- that reports no failure.
  pub print_and_close-Printed :
      (fuel : ℕ) (work : Heap glib → List CleanerInfo → Heap glib) (closing hash_closing : Calls)
      (malloc : Bool) (p : Heap glib) (file : Option HashFile) (threads : List CleanerInfo)
      (h : Handles) (ls : Lists)
      → IsLog (work p threads).memory ls
      → 1 < fuel
      → length ls.free < fuel
      → length ls.used < fuel
      → length ls.cleaner < fuel
      → length ls.emergency < fuel
      → print_and_close fuel work closing hash_closing malloc (p, file, threads) h ≡ (do
        printed ← PrintedLists (work p threads).memory ls
        ((m, file, _), r) ← delete_pmem glib closing hash_closing malloc (work p threads) file h
        ok (some printed, some (m, file), if r == 0 then 0 else 1))
  unfolding print_and_close
  print_and_close-Printed fuel work closing hash_closing malloc p file threads h ls is long f u c
        e =
      rw (print_lists-Printed fuel (work p threads).memory ls is long f u c e) refl
