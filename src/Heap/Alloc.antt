-- ===== src/Heap/Alloc.antt =====
-- project/log_pmem.c, `palloc` against the map of objects.
use log_heap_pmem.Base.{
  ℕ, ◌-◌, ◌≤◌, ◌<◌, ◌≡◌, ◌≢◌, ◌⊎◌, refl, arith, ap, ◌∙◌, Bool, true, false, Option, none, some,
  List, [], ◌==◌, if◌then◌else◌, ==_ne, ok, take,
}
use log_heap_pmem.Base.Words.{word}
use log_heap_pmem.Types.{LogEntry}
use log_heap_pmem.Glib.{GHashTable}
use log_heap_pmem.Id.{gen_id-IsNextId}
use log_heap_pmem.Log.Lists.{Lists}
use log_heap_pmem.Store.Segments.{IsStore-keep}
use log_heap_pmem.Heap.{Heap, palloc, store_entry, new_entry, hash_table_contains}
use log_heap_pmem.Heap.Stored.{IsFor}
use log_heap_pmem.Heap.StoreEntry.{Stores, refused, kept, store_entry-Stores}
use log_heap_pmem.Heap.Content.{put, read, IsHeap, IsHeap-memory, read-memory, read_lem}

-- The most data that fit into a segment beside its header and an entry's.
abbrev pub max_size : ℕ
max_size = 4040

pub new_entry-IsFor :
    (id size : ℕ) (bytes : List ℕ) → 0 < size → size ≤ max_size → IsFor id (new_entry id size bytes)
unfolding new_entry
new_entry-IsFor id size bytes pos small = record {
  own = refl;
  nonempty = pos;
  kept = refl;
  small = omega arith;
}

module _ (glib : GHashTable) where
  open glib use {Table, contains}

  -- A heap that is inconsistent, an empty object or a failed `malloc`: `palloc` returns 0 and leaves
  -- the heap as it is.
  pub palloc_rejected :
      (fuel : ℕ) (p : Heap glib) (malloc : Bool) (size : ℕ) (bytes : List ℕ)
      → (p.consistent ≡ 0) ⊎ ((size ≡ 0) ⊎ (malloc ≡ false))
      → palloc glib fuel p malloc size bytes ≡ ok (p, 0)
  unfolding palloc
  palloc_rejected fuel p malloc size bytes why = ground arith

  -- The outcomes of a `palloc` that is not rejected.
  pub data Allocated (p : Heap glib) (ls : Lists) (bytes : List ℕ) : Heap glib × ℕ → Type 0 where
    full :
        {p' : Heap glib} (ls' : Lists)
        → ls.free ≡ []
        → IsHeap glib p' ls'
        → ((j : ℕ) → read glib p' j ≡ read glib p j)
        → Allocated p ls bytes (p', 0)
    fresh :
        {p' : Heap glib} {id : ℕ} (ls' : Lists)
        → 0 < id
        → read glib p id ≡ none
        → IsHeap glib p' ls'
        → ((j : ℕ) → read glib p' j ≡ put (read glib p) id bytes j)
        → Allocated p ls bytes (p', id)

  numbered : Heap glib → ℕ → Heap glib
  numbered p current = record p {
    memory = record p.memory { log = record p.memory.log { current_id = current } };
  }

  module _ (p : Heap glib) (ls : Lists) (is : IsHeap glib p ls) where
    numbered-IsHeap : (current : ℕ) → IsHeap glib (numbered p current) ls
    unfolding numbered
    numbered-IsHeap current =
        IsHeap-memory glib p ls is (numbered p current).memory ls
          (IsStore-keep p.memory ls _ p.memory.segment current (λ a. refl) is.store) (λ o _. refl)

    numbered-read : (current j : ℕ) → read glib (numbered p current) j ≡ read glib p j
    unfolding numbered
    numbered-read current =
        read-memory glib p ls is (numbered p current).memory ls
          (IsStore-keep p.memory ls _ p.memory.segment current (λ a. refl) is.store) (λ o _. refl)

    Stores-Allocated :
        (current id : ℕ) (e : LogEntry) {r : Heap glib × Bool}
        → 0 < id
        → contains p.hash_table id ≡ false
        → Stores glib (numbered p current) ls id e r
        → Allocated p ls e.bytes (r.0, if r.1 then id else 0)
    unfolding numbered
    Stores-Allocated current id e pos free (refused ls' empty is' same reads) =
        full ls' empty is' (λ j. reads j ∙ numbered-read current j)
    Stores-Allocated current id e pos free (kept ls' is' reads) =
        fresh ls' pos (rw (read_lem glib p ls id is, free)) is' (λ j.
          reads j
          ∙ ap (λ (o : Option (List ℕ)). if id == j then some e.bytes else o)
              (numbered-read current j))

    -- On a sound and consistent heap, for 1 to 4040 bytes of data, a `malloc` that succeeds, an
    -- identifier `k`, not 0, that is unused and that the counter has not passed, and fuel above
    -- its distance from the counter, `palloc` ends. Either it returns an identifier that was
    -- unused and now has the data, those of every other one being as before; or it returns 0, no
    -- segment was free, and every identifier has the data it had. The heap stays sound.
    pub palloc-Allocated :
        (fuel size : ℕ) (bytes : List ℕ) (k : ℕ)
        → p.consistent ≢ 0
        → 0 < size
        → size ≤ max_size
        → 0 < k
        → k < word
        → contains p.hash_table k ≡ false
        → p.memory.log.current_id ≤ k
        → k - p.memory.log.current_id < fuel
        → (r : Heap glib × ℕ) × (palloc glib fuel p true size bytes ≡ ok r)
          × Allocated p ls (take size bytes) r
    unfolding palloc hash_table_contains numbered new_entry
    palloc-Allocated fuel size bytes k ready pos small kpos kword free le enough =
        let (id, current, run, next, _) =
          gen_id-IsNextId (hash_table_contains glib p) fuel p.memory.log.current_id k kpos kword
            free le enough in
        let e = new_entry id size bytes in
        let r = store_entry glib (numbered p current) id e in
        (
          (r.0, if r.1 then id else 0),
          rw (==_ne p.consistent 0 ready, ==_ne size 0 (omega arith), run),
          Stores-Allocated current id e next.positive next.unused (
              store_entry-Stores glib (numbered p current) ls (numbered-IsHeap current) id e
                (new_entry-IsFor id size bytes pos small)),
        )
