-- ===== src/Heap/Update.antt =====
-- project/log_pmem.c, `update_data` and `palloc_with_id` against the map of objects.
use log_heap_pmem.Base.{
  ℕ, ◌≤◌, ◌<◌, ◌≡◌, ◌≢◌, ◌⊎◌, inl, inr, refl, arith, ap, ◌∙◌, Bool, true, false, Option, some, List,
  [], ◌==◌, if◌then◌else◌, ==_ne, Bool-cases, take,
}
use log_heap_pmem.Types.{Offset, LogEntry, offset_to_pointer}
use log_heap_pmem.Types.Chain.{set_used_space-next}
use log_heap_pmem.Glib.{GHashTable}
use log_heap_pmem.Log.Lists.{Lists}
use log_heap_pmem.Store.Segments.{IsStore-keep}
use log_heap_pmem.Heap.{
  Heap, update_data, palloc_with_id, new_entry, updated_entry, release_space, hash_table_contains,
  get_from_hash_table, store_entry,
}
use log_heap_pmem.Heap.Stored.{IsFor}
use log_heap_pmem.Heap.StoreEntry.{Stores, refused, kept, store_entry-Stores}
use log_heap_pmem.Heap.Alloc.{max_size, new_entry-IsFor}
use log_heap_pmem.Heap.Content.{put, read, IsHeap, IsHeap-memory, read-memory}

module _ (glib : GHashTable) where
  open glib use {Table, contains, lookup, lookup_of_absent}

  -- If the heap is inconsistent, the data are empty, `malloc` fails or the identifier is not in
  -- the table, `update_data` reports 1 and leaves the heap as it is.
  pub update_data_rejected :
      (p : Heap glib) (malloc : Bool) (id : ℕ) (bytes : List ℕ) (size : ℕ)
      → (p.consistent ≡ 0) ⊎ ((size ≡ 0) ⊎ ((malloc ≡ false) ⊎ (contains p.hash_table id ≡ false)))
      → update_data glib p malloc id bytes size ≡ (p, 1)
  unfolding update_data get_from_hash_table offset_to_pointer
  update_data_rejected p malloc id bytes size why = ground (arith, lookup_of_absent p.hash_table id)

  -- The outcomes of a call that is not rejected.
  pub data Updated (p : Heap glib) (ls : Lists) (id : ℕ) (bytes : List ℕ)
      : Heap glib × ℕ → Type 0 where
    full :
        {p' : Heap glib} (ls' : Lists)
        → ls.free ≡ []
        → IsHeap glib p' ls'
        → ((j : ℕ) → read glib p' j ≡ read glib p j)
        → Updated p ls id bytes (p', 1)
    done :
        {p' : Heap glib} (ls' : Lists)
        → IsHeap glib p' ls'
        → ((j : ℕ) → read glib p' j ≡ put (read glib p) id bytes j)
        → Updated p ls id bytes (p', 0)

  abbrev pub released : Heap glib → Offset → Heap glib
  released p off = record p { memory = release_space p.memory off }

  module _ (p : Heap glib) (ls : Lists) (is : IsHeap glib p ls) where
    pub released-IsHeap : (off : Offset) → IsHeap glib (released p off) ls
    unfolding release_space
    released-IsHeap off =
        IsHeap-memory glib p ls is (release_space p.memory off) ls
          (IsStore-keep p.memory ls _ _ p.memory.log.current_id
            (set_used_space-next p.memory.segment _ _) is.store)
          (λ o _. refl)

    released-read : (off : Offset) (j : ℕ) → read glib (released p off) j ≡ read glib p j
    unfolding release_space
    released-read off =
        read-memory glib p ls is (release_space p.memory off) ls
          (IsStore-keep p.memory ls _ _ p.memory.log.current_id
            (set_used_space-next p.memory.segment _ _) is.store)
          (λ o _. refl)

    Stores-Updated :
        (q : Heap glib) (id : ℕ) (e : LogEntry) {r : Heap glib × Bool}
        → ((j : ℕ) → read glib q j ≡ read glib p j)
        → Stores glib q ls id e r
        → Updated p ls id e.bytes (r.0, if r.1 then 0 else 1)
    Stores-Updated q id e before (refused ls' empty is' same reads) =
        full ls' empty is' (λ j. reads j ∙ before j)
    Stores-Updated q id e before (kept ls' is' reads) = done ls' is' (λ j.
        reads j ∙ ap (λ (o : Option (List ℕ)). if id == j then some e.bytes else o) (before j))

    module _ (id : ℕ) (bytes : List ℕ) (size : ℕ) (ready : p.consistent ≢ 0) (pos : 0 < size)
        (small : size ≤ max_size) where
      abbrev pub current : Offset
      current = lookup p.hash_table id

      abbrev pub new_version : LogEntry
      new_version = updated_entry (p.memory.entry current) size bytes

      module _ (present : contains p.hash_table id ≡ true) where
        -- A call that is not rejected stores the new version, after the old one's bytes were taken
        -- off the fill level.
        pub update_data-store : update_data glib p true id bytes size ≡ (
            let (q, stored) = store_entry glib (released p current) id new_version in
            (q, if stored then 0 else 1))
        unfolding update_data get_from_hash_table offset_to_pointer
        update_data-store =
            rw
              (
                ==_ne p.consistent 0 ready,
                ==_ne size 0 (omega arith),
                ==_ne current 0 (is.entries id present).nonzero,
              )
              refl

        pub new_version-IsFor : IsFor id new_version
        unfolding updated_entry
        new_version-IsFor =
            let at = is.entries id present in
            record { own = at.own; nonempty = pos; kept = at.kept; small = omega arith }

      -- On a sound and consistent heap, for 1 to 4040 bytes of data, a `malloc` that succeeds and
      -- an identifier in the table, `update_data` either reports 0, and the identifier has the
      -- new data, those of every other one being as before; or it reports 1, no segment was free,
      -- and every identifier has the data it had. The heap stays sound.
      pub update_data-Updated :
          contains p.hash_table id ≡ true
          → Updated p ls id (take size bytes) (update_data glib p true id bytes size)
      unfolding updated_entry
      update_data-Updated present = rw (update_data-store present) (
          Stores-Updated (released p current) id new_version (released-read current) (
            store_entry-Stores glib (released p current) ls (released-IsHeap current) id new_version
              (new_version-IsFor present)))

      -- On a sound and consistent heap, for 1 to 4040 bytes of data, a `malloc` that succeeds and
      -- any identifier, in the table or not, `palloc_with_id` either reports 0, and the
      -- identifier has the new data, those of every other one being as before; or it reports 1,
      -- no segment was free, and every identifier has the data it had. The heap stays sound.
      pub palloc_with_id-Updated :
          Updated p ls id (take size bytes) (palloc_with_id glib p true id size bytes)
      unfolding palloc_with_id hash_table_contains new_entry
      palloc_with_id-Updated = elim (Bool-cases (contains p.hash_table id)) [
        | inl present ↦
            rw (==_ne p.consistent 0 ready, ==_ne size 0 (omega arith), present)
              (update_data-Updated present)
        | inr absent ↦
            rw (==_ne p.consistent 0 ready, ==_ne size 0 (omega arith), absent)
              (Stores-Updated p id (new_entry id size bytes) (λ j. refl)
                (store_entry-Stores glib p ls is id (new_entry id size bytes)
                  (new_entry-IsFor id size bytes pos small)))
      ]
