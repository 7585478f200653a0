-- ===== src/Cleaning/Freed.antt =====
-- project/cleaner.c, `clean`, at an entry that project/log_pmem.c, `update_data`, has replaced and
-- whose object `pfree` has deleted.
use log_heap_pmem.Base.{
  ℕ, suc, ◌≤◌, ◌<◌, ◌≡◌, ◌≢◌, refl, arith, sym, subst, ◌∙◌, Bool, true, false, List, ◌==◌,
  if◌then◌else◌, fault, ==_ne, ==_refl, lt→ltb,
}
use log_heap_pmem.Types.{Offset, Memory, LogEntry, offset_to_pointer}
use log_heap_pmem.Glib.{GHashTable}
use log_heap_pmem.Log.{append_to_log}
use log_heap_pmem.Log.Lists.{Lists}
use log_heap_pmem.Store.{Outcome, full, stored}
use log_heap_pmem.Store.Append.{append_to_log-Outcome}
use log_heap_pmem.Heap.{
  Heap, store_entry, add_to_hash_table, update_data, pfree, get_from_hash_table,
  remove_from_hash_table, release_space,
}
use log_heap_pmem.Heap.Alloc.{max_size}
use log_heap_pmem.Heap.Content.{Live, IsHeap}
use log_heap_pmem.Heap.Stored.{IsFor}
use log_heap_pmem.Heap.Update.{
  released, released-IsHeap, update_data-store, new_version, new_version-IsFor,
}
use log_heap_pmem.Recovery.{entry_at, scan_limit}
use log_heap_pmem.Recovery.Freed.{pfree-entry}
use log_heap_pmem.Cleaning.{Cursor, clean_entry, clean_entries}

module _ (glib : GHashTable) where
  open glib use {
    Table, insert, remove, lookup, contains, lookup-insert, lookup-remove, contains-remove,
    lookup_of_absent,
  }

  -- The entry at `o` is as it was, and the table does not lead from `id` to it.
  abbrev Replaced : Heap glib → ℕ → Offset → Heap glib → Type 0
  Replaced p id o p' = (p'.memory.entry o ≡ p.memory.entry o) × (o ≢ lookup p'.hash_table id)

  module _ (p : Heap glib) (ls : Lists) (is : IsHeap glib p ls) (id : ℕ) (o : Offset)
      (live : Live glib p o) where
    Outcome-Replaced :
        (e : LogEntry) (r : Memory × Offset)
        → Outcome p.memory ls (Live glib p) e r
        → (r.1 == 0) ≡ false
        → Replaced p id o (add_to_hash_table glib (record p { memory = r.0 }) id r.1)
    unfolding add_to_hash_table
    Outcome-Replaced e r (full ls' moves empty tight store same) done = cc
    Outcome-Replaced e r (stored {m'} {off} ls' moves home st) done = (
      st.same o live,
      rw (lookup-insert p.hash_table id off id, ==_refl id)
          (λ same. omega (arith, st.apart o live, same)),
    )

    store_entry-Replaced :
        (e : LogEntry)
        → IsFor id e
        → (store_entry glib p id e).1 ≡ true
        → Replaced p id o (store_entry glib p id e).0
    unfolding store_entry
    store_entry-Replaced e fit done =
        let r = append_to_log p.memory e in
        let out =
          Outcome-Replaced e r
            (append_to_log-Outcome p.memory ls (Live glib p) is.store e fit.small) in
        ground (arith, out)

  module _ (p : Heap glib) (ls : Lists) (is : IsHeap glib p ls) (id : ℕ) (bytes : List ℕ) (size : ℕ)
      (ready : p.consistent ≢ 0) (pos : 0 < size) (small : size ≤ max_size)
      (present : contains p.hash_table id ≡ true)
      (done : (update_data glib p true id bytes size).1 ≡ 0) where
    abbrev pub old : Offset
    old = lookup p.hash_table id

    abbrev pub updated : Heap glib
    updated = (update_data glib p true id bytes size).0

    abbrev pub freed : Heap glib
    freed = pfree glib updated id

    abbrev pub stored_version : Heap glib × Bool
    stored_version =
        store_entry glib (released glib p old) id
          (new_version glib p ls is id bytes size ready pos small)

    pub stores :
        update_data glib p true id bytes size
        ≡ (stored_version.0, if stored_version.1 then 0 else 1)
    stores = update_data-store glib p ls is id bytes size ready pos small present

    updated-Replaced : Replaced p id old updated
    unfolding release_space
    updated-Replaced =
        let version = new_version glib p ls is id bytes size ready pos small in
        let replaced =
          store_entry-Replaced (released glib p old) ls (released-IsHeap glib p ls is old) id old
            (id, present, refl) version
            (new_version-IsFor glib p ls is id bytes size ready pos small present) in
        let was_stored : stored_version.1 ≡ true =
          (let result = rw stores at done in ground (arith, result)) in
        subst (λ (r : Heap glib × ℕ). Replaced p id old r.0) (sym stores) (replaced was_stored)

    freed-entry : freed.memory.entry old ≡ p.memory.entry old
    freed-entry = pfree-entry glib updated id old updated-Replaced.1 ∙ updated-Replaced.0

    pub freed-lookup : lookup freed.hash_table id ≡ 0
    unfolding pfree get_from_hash_table offset_to_pointer remove_from_hash_table
    freed-lookup = ground (arith, lookup-remove updated.hash_table id id, ==_refl id)

    clean_entry-faults : (fuel : ℕ) (c : Cursor) → clean_entry glib fuel freed c old ≡ fault
    unfolding clean_entry get_from_hash_table offset_to_pointer
    clean_entry-faults fuel c =
        let at = is.entries id present in rw (freed-entry, at.kept, at.own, freed-lookup) refl

    -- On a sound and consistent heap an object that is in the table is updated with 1 to 4040 bytes of
    -- data, which succeeds, and then freed. A cleaner thread that comes to the entry of its
    -- version before the update follows a NULL.
    pub clean_entries-freed :
        (steps fuel : ℕ) (c : Cursor) (seg : Offset) (position : ℕ)
        → entry_at seg position ≡ old
        → position < scan_limit
        → clean_entries glib (suc steps) fuel freed c seg position ≡ fault
    unfolding clean_entries
    clean_entries-freed steps fuel c seg position here inside =
        let at = is.entries id present in
        rw
          (
            here,
            lt→ltb position scan_limit inside,
            freed-entry,
            ==_ne (p.memory.entry old).length 0 (omega (arith, at.nonempty)),
            clean_entry-faults fuel c,
          )
          refl
