-- ===== src/Heap/Flag.antt =====
-- The flag `consistent` of project/log_pmem_types.h under the operations of project/log_pmem.c.
use log_heap_pmem.Base.{ℕ, ◌≡◌, arith, true, List}
use log_heap_pmem.Types.{offset_to_pointer}
use log_heap_pmem.Glib.{GHashTable}
use log_heap_pmem.Heap.{
  Heap, update_data, palloc_with_id, pfree, store_entry, add_to_hash_table, remove_from_hash_table,
  get_from_hash_table, new_entry, updated_entry, release_space,
}

module _ (glib : GHashTable) where
  store_entry-consistent :
      (p : Heap glib) (id : ℕ) (e : _) → (store_entry glib p id e).0.consistent ≡ p.consistent
  unfolding store_entry add_to_hash_table
  store_entry-consistent p id e = ground arith

  pub update_data-consistent :
      (p : Heap glib) (id size : ℕ) (bytes : List ℕ)
      → (update_data glib p true id bytes size).0.consistent ≡ p.consistent
  unfolding update_data offset_to_pointer
  update_data-consistent p id size bytes =
      let off = get_from_hash_table glib p id in
      let e = updated_entry (p.memory.entry off) size bytes in
      let kept = store_entry-consistent (record p { memory = release_space p.memory off }) id e in
      ground (arith, kept)

  pub palloc_with_id-consistent :
      (p : Heap glib) (id size : ℕ) (bytes : List ℕ)
      → (palloc_with_id glib p true id size bytes).0.consistent ≡ p.consistent
  unfolding palloc_with_id
  palloc_with_id-consistent p id size bytes = ground (
    arith,
    store_entry-consistent p id (new_entry id size bytes),
    update_data-consistent p id size bytes,
  )

  pub pfree-consistent : (p : Heap glib) (id : ℕ) → (pfree glib p id).consistent ≡ p.consistent
  unfolding pfree offset_to_pointer remove_from_hash_table
  pfree-consistent p id = ground arith
