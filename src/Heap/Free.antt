-- ===== src/Heap/Free.antt =====
-- project/log_pmem.c, `pfree` against the map of objects.
use log_heap_pmem.Base.{
  ℕ, ◌≡◌, ◌≢◌, inl, inr, arith, sym, subst, ◌∙◌, true, false, none, ==_ne, ==_iff, ==_refl,
  Bool-cases,
}
use native.Mathlib.Decide.{ℕ_discrete}
use log_heap_pmem.Types.{Offset, Memory, offset_to_pointer, write}
use log_heap_pmem.Types.Chain.{set_used_space-next}
use log_heap_pmem.Glib.{GHashTable}
use log_heap_pmem.Log.Lists.{Lists, IsLog-keep}
use log_heap_pmem.Store.{IsStore, SameLive}
use log_heap_pmem.Store.Segments.{IsPlaced-keep, IsStore-narrow}
use log_heap_pmem.Heap.{
  Heap, pfree, mark_deleted, release_space, remove_from_hash_table, get_from_hash_table,
}
use log_heap_pmem.Heap.Content.{delete, read, read_lem, Live, IsHeap, IsHeap-memory, read-memory}

module _ (glib : GHashTable) where
  open glib use {Table, remove, contains, lookup, lookup_of_absent, lookup-remove, contains-remove}

  -- `pfree` of an identifier that is not in the table changes nothing.
  pub pfree_absent :
      (p : Heap glib) (id : ℕ) → contains p.hash_table id ≡ false → pfree glib p id ≡ p
  unfolding pfree get_from_hash_table offset_to_pointer
  pfree_absent p id h = rw (lookup_of_absent p.hash_table id h, pfree)

  abbrev pub removed : Heap glib → ℕ → Heap glib
  removed p id = record p { hash_table = remove p.hash_table id }

  module _ (p : Heap glib) (ls : Lists) (is : IsHeap glib p ls) (id : ℕ) where
    contains_old :
        (i : ℕ)
        → contains (remove p.hash_table id) i ≡ true
        → (id ≢ i) × (contains p.hash_table i ≡ true)
    contains_old i h = ground (arith, contains-remove p.hash_table id i)

    lookup_old : (i : ℕ) → id ≢ i → lookup (remove p.hash_table id) i ≡ lookup p.hash_table i
    lookup_old i ne = rw (lookup-remove, ==_ne id i ne)

    pub removed-Live : (o : Offset) → Live glib (removed p id) o → Live glib p o
    removed-Live o (i, h, e) =
        let (ne, old) = contains_old i h in (i, old, sym (lookup_old i ne) ∙ e)

    removed-IsHeap : IsHeap glib (removed p id) ls
    removed-IsHeap = record {
      store =
          IsStore-narrow p.memory ls (Live glib p) (Live glib (removed p id)) removed-Live is.store;
      entries = λ i h.
          let (ne, old) = contains_old i h in
          let at = is.entries i old in
          let eq = lookup_old i ne in
          record {
            nonzero = rw eq at.nonzero;
            own = rw eq at.own;
            nonempty = rw eq at.nonempty;
            kept = rw eq at.kept;
          };
      separate = λ i j ne hi hj.
          let (ni, oi) = contains_old i hi in
          let (nj, oj) = contains_old j hj in
          rw (lookup_old i ni, lookup_old j nj) (is.separate i j ne oi oj);
    }

    removed-read : (j : ℕ) → read glib (removed p id) j ≡ delete (read glib p) id j
    removed-read j =
        rw (read_lem glib (removed p id) ls j removed-IsHeap, read_lem glib p ls j is)
          (elim (ℕ_discrete id j) [
            | yes same ↦ rw (contains-remove, (==_iff id j).1 same)
            | no ne ↦ rw (contains-remove, ==_ne id j ne) (rw (lookup_old j ne))
          ])

    module _ (present : contains p.hash_table id ≡ true) where
      abbrev off : Offset
      off = lookup p.hash_table id

      abbrev pub left : Memory
      left = release_space (mark_deleted p.memory off) off

      -- The flag is written to the entry of `id` alone.
      pub others-same : SameLive (Live glib (removed p id)) p.memory left
      unfolding release_space mark_deleted write
      others-same o (i, h, e) =
          let (ne, old) = contains_old i h in
          let apart = is.separate id i ne present old in
          let there : lookup p.hash_table i ≡ o = sym (lookup_old i ne) ∙ e in
          rw (==_ne off o (ground (arith, apart, there)))

      left-IsStore : IsStore left ls (Live glib (removed p id))
      unfolding release_space mark_deleted
      left-IsStore = record {
        log =
            IsLog-keep p.memory ls left.segment left.entry p.memory.log.head_position
              p.memory.log.current_id (set_used_space-next p.memory.segment _ _) is.store.log;
        position = is.store.position;
        segments = is.store.segments;
        placed = λ o live.
            IsPlaced-keep p.memory left ls o (others-same o live) (omega arith)
              (is.store.placed o (removed-Live o live));
      }

      pub pfree-present : pfree glib p id ≡ record (removed p id) { memory = left }
      unfolding pfree get_from_hash_table offset_to_pointer remove_from_hash_table
      pfree-present = rw (==_ne off 0 (is.entries id present).nonzero, pfree)

      pub pfree-delete :
          IsHeap glib (pfree glib p id) ls
          × ((j : ℕ) → read glib (pfree glib p id) j ≡ delete (read glib p) id j)
      pfree-delete = rw pfree-present (
        IsHeap-memory glib (removed p id) ls removed-IsHeap left ls left-IsStore others-same,
        λ j.
            read-memory glib (removed p id) ls removed-IsHeap left ls left-IsStore others-same j
            ∙ removed-read j,
      )

    -- `pfree` of any identifier in a sound heap keeps the heap sound. Afterwards the identifier has no
    -- data, and those of every other one are as before.
    pub pfree-content :
        IsHeap glib (pfree glib p id) ls
        × ((j : ℕ) → read glib (pfree glib p id) j ≡ delete (read glib p) id j)
    pfree-content = elim (Bool-cases (contains p.hash_table id)) [
      | inl present ↦ pfree-delete present
      | inr absent ↦
          let nothing : read glib p id ≡ none = rw (read_lem glib p ls id is, absent) in
          rw (pfree_absent p id absent) (
            is,
            λ j. elim (ℕ_discrete id j) [
              | yes same ↦
                  subst (λ i. read glib p i ≡ delete (read glib p) id i) same
                    (rw (==_refl id) nothing)
              | no ne ↦ rw (==_ne id j ne)
            ],
          )
    ]
