-- ===== src/Recovery/Freed.antt =====
-- project/hash_table.c, `reconstruct_hash_table` after `pfree` of an object with older versions.
use log_heap_pmem.Base.{
  ℕ, ◌<◌, ◌≡◌, ◌≢◌, sym, Bool, true, List, ◌++◌, ok, All, length, has, ◌==◌, inl, inr, ==_ne,
  Bool-cases,
}
use log_heap_pmem.Types.{Offset, Memory, offset_to_pointer, write}
use log_heap_pmem.Glib.{GHashTable}
use log_heap_pmem.Heap.{
  Heap, pfree, mark_deleted, release_space, get_from_hash_table, remove_from_hash_table,
}
use log_heap_pmem.Recovery.{reconstruct_hash_table}
use log_heap_pmem.Recovery.Notes.{entry_of}
use log_heap_pmem.Recovery.Newest.{IsVersion, IsNewest}
use log_heap_pmem.Recovery.Scan.{UsedSegments, HeadSegment, entries_of}
use log_heap_pmem.Recovery.Rebuild.{reconstruct-IsNewest}

module _ (glib : GHashTable) where
  open glib use {Table, new, contains, lookup}

  -- The entry of every other offset is as before.
  pub pfree-entry :
      (p : Heap glib) (id : ℕ) (o : Offset)
      → o ≢ lookup p.hash_table id
      → (pfree glib p id).memory.entry o ≡ p.memory.entry o
  unfolding pfree get_from_hash_table offset_to_pointer remove_from_hash_table release_space
      mark_deleted write
  pfree-entry p id o ne = elim (Bool-cases (lookup p.hash_table id == 0)) [
    | inl z ↦ rw (z, pfree)
    | inr z ↦ rw (z, ==_ne (lookup p.hash_table id) o (λ e. ne (sym e)), pfree, write)
  ]

  pub some_newest :
      (m : Memory) (id : ℕ) (t : Table) (among : Offset → Bool) (o : Offset)
      → IsNewest m id among (entry_of glib t id)
      → among o ≡ true
      → IsVersion m id o
      → contains t id ≡ true
  unfolding entry_of IsNewest
  some_newest m id t among o h a v = elim (Bool-cases (contains t id)) [
    | inl present ↦ present
    | inr absent ↦ let none_left = rw absent at h in absurd (none_left o a v)
  ]

  -- The log has an entry of the object that is not marked deleted and is not the one in the
  -- table. After `pfree` of the object the used segments and the head segment hold the entries
  -- `entries_of segs ++ head`, that one among them, with no cleaner segment on its list and fuel
  -- as in `reconstruct-IsNewest`. Then the table that `reconstruct_hash_table` builds from an
  -- empty one has the object again.
  pub pfree-reconstruct :
      (fuel steps : ℕ) (p : Heap glib) (id : ℕ) (o : Offset) (segs : List (Offset × List Offset))
      (head : List Offset)
      → o ≢ lookup p.hash_table id
      → IsVersion p.memory id o
      → has o (entries_of segs ++ head) ≡ true
      → UsedSegments (pfree glib p id).memory (pfree glib p id).memory.log.used.first segs
      → HeadSegment (pfree glib p id).memory head
      → (pfree glib p id).memory.log.cleaner.first ≡ 0
      → All (λ s. length s.1 < steps) segs
      → length head < steps
      → length segs < fuel
      → (t : Table) × (reconstruct_hash_table glib fuel steps (pfree glib p id).memory new ≡ ok t)
        × (contains t id ≡ true)
  pfree-reconstruct fuel steps p id o segs head ne v among u h c a l f =
      let m = (pfree glib p id).memory in
      let (t, run, best) = reconstruct-IsNewest glib fuel steps m segs head u h c a l f in
      let same = pfree-entry p id o ne in
      let v' : IsVersion m id o = rw same v in
      (t, run, some_newest m id t (λ j. has j (entries_of segs ++ head)) o (best id) among v')
