-- ===== src/Flush/Client.antt =====
-- project/log_pmem.c, `update_data` and `pfree`: a crash between their flushes.
use log_heap_pmem.Base.{
  ℕ, ◌+◌, ◌-◌, ◌≤◌, ◌<◌, ◌≡◌, ◌≢◌, ◌⊎◌, inl, inr, refl, arith, ap, sym, ◌∙◌, true, List, [], ◌∷◌,
  All, length, ==_ne, ok, has, ◌++◌,
}
use log_heap_pmem.Types.{
  Offset, Memory, LogEntry, segment_size, sizeof_segment, sizeof_log_entry, offset_to_pointer,
  write,
}
use log_heap_pmem.Types.Chain.{set_used_space-next}
use log_heap_pmem.Glib.{GHashTable}
use log_heap_pmem.Log.{append_to_log}
use log_heap_pmem.Log.Lists.{Lists}
use log_heap_pmem.Store.{SameLive}
use log_heap_pmem.Heap.{
  Heap, update_data, pfree, store_entry, add_to_hash_table, release_space, mark_deleted,
  get_from_hash_table, remove_from_hash_table, updated_entry,
}
use log_heap_pmem.Heap.Alloc.{max_size}
use log_heap_pmem.Heap.Content.{IsHeap, Live}
use log_heap_pmem.Heap.Update.{
  released as released_heap, released-IsHeap, update_data-store, new_version,
}
use log_heap_pmem.Recovery.{reconstruct_hash_table}
use log_heap_pmem.Recovery.Fill.{reconstruct-fill}
use log_heap_pmem.Recovery.Scan.{UsedSegments, HeadSegment, entries_of}
use log_heap_pmem.Recovery.Notes.{entry_of}
use log_heap_pmem.Recovery.Newest.{IsNewest}
use log_heap_pmem.Recovery.Rebuild.{reconstruct-IsNewest}
use log_heap_pmem.Recovery.Marked.{
  UsedSegments-lengths, HeadEntries-lengths, IsNewest-marked, without,
}
use log_heap_pmem.Flush.{UpdateState, FreeState, before, appending, marked, released}
use log_heap_pmem.Flush.Append.{append_to_log-crash}

-- The used segments and their entries do not depend on the fill levels.
pub UsedSegments-release :
    (m : Memory) (off p : Offset) (segs : List (Offset × List Offset))
    → UsedSegments m p segs
    → UsedSegments (release_space m off) p segs
unfolding release_space
UsedSegments-release m off p [] u = u
UsedSegments-release m off p ((seg, offs) ∷ segs) (e, n, u, us) = (
  e,
  n,
  u,
  rw (set_used_space-next m.segment _ _ seg)
      (UsedSegments-release m off (m.segment seg).next_segment segs us),
)

module _ (glib : GHashTable) where
  open glib use {Table, new, contains, lookup}

  store_entry-memory :
      (p : Heap glib) (id : ℕ) (e : LogEntry)
      → (store_entry glib p id e).0.memory ≡ (append_to_log p.memory e).0
  unfolding store_entry add_to_hash_table
  store_entry-memory p id e = ground arith

  -- The recovery does not depend on the fill level that an operation releases.
  pub reconstruct-release :
      (fuel steps : ℕ) (m : Memory) (off : Offset)
      → m.log.cleaner.first ≡ 0
      → reconstruct_hash_table glib fuel steps (release_space m off) new
        ≡ reconstruct_hash_table glib fuel steps m new
  unfolding release_space
  reconstruct-release fuel steps m off idle =
      reconstruct-fill glib m _ (set_used_space-next m.segment _ _) fuel steps new idle

  pub pfree-memory :
      (p : Heap glib) (id : ℕ)
      → lookup p.hash_table id ≢ 0
      → (pfree glib p id).memory
        ≡ release_space (mark_deleted p.memory (lookup p.hash_table id)) (lookup p.hash_table id)
  unfolding pfree get_from_hash_table offset_to_pointer remove_from_hash_table
  pfree-memory p id ne = rw (==_ne (lookup p.hash_table id) 0 ne, pfree) refl

  -- The recovery of `m'` returns a table that has for each identifier a newest version among the
  -- entries `offs` but the one at `off`, by the deletion marks in `m`.
  abbrev pub Recovers : ℕ → ℕ → Memory → Offset → List Offset → Memory → Table → Type 0
  Recovers fuel steps m off offs m' t =
      (reconstruct_hash_table glib fuel steps m' new ≡ ok t)
      × ((j : ℕ) → IsNewest m j (without off (λ o. has o offs)) (entry_of glib t j))

  module _ (fuel steps : ℕ) (p : Heap glib) (id : ℕ) (segs : List (Offset × List Offset))
      (head : List Offset) (present : lookup p.hash_table id ≢ 0)
      (used : UsedSegments p.memory p.memory.log.used.first segs)
      (at_head : HeadSegment p.memory head) (idle : p.memory.log.cleaner.first ≡ 0)
      (short : All (λ s. length s.1 < steps) segs) (short_head : length head < steps)
      (few : length segs < fuel) where
    abbrev freed_entry : Offset
    freed_entry = lookup p.hash_table id

    mark-Recovers :
        (t : Table) × Recovers fuel steps p.memory freed_entry
          (entries_of segs ++ head)
          (mark_deleted p.memory freed_entry)
          t
    unfolding mark_deleted write
    mark-Recovers =
        let m' = mark_deleted p.memory freed_entry in
        let lengths : (o : Offset) → (m'.entry o).length ≡ (p.memory.entry o).length =
          λ o. ground arith in
        let others : (o : Offset) → o ≢ freed_entry → m'.entry o ≡ p.memory.entry o =
          λ o ne. ground (arith, ne) in
        let used' =
          UsedSegments-lengths p.memory m' lengths (λ a. refl) p.memory.log.used.first segs used in
        let head' =
          HeadEntries-lengths p.memory m' lengths p.memory.log.head_segment 0 head refl at_head.1 in
        let (t, run, best) =
          reconstruct-IsNewest glib fuel steps m' segs head used' (at_head.0, head') idle short
            short_head few in
        (
          t,
          (
            run,
            λ j.
                IsNewest-marked p.memory m' freed_entry others (ground arith) j
                  (λ o. has o (entries_of segs ++ head)) (entry_of glib t j) (best j),
          ),
        )

    -- An object of the table is freed; the log's used segments and its head segment hold the
    -- entries `entries_of segs ++ head`, with no cleaner segment on its list and fuel as in
    -- `reconstruct-IsNewest`. A crash at any point between the flushes of `pfree` leaves either the
    -- memory before the call, fill levels included, or a memory whose recovery returns the table
    -- that the recovery after the whole call returns. That table has for each identifier a newest
    -- version among the listed entries without the object's entry, by their deletion marks before
    -- the call, and none if there is no such version.
    pub pfree-crash :
        (m' : Memory)
        → FreeState p.memory (lookup p.hash_table id) m'
        → (m' ≡ p.memory)
          ⊎ ((t : Table) × Recovers fuel steps p.memory
                (lookup p.hash_table id)
                (entries_of segs ++ head)
                m'
                t
              × Recovers fuel steps p.memory
                  (lookup p.hash_table id)
                  (entries_of segs ++ head)
                  (pfree glib p id).memory
                  t)
    unfolding mark_deleted
    pfree-crash _ before = inl refl
    pfree-crash _ marked =
        let (t, (run, best)) = mark-Recovers in
        let m' = mark_deleted p.memory freed_entry in
        let after = reconstruct-release fuel steps m' freed_entry idle ∙ run in
        inr (t, (run, best), (rw (pfree-memory p id present) after, best))
    pfree-crash _ released =
        let (t, (run, best)) = mark-Recovers in
        let m' = mark_deleted p.memory freed_entry in
        let after = reconstruct-release fuel steps m' freed_entry idle ∙ run in
        inr (t, (after, best), (rw (pfree-memory p id present) after, best))

  pub update_data-memory :
      (p : Heap glib) (ls : Lists) (is : IsHeap glib p ls) (id size : ℕ) (bytes : List ℕ)
      (ready : p.consistent ≢ 0) (pos : 0 < size) (small : size ≤ max_size)
      → contains p.hash_table id ≡ true
      → (append_to_log
          (released_heap glib p (lookup p.hash_table id)).memory
          (new_version glib p ls is id bytes size ready pos small)).0
        ≡ (update_data glib p true id bytes size).0.memory
  update_data-memory p ls is id size bytes ready pos small present =
      sym (
        store_entry-memory (released_heap glib p (lookup p.hash_table id)) id
          (new_version glib p ls is id bytes size ready pos small))
      ∙ ap (λ (r : Heap glib × ℕ). r.0.memory)
          (sym (update_data-store glib p ls is id bytes size ready pos small present))

  module _ (p : Heap glib) (ls : Lists) (is : IsHeap glib p ls) (some_head : ls.head ≢ 0)
      (fuel steps : ℕ) (segs : List (Offset × List Offset)) (head : List Offset)
      (used : UsedSegments p.memory p.memory.log.used.first segs)
      (at_head : HeadSegment p.memory head) (idle : p.memory.log.cleaner.first ≡ 0)
      (short : All (λ s. length s.1 < steps) segs) (short_head : length head < steps)
      (few : length segs < fuel) where
    -- The heap is sound and consistent, the object is in the table, its new data are of 1 to 4040
    -- bytes and fit behind the head position, and the log's entries are listed as in
    -- `append_to_log-crash`. A crash at any point of `update_data`, with any bytes in the place of a
    -- copy that was not complete, leaves a memory in which every live entry reads as before. Either
    -- its recovery gives what the recovery before the call gives, or the memory is the one that the
    -- whole call leaves.
    pub update_data-crash :
        (id size : ℕ) (bytes : List ℕ) (m' : Memory) (ready : p.consistent ≢ 0) (pos : 0 < size)
        (small : size ≤ max_size)
        → p.memory.log.head_position + sizeof_log_entry + size ≤ segment_size - sizeof_segment
        → contains p.hash_table id ≡ true
        → UpdateState p.memory
            (lookup p.hash_table id)
            (new_version glib p ls is id bytes size ready pos small)
            m'
        → SameLive (Live glib p) p.memory m'
          × ((reconstruct_hash_table glib fuel steps m' new
                ≡ reconstruct_hash_table glib fuel steps p.memory new)
              ⊎ (m' ≡ (update_data glib p true id bytes size).0.memory))
    unfolding release_space updated_entry
    update_data-crash id size bytes _ ready pos small fits present before =
        ((λ o live. refl), inl refl)
    update_data-crash id size bytes m' ready pos small fits present (appending state) =
        let off = lookup p.hash_table id in
        let q = released_heap glib p off in
        let e = new_version glib p ls is id bytes size ready pos small in
        let sound = released-IsHeap glib p ls is off in
        let used' = UsedSegments-release p.memory off p.memory.log.used.first segs used in
        let (same, outcome) =
          append_to_log-crash q.memory ls (Live glib p) sound.store some_head glib fuel steps segs
            head used' at_head idle short short_head few e fits m' state in
        (
          same,
          elim outcome [
            | inl before_append ↦
                inl (before_append ∙ reconstruct-release fuel steps p.memory off idle)
            | inr whole ↦
                inr (whole ∙ update_data-memory p ls is id size bytes ready pos small present)
          ],
        )
