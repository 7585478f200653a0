-- ===== src/Flush/Updated.antt =====
-- project/log_pmem.c, `update_data`: what the recovery finds after a crash between its flushes.
use log_heap_pmem.Base.{
  ℕ, ◌+◌, ◌-◌, ◌≤◌, ◌<◌, ◌≡◌, ◌≢◌, ◌⊎◌, inl, inr, refl, arith, ap, ◌∙◌, true, List, All, length,
  ==_ne, ok, lt→ltb,
}
use log_heap_pmem.Base.Words.{word, add64}
use log_heap_pmem.Types.{
  Offset, Memory, LogEntry, segment_size, sizeof_segment, sizeof_log_entry, offset_to_pointer,
}
use log_heap_pmem.Glib.{GHashTable}
use log_heap_pmem.Log.{head_end}
use log_heap_pmem.Log.Lists.{Lists}
use log_heap_pmem.Store.{SameLive}
use log_heap_pmem.Heap.{Heap, update_data, release_space, updated_entry}
use log_heap_pmem.Heap.Alloc.{max_size}
use log_heap_pmem.Heap.Content.{IsHeap, Live}
use log_heap_pmem.Heap.Update.{released as released_heap, released-IsHeap, new_version}
use log_heap_pmem.Recovery.{note_entry, reconstruct_hash_table}
use log_heap_pmem.Recovery.Scan.{UsedSegments, HeadSegment}
use log_heap_pmem.Recovery.Snoc.{end_of}
use log_heap_pmem.Flush.{UpdateState, before, appending}
use log_heap_pmem.Flush.Complete.{append_to_log-recovered}
use log_heap_pmem.Flush.Client.{UsedSegments-release, reconstruct-release, update_data-memory}

module _ (glib : GHashTable) where
  open glib use {Table, new, insert, contains, lookup}

  -- A newer version replaces the table's entry.
  note_entry-newer :
      (m : Memory) (t : Table) (id off p : ℕ)
      → (m.entry p).to_delete ≡ 0
      → (m.entry p).id ≡ id
      → contains t id ≡ true
      → lookup t id ≡ off
      → off ≢ 0
      → (m.entry off).version < (m.entry p).version
      → note_entry glib m t p ≡ ok (insert t id p)
  unfolding note_entry offset_to_pointer
  note_entry-newer m t id off p kept own present at ne newer =
      rw
        (
          kept,
          own,
          present,
          at,
          ==_ne off 0 ne,
          note_entry,
          lt→ltb (m.entry off).version (m.entry p).version newer,
          own,
        )
        refl

  module _ (p : Heap glib) (ls : Lists) (is : IsHeap glib p ls) (some_head : ls.head ≢ 0)
      (fuel steps : ℕ) (segs : List (Offset × List Offset)) (head : List Offset)
      (used : UsedSegments p.memory p.memory.log.used.first segs)
      (at_head : HeadSegment p.memory head)
      (stop : end_of p.memory p.memory.log.head_segment 0 head ≡ p.memory.log.head_position)
      (idle : p.memory.log.cleaner.first ≡ 0) (short : All (λ s. length s.1 < steps) segs)
      (short_head : length head + 1 < steps) (few : length segs < fuel) where
    -- The heap is sound and consistent, the object is in the table, its new data are of 1 to 4040
    -- bytes and fit behind the head position, its version does not wrap, and the log's entries are
    -- listed as in `append_to_log-recovered`. The recovery before the call gives a table that has
    -- the object at the same entry. A crash at any point of `update_data`, with any bytes in the
    -- place of a copy that was not complete, leaves a memory in which every live entry reads as
    -- before. Either its recovery gives the same table, or it is the memory that the whole call
    -- leaves, and its recovery gives that table with the object at the new version.
    pub update_data-recovered :
        (id size : ℕ) (bytes : List ℕ) (t : Table) (m' : Memory) (ready : p.consistent ≢ 0)
        (pos : 0 < size) (small : size ≤ max_size)
        → p.memory.log.head_position + sizeof_log_entry + size ≤ segment_size - sizeof_segment
        → contains p.hash_table id ≡ true
        → (p.memory.entry (lookup p.hash_table id)).version + 1 < word
        → reconstruct_hash_table glib fuel steps p.memory new ≡ ok t
        → contains t id ≡ true
        → lookup t id ≡ lookup p.hash_table id
        → UpdateState p.memory
            (lookup p.hash_table id)
            (new_version glib p ls is id bytes size ready pos small)
            m'
        → SameLive (Live glib p) p.memory m'
          × ((reconstruct_hash_table glib fuel steps m' new ≡ ok t)
              ⊎ ((m' ≡ (update_data glib p true id bytes size).0.memory)
                  × (m'.entry (head_end p.memory)
                      ≡ new_version glib p ls is id bytes size ready pos small)
                  × (reconstruct_hash_table glib fuel steps m' new
                      ≡ ok (insert t id (head_end p.memory)))))
    unfolding release_space updated_entry head_end add64
    update_data-recovered id size bytes t _ ready pos small fits present wrap run has at before =
        ((λ o live. refl), inl run)
    update_data-recovered id size bytes t m' ready pos small fits present wrap run has at
          (appending state) =
        let off = lookup p.hash_table id in
        let q = released_heap glib p off in
        let e = new_version glib p ls is id bytes size ready pos small in
        let old = is.entries id present in
        let sound = released-IsHeap glib p ls is off in
        let used' = UsedSegments-release p.memory off p.memory.log.used.first segs used in
        let from = reconstruct-release glib fuel steps p.memory off idle ∙ run in
        let (same, outcome) =
          append_to_log-recovered q.memory ls (Live glib p) sound.store some_head glib fuel steps
            segs head used' at_head stop idle short short_head few e fits m' state in
        (
          same,
          elim outcome [
            | inl before_append ↦ inl (before_append ∙ from)
            | inr (after, whole, noted) ↦
                let v = λ (x : LogEntry). x.version in
                let newer : (m'.entry off).version < (m'.entry (head_end p.memory)).version =
                  omega (arith, ap v (same off (id, present, refl)), ap v whole, wrap) in
                inr (
                  after ∙ update_data-memory glib p ls is id size bytes ready pos small present,
                  whole,
                  noted
                      ∙ rw from (
                          note_entry-newer m' t id off (head_end p.memory)
                            (ap (λ (x : LogEntry). x.to_delete) whole ∙ old.kept)
                            (ap (λ (x : LogEntry). x.id) whole ∙ old.own) has at old.nonzero newer),
                )
          ],
        )
