-- ===== src/Cleaning/Client.antt =====
-- project/log_pmem.c, the client's operations, while a thread of project/cleaner.c has a segment: what
-- the thread relies on.
use log_heap_pmem.Base.{
  ℕ, ◌≤◌, ◌≡◌, ◌≢◌, ◌⊎◌, inl, inr, refl, arith, ap, sym, subst, ◌∙◌, Bool, true, false, List, ◌∈◌,
  ◌==◌, if◌then◌else◌, ==_ne, ==_iff, Bool-cases, has,
}
use native.Mathlib.Decide.{ℕ_discrete}
use log_heap_pmem.Types.{Offset, Memory, LogEntry, segment_of}
use log_heap_pmem.Types.Ids.{SameIds, set_used_space-ids}
use log_heap_pmem.Glib.{GHashTable}
use log_heap_pmem.Log.{append_to_log}
use log_heap_pmem.Log.Lists.{Lists}
use log_heap_pmem.Store.{Outcome, Moves, full, stored}
use log_heap_pmem.Store.Append.{append_to_log-Outcome}
use log_heap_pmem.Store.Exchange.{Moves-refl}
use log_heap_pmem.Store.Ids.{append_to_log-SameIds}
use log_heap_pmem.Heap.{
  Heap, store_entry, add_to_hash_table, update_data, palloc_with_id, pfree, release_space,
  mark_deleted, hash_table_contains, new_entry,
}
use log_heap_pmem.Heap.Content.{Live, IsHeap, IsHeap-memory}
use log_heap_pmem.Heap.Free.{
  pfree-content, pfree_absent, pfree-present, left, removed, removed-Live, others-same,
}
use log_heap_pmem.Heap.Update.{
  released, released-IsHeap, update_data-store, new_version, new_version-IsFor,
  update_data_rejected,
}
use log_heap_pmem.Heap.Alloc.{max_size, new_entry-IsFor}
use log_heap_pmem.Heap.History.{Call, set, update, free, Fits, perform}
use log_heap_pmem.Heap.Stored.{IsFor, stored-IsHeap, stored-Live}
use log_heap_pmem.Cleaning.{Cursor}
use log_heap_pmem.Cleaning.Invariant.{IsCleanable, Owns}

module _ (glib : GHashTable) where
  open glib use {Table, contains, lookup}

  -- What a client's operation leaves for the thread.
  pub record Kept (q : Heap glib) (c : Cursor) : Type 0 where
    pub lists : Lists
    pub cleanable : IsCleanable glib q lists
    pub owns : Owns glib q lists c

  module _ (p : Heap glib) (ls : Lists) (c : Cursor) (is : IsCleanable glib p ls)
      (owns : Owns glib p ls c) where
    -- A sound heap whose live entries were live before or lie in the head segment.
    Kept-move :
        (q : Heap glib) (ls' : Lists)
        → IsHeap glib q ls'
        → Moves ls ls'
        → SameIds p.memory.segment q.memory.segment
        → ((o : Offset)
            → Live glib q o
            → (Live glib p o × (q.memory.entry o ≡ p.memory.entry o))
              ⊎ ((segment_of o ≡ ls'.head) × (ls'.head ≢ 0)))
        → Kept q c
    Kept-move q ls' heap moves ids from =
        let apart = heap.store.log.apart ls'.head in
        record {
          lists = ls';
          cleanable = record {
            heap = heap;
            spare = λ o live. elim (from o live) [
              | inl (old, same) ↦ rw moves.emergency (is.spare o old)
              | inr (home, some) ↦ rw home (ground (arith, apart))
            ];
            ids = λ a b na nb ha hb e.
                is.ids a b na nb (moves.fewer a na ha) (moves.fewer b nb hb)
                  (sym (ids a) ∙ e ∙ ids b);
          };
          owns = record {
            cleaner = rw moves.cleaner owns.cleaner;
            position = owns.position;
            written = λ o live here. elim (from o live) [
              | inl (old, same) ↦ rw same (owns.written o old here)
              | inr (home, some) ↦
                  let there : c.cleaner_seg ∈ ls'.cleaner = rw moves.cleaner owns.cleaner in
                  absurd (
                    ground
                      (arith, apart, ap (λ (a : ℕ). has a ls'.cleaner) (sym here ∙ home), there))
            ];
          };
        }

    Outcome-Kept :
        (id : ℕ) (e : LogEntry)
        → IsFor id e
        → (r : Memory × Offset) → Outcome p.memory ls (Live glib p) e r
        → SameIds p.memory.segment r.0.segment
        → Kept
            (if◌then◌else◌ {A = Heap glib × Bool}
              (r.1 == 0)
              (record p { memory = r.0 }, false)
              (add_to_hash_table glib (record p { memory = r.0 }) id r.1, true)).0
            c
    unfolding add_to_hash_table
    Outcome-Kept id e fit r (full {m'} ls' moves empty tight store same) ids =
        Kept-move (record p { memory = m' }) ls' (IsHeap-memory glib p ls is.heap m' ls' store same)
          moves ids (λ o live. inl (live, same o live))
    Outcome-Kept id e fit r (stored {m'} {off} ls' moves home st) ids =
        rw (==_ne off 0 st.nonzero) (
          Kept-move _ ls' (stored-IsHeap glib p ls is.heap id e fit m' off ls' st) moves ids
            (λ o live. elim (stored-Live glib p ls is.heap id e fit m' off ls' st o live) [
              | inl old ↦ inl (old, st.same o old)
              | inr here ↦ inr (rw here home)
            ]))

    store_entry-Kept : (id : ℕ) (e : LogEntry) → IsFor id e → Kept (store_entry glib p id e).0 c
    unfolding store_entry
    store_entry-Kept id e fit =
        Outcome-Kept id e fit (append_to_log p.memory e)
          (append_to_log-Outcome p.memory ls (Live glib p) is.heap.store e fit.small)
          (append_to_log-SameIds p.memory e)

    released-Kept : (off : Offset) → Kept (released glib p off) c
    unfolding release_space
    released-Kept off =
        Kept-move (released glib p off) ls (released-IsHeap glib p ls is.heap off) (Moves-refl ls)
          (set_used_space-ids p.memory.segment _ _) (λ o live. inl (live, refl))

    pfree-Kept : (id : ℕ) → Kept (pfree glib p id) c
    unfolding release_space mark_deleted
    pfree-Kept id = elim (Bool-cases (contains p.hash_table id)) [
      | inr absent ↦ rw (pfree_absent glib p id absent) here
      | inl present ↦
          let (sound, _) = pfree-content glib p ls is.heap id in
          let same = pfree-present glib p ls is.heap id present in
          let m = left glib p ls is.heap id present in
          let heap = subst (λ (q : Heap glib). IsHeap glib q ls) same sound in
          rw same (
            Kept-move (record (removed glib p id) { memory = m }) ls heap (Moves-refl ls)
              (set_used_space-ids p.memory.segment _ _)
              (λ o live. inl (
                removed-Live glib p ls is.heap id o live,
                others-same glib p ls is.heap id present o live,
              )))
    ]
      where
        here : Kept p c
        here = record { lists = ls; cleanable = is; owns = owns }

  module _ (p : Heap glib) (ls : Lists) (c : Cursor) (is : IsCleanable glib p ls)
      (owns : Owns glib p ls c) (ready : p.consistent ≢ 0) (id size : ℕ) (bytes : List ℕ)
      (small : size ≤ max_size) where
    unchanged-Kept : Kept p c
    unchanged-Kept = record { lists = ls; cleanable = is; owns = owns }

    update_data-Kept : Kept (update_data glib p true id bytes size).0 c
    update_data-Kept = elim (ℕ_discrete size 0) [
      | yes z ↦ rw (update_data_rejected glib p true id bytes size (inr (inl z))) unchanged-Kept
      | no pos ↦ elim (Bool-cases (contains p.hash_table id)) [
        | inr absent ↦
            rw (update_data_rejected glib p true id bytes size (inr (inr (inr absent))))
              unchanged-Kept
        | inl present ↦
            let off = lookup p.hash_table id in
            let before = released-Kept p ls c is owns off in
            let e = new_version glib p ls is.heap id bytes size ready (omega arith) small in
            let fit =
              new_version-IsFor glib p ls is.heap id bytes size ready (omega arith) small present in
            rw (update_data-store glib p ls is.heap id bytes size ready (omega arith) small present)
              (store_entry-Kept (released glib p off) before.lists c before.cleanable before.owns id
                e fit)
      ]
    ]

    palloc_with_id-Kept : Kept (palloc_with_id glib p true id size bytes).0 c
    unfolding palloc_with_id hash_table_contains
    palloc_with_id-Kept = elim (ℕ_discrete size 0) [
      | yes z ↦ rw (==_ne p.consistent 0 ready, (==_iff size 0).1 z) unchanged-Kept
      | no pos ↦ elim (Bool-cases (contains p.hash_table id)) [
        | inl present ↦ rw (==_ne p.consistent 0 ready, ==_ne size 0 pos, present) update_data-Kept
        | inr absent ↦
            rw (==_ne p.consistent 0 ready, ==_ne size 0 pos, absent)
              (store_entry-Kept p ls c is owns id (new_entry id size bytes)
                (new_entry-IsFor id size bytes (omega arith) small))
      ]
    ]

  -- A call of a client, whatever it returns, leaves the thread's segment and the heap as the thread
  -- relies on them.
  pub perform-Kept :
      (p : Heap glib) (ls : Lists) (c : Cursor) (call : Call)
      → IsCleanable glib p ls
      → Owns glib p ls c
      → p.consistent ≢ 0
      → Fits call
      → Kept (perform glib p call).0 c
  unfolding perform
  perform-Kept p ls c (set id size bytes) is owns ready small =
      palloc_with_id-Kept p ls c is owns ready id size bytes small
  perform-Kept p ls c (update id size bytes) is owns ready small =
      update_data-Kept p ls c is owns ready id size bytes small
  perform-Kept p ls c (free id) is owns ready small = pfree-Kept p ls c is owns id
