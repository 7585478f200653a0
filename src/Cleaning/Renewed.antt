-- ===== src/Cleaning/Renewed.antt =====
-- project/cleaner.c, `clean`, at an entry that project/log_pmem.c has replaced (`update_data`), whose
-- object it has deleted (`pfree`) and stored anew (`palloc_with_id`).
use log_heap_pmem.Base.{
  inl, ℕ, ◌+◌, ◌-◌, ◌≤◌, ◌<◌, ◌≡◌, ◌≢◌, refl, arith, ap, sym, subst, ◌∙◌, true, false, some, List,
  ok, ◌==◌, if◌then◌else◌, ==_ne, ==_refl, take,
}
use log_heap_pmem.Types.{
  Offset, Memory, LogEntry, offset_to_pointer, segment_size, sizeof_segment, sizeof_log_entry,
  write,
}
use log_heap_pmem.Types.Chain.{set_used_space-next}
use log_heap_pmem.Glib.{GHashTable}
use log_heap_pmem.Log.{append_to_log}
use log_heap_pmem.Log.Lists.{Lists, IsLog-keep}
use log_heap_pmem.Store.{IsStore, Outcome, full, stored}
use log_heap_pmem.Store.Append.{append_to_log-Outcome}
use log_heap_pmem.Store.Segments.{IsPlaced-keep, IsStore-narrow}
use log_heap_pmem.Heap.{
  Heap, store_entry, add_to_hash_table, update_data, pfree, palloc_with_id, get_from_hash_table,
  remove_from_hash_table, release_space, mark_deleted, hash_table_contains, new_entry,
  offsetof_data,
}
use log_heap_pmem.Heap.Alloc.{max_size, new_entry-IsFor}
use log_heap_pmem.Heap.Content.{Live, IsHeap, read, get_address_present, read_lem}
use log_heap_pmem.Heap.Flag.{update_data-consistent, pfree-consistent}
use log_heap_pmem.Heap.Stored.{IsFor}
use log_heap_pmem.Heap.Update.{released, released-IsHeap, new_version, new_version-IsFor}
use log_heap_pmem.Flush.Client.{pfree-memory}
use log_heap_pmem.Cleaning.{Cursor, clean_entry}
use log_heap_pmem.Cleaning.Freed.{stores}
use log_heap_pmem.Cleaning.Unsettled.{clean_entry-overwrites}

-- The memory after `pfree` marks another entry places the same ones.
freed-IsStore :
    (m : Memory) (ls : Lists) (Live : Offset → Type 0) (off : Offset)
    → ((o : Offset) → Live o → o ≢ off)
    → IsStore m ls Live
    → IsStore (release_space (mark_deleted m off) off) ls Live
unfolding release_space mark_deleted write
freed-IsStore m ls Live off others is =
    let m' = release_space (mark_deleted m off) off in
    record {
      log =
          IsLog-keep m ls m'.segment m'.entry m.log.head_position m.log.current_id
            (set_used_space-next m.segment _ _) is.log;
      position = is.position;
      segments = is.segments;
      placed = λ o live.
          IsPlaced-keep m m' ls o (ground (arith, others o live)) (omega arith) (is.placed o live);
    }

module _ (glib : GHashTable) where
  open glib use {Table, insert, lookup, contains, lookup-insert, lookup-remove, contains-remove}

  -- The object has the entry `e`; the one at `o` is another one, placed, and reads `x`.
  record Superseded (x : LogEntry) (id : ℕ) (o : Offset) (e : LogEntry) (p' : Heap glib)
      : Type 0 where
    lists : Lists
    store : IsStore p'.memory lists (λ a. a ≡ o)
    same : p'.memory.entry o ≡ x
    present : lookup p'.hash_table id ≢ 0
    other : o ≢ lookup p'.hash_table id
    current : p'.memory.entry (lookup p'.hash_table id) ≡ e

  module _ (p : Heap glib) (ls : Lists) (Live : Offset → Type 0) (is : IsStore p.memory ls Live)
      (id : ℕ) (o : Offset) (live : Live o) (e : LogEntry) (fit : IsFor id e) where
    Outcome-Superseded :
        (r : Memory × Offset)
        → Outcome p.memory ls Live e r
        → (r.1 == 0) ≡ false
        → Superseded
            (p.memory.entry o)
            id
            o
            e
            (add_to_hash_table glib (record p { memory = r.0 }) id r.1)
    unfolding add_to_hash_table
    Outcome-Superseded r (full ls' moves empty tight store same) done = cc
    Outcome-Superseded r (stored {m'} {off} ls' moves home st) done =
        let leads : lookup (insert p.hash_table id off) id ≡ off =
          lookup-insert p.hash_table id off id ∙ rw (==_refl id) refl in
        record {
          lists = ls';
          store =
              IsStore-narrow m' ls' _ (λ a. a ≡ o) (λ a h. inl (subst Live (sym h) live)) st.store;
          same = st.same o live;
          present = λ z. st.nonzero (sym leads ∙ z);
          other = rw leads (λ same. omega (arith, st.apart o live, same));
          current = rw leads st.at;
        }

    store_entry-Superseded :
        (store_entry glib p id e).1 ≡ true
        → Superseded (p.memory.entry o) id o e (store_entry glib p id e).0
    unfolding store_entry
    store_entry-Superseded done =
        let r = append_to_log p.memory e in
        let out = Outcome-Superseded r (append_to_log-Outcome p.memory ls Live is e fit.small) in
        ground (arith, out)

  module _ (p : Heap glib) (ls : Lists) (is : IsHeap glib p ls) (id : ℕ) (bytes : List ℕ) (size : ℕ)
      (ready : p.consistent ≢ 0) (pos : 0 < size) (small : size ≤ max_size)
      (present : contains p.hash_table id ≡ true)
      (done : (update_data glib p true id bytes size).1 ≡ 0) where
    abbrev first : Offset
    first = lookup p.hash_table id

    abbrev after_free : Heap glib
    after_free = pfree glib (update_data glib p true id bytes size).0 id

    abbrev version : LogEntry
    version = new_version glib p ls is id bytes size ready pos small

    updated-Superseded :
        Superseded (p.memory.entry first) id first version (update_data glib p true id bytes size).0
    unfolding release_space
    updated-Superseded =
        let r = stores glib p ls is id bytes size ready pos small present done in
        let superseded =
          store_entry-Superseded (released glib p first) ls (Live glib p)
            (released-IsHeap glib p ls is first).store id first (id, present, refl) version
            (new_version-IsFor glib p ls is id bytes size ready pos small present) in
        let was_stored : (store_entry glib (released glib p first) id version).1 ≡ true =
          (let result = rw r at done in ground (arith, result)) in
        subst (λ (q : Heap glib × ℕ). Superseded (p.memory.entry first) id first version q.0)
          (sym r) (superseded was_stored)

    freed-store : (ls' : Lists) × IsStore after_free.memory ls' (λ a. a ≡ first)
    freed-store =
        let s = updated-Superseded in
        let updated = (update_data glib p true id bytes size).0 in
        let others : (a : Offset) → a ≡ first → a ≢ lookup updated.hash_table id =
          λ a e z. s.other (sym e ∙ z) in
        (
          s.lists,
          rw (pfree-memory glib updated id s.present) (
              freed-IsStore updated.memory s.lists (λ a. a ≡ first) (lookup updated.hash_table id)
                others s.store),
        )

    freed-entry : after_free.memory.entry first ≡ p.memory.entry first
    unfolding release_space mark_deleted write
    freed-entry =
        let s = updated-Superseded in
        let updated = (update_data glib p true id bytes size).0 in
        rw (pfree-memory glib updated id s.present) (ground (arith, s.other, s.same))

    freed-absent : contains after_free.hash_table id ≡ false
    unfolding pfree get_from_hash_table offset_to_pointer remove_from_hash_table
    freed-absent =
        let s = updated-Superseded in
        let updated = (update_data glib p true id bytes size).0 in
        rw (==_ne (lookup updated.hash_table id) 0 s.present, pfree)
          (contains-remove updated.hash_table id id ∙ rw (==_refl id) refl)

    module _ (size' : ℕ) (bytes' : List ℕ) (pos' : 0 < size') (small' : size' ≤ max_size)
        (again : (palloc_with_id glib after_free true id size' bytes').1 ≡ 0) where
      abbrev renewed : Heap glib
      renewed = (palloc_with_id glib after_free true id size' bytes').0

      renewed-Superseded :
          Superseded (p.memory.entry first) id first (new_entry id size' bytes') renewed
      unfolding palloc_with_id hash_table_contains
      renewed-Superseded =
          let (ls', store) = freed-store in
          let e = new_entry id size' bytes' in
          let still : after_free.consistent ≢ 0 = λ z. ready (
            sym (
              pfree-consistent glib (update_data glib p true id bytes size).0 id
              ∙ update_data-consistent glib p id size bytes)
            ∙ z) in
          let r : palloc_with_id glib after_free true id size' bytes'
              ≡ (let (q, kept) = store_entry glib after_free id e in (q, if kept then 0 else 1)) =
            rw (==_ne after_free.consistent 0 still, ==_ne size' 0 (omega arith), freed-absent)
              refl in
          let was_stored : (store_entry glib after_free id e).1 ≡ true =
            (let result = rw r at again in ground (arith, result)) in
          subst
            (λ (q : Heap glib × ℕ).
              Superseded (p.memory.entry first) id first (new_entry id size' bytes') q.0)
            (sym r)
            (subst (λ (x : LogEntry). Superseded x id first e (store_entry glib after_free id e).0)
              freed-entry
              (store_entry-Superseded after_free ls' (λ a. a ≡ first) store id first refl e
                (new_entry-IsFor id size' bytes' pos' small') was_stored))

      renewed-read : read glib renewed id ≡ some (take size' bytes')
      unfolding read new_entry
      renewed-read =
          let s = renewed-Superseded in
          let to = lookup renewed.hash_table id in
          let back : to + offsetof_data - offsetof_data ≡ to = omega arith in
          rw (get_address_present glib renewed id s.present, read)
            (ap (λ (a : Offset). some (renewed.memory.entry a).bytes) back
              ∙ ap (λ (x : LogEntry). some x.bytes) s.current)

      -- On a sound and consistent heap an object of the table, of version 1 at least, is updated
      -- with 1 to 4040 bytes of data, freed, and stored anew by `palloc_with_id` with 1 to 4040
      -- bytes `bytes'`; each `malloc` succeeds, and the two calls that report a result succeed.
      -- Then a client reads these bytes. A cleaner thread with room in its segment for the object's
      -- first entry, that comes to that entry, enters a copy of it in the table, and from then on a
      -- client reads the data from before the update.
      pub clean_entry-renewed :
          (fuel : ℕ) (c : Cursor)
          → 1 ≤ (p.memory.entry first).version
          → c.cleaner_seg_pos + sizeof_log_entry + (p.memory.entry first).length
            ≤ segment_size - sizeof_segment
          → (read glib renewed id ≡ some (take size' bytes'))
            × ((q : Heap glib) × (d : Cursor) × ((clean_entry glib fuel renewed c first ≡ ok (q, d))
                  × (read glib q id ≡ read glib p id)))
      unfolding new_entry
      clean_entry-renewed fuel c old_version room =
          let s = renewed-Superseded in
          let at = is.entries id present in
          let whole = s.same in
          let own : (renewed.memory.entry first).id ≡ id =
            ap (λ (x : LogEntry). x.id) whole ∙ at.own in
          let there = s.present in
          let v = λ (x : LogEntry). x.version in
          let v_old = ap v whole in
          let v_new : (renewed.memory.entry (lookup renewed.hash_table id)).version ≡ 1 =
            ap v s.current in
          let before : read glib p id ≡ some (p.memory.entry first).bytes =
            read_lem glib p ls id is ∙ rw present refl in
          let (q, d, (run, reads)) =
            clean_entry-overwrites glib fuel renewed c first (rw whole room)
              (ap (λ (x : LogEntry). x.to_delete) whole ∙ at.kept) (rw own there)
              (rw own (omega (arith, v_old, v_new, old_version))) in
          (
            renewed-read,
            (
              q,
              d,
              (
                run,
                subst (λ (i : ℕ). read glib q i ≡ read glib p id) own
                    (reads ∙ ap (λ (x : LogEntry). some x.bytes) whole ∙ sym before),
              ),
            ),
          )
