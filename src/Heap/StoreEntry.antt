-- ===== src/Heap/StoreEntry.antt =====
-- What `palloc`, `palloc_with_id` and `update_data` share: `append_to_log`, then `add_to_hash_table`.
use log_heap_pmem.Base.{ℕ, ◌≡◌, refl, Bool, true, false, [], ◌==◌, if◌then◌else◌, ==_ne}
use log_heap_pmem.Types.{Offset, Memory, LogEntry}
use log_heap_pmem.Glib.{GHashTable}
use log_heap_pmem.Log.{append_to_log}
use log_heap_pmem.Log.Lists.{Lists}
use log_heap_pmem.Store.{Outcome, full, stored}
use log_heap_pmem.Store.Append.{append_to_log-Outcome}
use log_heap_pmem.Heap.{Heap, store_entry, add_to_hash_table}
use log_heap_pmem.Heap.Stored.{IsFor, stored-IsHeap, stored-read}
use log_heap_pmem.Heap.Content.{put, read, Live, IsHeap, IsHeap-memory, read-memory}

module _ (glib : GHashTable) where
  open glib use {Table, insert, lookup, contains}

  -- The outcomes of `store_entry`: nothing changes for the reader, with no segment free; or exactly
  -- the data of `id` are those of the entry.
  pub data Stores (p : Heap glib) (ls : Lists) (id : ℕ) (e : LogEntry)
      : Heap glib × Bool → Type 0 where
    refused :
        {p' : Heap glib} (ls' : Lists)
        → ls.free ≡ []
        → IsHeap glib p' ls'
        → p'.hash_table ≡ p.hash_table
        → ((j : ℕ) → read glib p' j ≡ read glib p j)
        → Stores p ls id e (p', false)
    kept :
        {p' : Heap glib} (ls' : Lists)
        → IsHeap glib p' ls'
        → ((j : ℕ) → read glib p' j ≡ put (read glib p) id e.bytes j)
        → Stores p ls id e (p', true)

  module _ (p : Heap glib) (ls : Lists) (is : IsHeap glib p ls) (id : ℕ) (e : LogEntry)
      (fit : IsFor id e) where
    Outcome-Stores :
        (r : Memory × Offset)
        → Outcome p.memory ls (Live glib p) e r
        → Stores p ls id e (
            if r.1 == 0
            then (record p { memory = r.0 }, false)
            else (add_to_hash_table glib (record p { memory = r.0 }) id r.1, true))
    unfolding add_to_hash_table
    Outcome-Stores r (full {m'} ls' moves empty tight store same) =
        refused ls' empty (IsHeap-memory glib p ls is m' ls' store same) refl
          (read-memory glib p ls is m' ls' store same)
    Outcome-Stores r (stored {m'} {off} ls' moves home st) = rw (==_ne off 0 st.nonzero) (
        kept ls' (stored-IsHeap glib p ls is id e fit m' off ls' st)
          (stored-read glib p ls is id e fit m' off ls' st))

    -- On a sound heap, an entry for an identifier that fits into a segment, with data and not
    -- marked deleted, is either stored, and its data are the identifier's, those of every other
    -- one being as before; or it is not, no segment was free, and every identifier has the data
    -- it had. The heap stays sound.
    pub store_entry-Stores : Stores p ls id e (store_entry glib p id e)
    unfolding store_entry
    store_entry-Stores =
        Outcome-Stores (append_to_log p.memory e)
          (append_to_log-Outcome p.memory ls (Live glib p) is.store e fit.small)
