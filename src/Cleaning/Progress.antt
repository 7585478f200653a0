-- ===== src/Cleaning/Progress.antt =====
-- project/cleaner.c, `clean`, and `append_to_log` behind it: cleaning makes room.
use log_heap_pmem.Base.{
  ℕ, ◌<◌, ◌≡◌, ◌≢◌, ◌⊎◌, inl, inr, refl, arith, ap, List, [], ◌∈◌, has, true, ok, All, length,
}
use log_heap_pmem.Types.{Offset, LogEntry, segment_of}
use log_heap_pmem.Glib.{GHashTable}
use log_heap_pmem.Log.Lists.{Lists}
use log_heap_pmem.Heap.{Heap, store_entry}
use log_heap_pmem.Heap.Content.{Live}
use log_heap_pmem.Heap.Stored.{IsFor}
use log_heap_pmem.Heap.StoreEntry.{Stores, refused, kept, store_entry-Stores}
use log_heap_pmem.Consistency.{segment_count}
use log_heap_pmem.Recovery.Scan.{UsedEntries}
use log_heap_pmem.Cleaning.{Cursor, clean_segment}
use log_heap_pmem.Cleaning.Invariant.{IsCleanable, Owns, HasSpare}
use log_heap_pmem.Cleaning.Moved.{Settled}
use log_heap_pmem.Cleaning.Content.{clean_segment-read}

module _ (glib : GHashTable) where
  Stores-free :
      (p : Heap glib) (ls : Lists) (id : ℕ) (e : LogEntry) {r : Heap glib × _}
      → ls.free ≢ []
      → Stores glib p ls id e r
      → r.1 ≡ true
  Stores-free p ls id e some (refused ls' empty _ _ _) = absurd (some empty)
  Stores-free p ls id e some (kept ls' _ _) = refl

  module _ (p : Heap glib) (ls : Lists) (c : Cursor) (is : IsCleanable glib p ls)
      (owns : Owns glib p ls c) (seg : Offset) (on : seg ∈ ls.used) (offs : List Offset)
      (entries : UsedEntries p.memory seg 0 offs) (settled : All (Settled glib p) offs)
      (met : (o : Offset) → Live glib p o → segment_of o ≡ seg → o ∈ offs)
      (filled : (p.memory.segment seg).used_space ≡ 0
        → (o : Offset) → Live glib p o
        → segment_of o ≢ seg) where
    -- Take a well-formed heap with segments of distinct identifiers and no live entry in an emergency
    -- segment, a thread that owns its cleaner segment, and a used segment whose entries are listed,
    -- all live ones among them, with none live at the fill level 0, where each entry that is not
    -- deleted has its identifier in the table, and is older than the table's entry or the same. With
    -- fuel above the number of segments and that of entries, and a spare segment or an empty one of
    -- the thread's, `clean_segment` returns. Then the emergency list has got the segment, or the next
    -- entry that a client stores, of any identifier and any size that fits into a segment, is stored.
    pub clean_segment-stores :
        (fuel steps : ℕ)
        → segment_count ls < fuel
        → length offs < steps
        → HasSpare ls ⊎ (c.cleaner_seg_pos ≡ 0)
        → (q : Heap glib) × (d : Cursor) × (next : Offset) × ((clean_segment glib steps fuel p c seg
              ≡ ok ((q, d), next))
            × (((ls' : Lists) × IsCleanable glib q ls' × (seg ∈ ls'.emergency))
                ⊎ ((id : ℕ) (e : LogEntry) → IsFor id e → (store_entry glib q id e).1 ≡ true)))
    clean_segment-stores fuel steps enough long supply =
        let (q, d, next, ls', (run, same, is', owns', empty, target)) =
          clean_segment-read glib p ls c is owns seg on offs entries settled met filled fuel steps
            enough long supply in
        (
          q,
          d,
          next,
          (
            run,
            elim target [
              | inr spare ↦ inl (ls', is', spare)
              | inl free ↦ inr (λ id e fit.
                  let some : ls'.free ≢ [] =
                    λ z. ground (arith, ap (λ (xs : List ℕ). has seg xs) z, free) in
                  Stores-free q ls' id e some (store_entry-Stores glib q ls' is'.heap id e fit))
            ],
          ),
        )
