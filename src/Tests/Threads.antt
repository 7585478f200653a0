-- ===== src/Tests/Threads.antt =====
-- The theorems on cleaning segments, applied to the small heap while a thread has a cleaner segment.
use log_heap_pmem.Base.{
  true, ◌>>=◌, ℕ, ◌≡◌, ◌≢◌, ◌≤◌, ◌⊎◌, inl, inr, refl, sym, ◌∙◌, ap, arith, [], ◌∷◌, ok, ◌∈◌, ◌/◌,
}
use log_heap_pmem.Base.Words.{add64}
use log_heap_pmem.Types.{LogEntry, Memory, Offset, segment_of}
use log_heap_pmem.Glib.Assoc.{assoc}
use log_heap_pmem.Log.{log_entry_size}
use log_heap_pmem.Log.Lists.{Lists, IsLog, places}
use log_heap_pmem.Store.{IsPlaced}
use log_heap_pmem.Heap.{Heap, store_entry}
use log_heap_pmem.Heap.Content.{IsHeap, Live, read}
use log_heap_pmem.Consistency.{segment_count}
use log_heap_pmem.Cleaning.{Cursor, clean_segment}
use log_heap_pmem.Cleaning.Invariant.{IsCleanable, Owns, DistinctIds}
use log_heap_pmem.Cleaning.Moved.{Settled}
use log_heap_pmem.Cleaning.Content.{clean_segment-read}
use log_heap_pmem.Cleaning.Progress.{clean_segment-stores}
use log_heap_pmem.Heap.Stored.{IsFor}
use log_heap_pmem.Tests.{
  small_lists, small_heap, small-IsHeap, small-IsSegment, small-objects, cleaning_memory,
}

abbrev pub threads_lists : Lists
threads_lists = record small_lists { cleaner = 12416 ∷ []; emergency = [] }

abbrev pub threads_memory : Memory
threads_memory = record cleaning_memory {
  segment = λ a. record (cleaning_memory.segment a) { id = a / 4096 };
}

abbrev pub threads_heap : Heap assoc
threads_heap = record small_heap { memory = threads_memory }

pub threads-IsLog : IsLog threads_memory threads_lists
threads-IsLog = record {
  free = record { chain = (refl, ground arith, refl); last = refl; distinct = (refl, tt) };
  used = record { chain = (refl, ground arith, refl); last = refl; distinct = (refl, tt) };
  cleaner = record { chain = (refl, ground arith, refl); last = refl; distinct = (refl, tt) };
  emergency = record { chain = refl; last = refl; distinct = tt };
  head = refl;
  head_next = λ ne. refl;
  apart = λ a. ground arith;
}

threads-IsPlaced :
    (o : Offset) → Live assoc threads_heap o → IsPlaced threads_memory threads_lists o
threads-IsPlaced o live =
    let at = small-IsHeap.store.placed o live in
    record {
      segment = at.segment;
      above = at.above;
      below = at.below;
      not_free = at.not_free;
      behind = at.behind;
    }

threads-IsHeap : IsHeap assoc threads_heap threads_lists
threads-IsHeap = record {
  store = record {
    log = threads-IsLog;
    position = small-IsHeap.store.position;
    segments = λ a ne h. small-IsSegment a ne (ground (arith, h));
    placed = threads-IsPlaced;
  };
  entries = λ i h.
      let at = small-IsHeap.entries i h in
      record { nonzero = at.nonzero; own = at.own; nonempty = at.nonempty; kept = at.kept };
  separate = small-IsHeap.separate;
}

threads-cases :
    (a : Offset)
    → a ≢ 0
    → 1 ≤ places a threads_lists
    → (a ≡ 128) ⊎ ((a ≡ 4224) ⊎ ((a ≡ 8320) ⊎ (a ≡ 12416)))
threads-cases a ne h = ground arith

threads-DistinctIds : DistinctIds threads_memory threads_lists
threads-DistinctIds a b na nb ha hb e =
    omega (arith, threads-cases a na ha, threads-cases b nb hb, e)

-- The two live entries and their segments.
Live-cases :
    (o : Offset)
    → Live assoc threads_heap o
    → ((o ≡ 152) × (segment_of o ≡ 128)) ⊎ ((o ≡ 4248) × (segment_of o ≡ 4224))
unfolding segment_of
Live-cases o (id, h, e) = elim (small-objects id h) [
  | inl (i, l) ↦ inl (sym e ∙ l, ap segment_of (sym e ∙ l))
  | inr (i, l) ↦ inr (sym e ∙ l, ap segment_of (sym e ∙ l))
]

pub threads-IsCleanable : IsCleanable assoc threads_heap threads_lists
threads-IsCleanable = record {
  heap = threads-IsHeap;
  spare = λ o live. refl;
  ids = threads-DistinctIds;
}

abbrev pub start : Cursor
start = record { cleaner_seg = 12416; cleaner_seg_pos = 0 }

pub threads-Owns : Owns assoc threads_heap threads_lists start
threads-Owns = record {
  cleaner = refl;
  position = omega arith;
  written = λ o live here. absurd (omega (arith, here, Live-cases o live));
}

pub first-Settled : Settled assoc threads_heap 152
unfolding assoc
first-Settled kept = (refl, λ le. refl)

clean_segment_example :
    (q : Heap assoc) × (d : Cursor) × (next : Offset) × (ls : Lists) × ((clean_segment assoc 3 5
          threads_heap start 128
        ≡ ok ((q, d), next))
      × ((j : ℕ) → read assoc q j ≡ read assoc threads_heap j)
      × IsCleanable assoc q ls
      × Owns assoc q ls d
      × ((o : Offset) → Live assoc q o → segment_of o ≢ 128)
      × ((128 ∈ ls.free) ⊎ (128 ∈ ls.emergency)))
unfolding log_entry_size add64 segment_count
clean_segment_example =
    clean_segment-read assoc threads_heap threads_lists start threads-IsCleanable threads-Owns 128
      refl (152 ∷ []) (refl, (omega arith), (λ z. omega (arith, z)), (omega arith), inr refl)
      (first-Settled, tt) (λ o live here. ground (arith, Live-cases o live, here))
      (λ z. absurd (omega (arith, z))) 5 3 (omega arith) (omega arith) (inr refl)

clean_segment_stores_example :
    (q : Heap assoc) × (d : Cursor) × (next : Offset) × ((clean_segment assoc 3 5 threads_heap start
          128
        ≡ ok ((q, d), next))
      × (((ls : Lists) × IsCleanable assoc q ls × (128 ∈ ls.emergency))
          ⊎ ((id : ℕ) (e : LogEntry) → IsFor id e → (store_entry assoc q id e).1 ≡ true)))
unfolding log_entry_size add64 segment_count
clean_segment_stores_example =
    clean_segment-stores assoc threads_heap threads_lists start threads-IsCleanable threads-Owns 128
      refl (152 ∷ []) (refl, (omega arith), (λ z. omega (arith, z)), (omega arith), inr refl)
      (first-Settled, tt) (λ o live here. ground (arith, Live-cases o live, here))
      (λ z. absurd (omega (arith, z))) 5 3 (omega arith) (omega arith) (inr refl)
