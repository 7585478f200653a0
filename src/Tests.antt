-- ===== src/Tests.antt =====
-- The theorems at a small heap: the object 1 in a used segment, the object 2 in the head segment, one
-- free segment and one for the cleaner.
mod Examples
mod Cleaning
mod Pools
mod Threads
mod Listing
mod Crashes
mod Turns
use log_heap_pmem.Base.{
  ℕ, ◌+◌, ◌-◌, ◌*◌, ◌/◌, ◌≡◌, ◌≢◌, ◌≤◌, ◌<◌, ◌⊎◌, refl, inl, inr, ap, sym, subst, ◌∙◌, arith, Bool,
  true, false, none, some, List, [], ◌∷◌, ◌++◌, ◌==◌, if◌then◌else◌, Run, ok, ==_ne, ==_iff,
  Bool-cases, has, take,
}
use log_heap_pmem.Types.{
  Offset, Memory, Segment, Segments, SegmentList, LogEntry, Log, Pmem, segment_of, sizeof_segment,
  segment_size,
}
use log_heap_pmem.Types.Chain.{IsList}
use log_heap_pmem.Glib.{GHashTable}
use log_heap_pmem.Glib.Assoc.{assoc}
use log_heap_pmem.Log.Lists.{Lists, IsLog, places, exchange, Matches}
use log_heap_pmem.Store.{IsStore, IsSegment, IsPlaced, Apart, Outcome}
use log_heap_pmem.Heap.{Heap}
use log_heap_pmem.Heap.Content.{IsHeap, IsEntry, Live}

abbrev object_entry : ℕ → List ℕ → LogEntry
object_entry id bytes = record { id = id; version = 1; length = 3; to_delete = 0; bytes = bytes }

abbrev no_entry : LogEntry
no_entry = record { id = 0; version = 0; length = 0; to_delete = 0; bytes = [] }

abbrev blank_segment : ℕ → Segment
blank_segment used = record { id = 0; next_segment = 0; used_space = used }

abbrev small_memory : Memory
small_memory = record {
  log = record {
    signature = [];
    regular_termination = 0;
    head_segment = 4224;
    free = record { first = 8320; last = 8320 };
    used = record { first = 128; last = 128 };
    cleaner = record { first = 0; last = 0 };
    emergency = record { first = 12416; last = 12416 };
    current_id = 3;
    head_position = 35;
    used_segments_count = 1;
    current_emergency_cleaner_segments_count = 1;
  };
  segment = λ a. if a == 128 then blank_segment 35 else blank_segment 0;
  entry = λ a.
      if a == 152
      then object_entry 1 (7 ∷ 8 ∷ 9 ∷ [])
      else (if a == 4248 then object_entry 2 (4 ∷ 5 ∷ 6 ∷ []) else no_entry);
}

abbrev small_lists : Lists
small_lists = record {
  head = 4224;
  free = 8320 ∷ [];
  used = 128 ∷ [];
  cleaner = [];
  emergency = 12416 ∷ [];
}

abbrev small_table : assoc.Table
small_table = assoc.insert (assoc.insert assoc.new 1 152) 2 4248

abbrev small_heap : Heap assoc
small_heap = record {
  memory = small_memory;
  size = 16512;
  hash_table = small_table;
  currently_cleaned_segments = assoc.new;
  consistent = 1;
}

small-IsLog : IsLog small_memory small_lists
small-IsLog = record {
  free = record { chain = (refl, ground arith, refl); last = refl; distinct = (refl, tt) };
  used = record { chain = (refl, ground arith, refl); last = refl; distinct = (refl, tt) };
  cleaner = record { chain = refl; last = refl; distinct = tt };
  emergency = record { chain = (refl, ground arith, refl); last = refl; distinct = (refl, tt) };
  head = refl;
  head_next = λ ne. refl;
  apart = λ a. ground arith;
}

abbrev small_segment : ℕ → Offset
small_segment n = 128 + segment_size * n

small_segment-IsSegment : (n : ℕ) → n < 4 → IsSegment (small_segment n)
small_segment-IsSegment n h = omega arith

-- A segment of the four.
small-cases :
    (a : Offset)
    → a ≢ 0
    → 1 ≤ places a small_lists
    → (a ≡ 128) ⊎ ((a ≡ 4224) ⊎ ((a ≡ 8320) ⊎ (a ≡ 12416)))
small-cases a ne h = ground arith

small-IsSegment : (a : Offset) → a ≢ 0 → 1 ≤ places a small_lists → IsSegment a
small-IsSegment a ne h = omega (arith, small-cases a ne h)

-- What the table has.
small-objects :
    (id : ℕ)
    → assoc.contains small_table id ≡ true
    → ((id ≡ 1) × (assoc.lookup small_table id ≡ 152))
      ⊎ ((id ≡ 2) × (assoc.lookup small_table id ≡ 4248))
small-objects id h =
    let one = assoc.insert assoc.new 1 152 in
    let c2 = assoc.contains-insert one 2 4248 id in
    let c1 = assoc.contains-insert assoc.new 1 152 id in
    let c0 = assoc.contains-new id in
    let l2 = assoc.lookup-insert one 2 4248 id in
    let l1 = assoc.lookup-insert assoc.new 1 152 id in ground (arith, c2, c1, c0, l2, l1)

first-IsPlaced : IsPlaced small_memory small_lists 152
unfolding segment_of
first-IsPlaced = record {
  segment = small_segment-IsSegment 0 (omega arith);
  above = omega arith;
  below = omega arith;
  not_free = refl;
  behind = λ e. omega (arith, e);
}

second-IsPlaced : IsPlaced small_memory small_lists 4248
unfolding segment_of
second-IsPlaced = record {
  segment = small_segment-IsSegment 1 (omega arith);
  above = omega arith;
  below = omega arith;
  not_free = refl;
  behind = λ e. omega (arith, e);
}

small-IsEntry : (id : ℕ) → assoc.contains small_table id ≡ true → IsEntry assoc small_heap id
small-IsEntry id h = elim (small-objects id h) [
  | inl (i, l) ↦ record {
    nonzero = λ z. omega (arith, l, z);
    own = rw l (sym i);
    nonempty = rw l (omega arith);
    kept = rw l refl;
  }
  | inr (i, l) ↦ record {
    nonzero = λ z. omega (arith, l, z);
    own = rw l (sym i);
    nonempty = rw l (omega arith);
    kept = rw l refl;
  }
]

small-IsPlaced : (off : Offset) → Live assoc small_heap off → IsPlaced small_memory small_lists off
small-IsPlaced off (id, h, e) = elim (small-objects id h) [
  | inl (i, l) ↦ subst (IsPlaced small_memory small_lists) (sym l ∙ e) first-IsPlaced
  | inr (i, l) ↦ subst (IsPlaced small_memory small_lists) (sym l ∙ e) second-IsPlaced
]

small-Apart :
    (i j : ℕ)
    → i ≢ j
    → assoc.contains small_table i ≡ true
    → assoc.contains small_table j ≡ true
    → Apart small_memory (assoc.lookup small_table i) (assoc.lookup small_table j)
small-Apart i j ne hi hj = elim (small-objects i hi) [
  | inl (ei, li) ↦ elim (small-objects j hj) [
    | inl (ej, lj) ↦ absurd (ne (ei ∙ sym ej))
    | inr (ej, lj) ↦ rw (li, lj) (inl (omega arith))
  ]
  | inr (ei, li) ↦ elim (small-objects j hj) [
    | inl (ej, lj) ↦ rw (li, lj) (inr (omega arith))
    | inr (ej, lj) ↦ absurd (ne (ei ∙ sym ej))
  ]
]

small-IsHeap : IsHeap assoc small_heap small_lists
small-IsHeap = record {
  store = record {
    log = small-IsLog;
    position = omega arith;
    segments = small-IsSegment;
    placed = small-IsPlaced;
  };
  entries = small-IsEntry;
  separate = small-Apart;
}

-- The emergency segment is in the cleaner's use.
abbrev cleaning_memory : Memory
cleaning_memory = record small_memory {
  log = record small_memory.log {
    cleaner = record { first = 12416; last = 12416 };
    emergency = record { first = 0; last = 0 };
  };
}
