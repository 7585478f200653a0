-- ===== src/Cleaning/Invariant.antt =====
-- project/cleaner.c, `clean`: what holds of the heap and of the thread's own segment between two entries,
-- and moves of segments between the lists that keep it.
use log_heap_pmem.Base.{
  ℕ, ◌+◌, ◌-◌, ◌≤◌, ◌≡◌, ◌≢◌, ◌⊎◌, inl, inr, refl, arith, ap, sym, ◌∙◌, List, [], ◌∷◌, ◌∈◌, ◌∉◌,
  has-append, Distinct,
}
use log_heap_pmem.Types.{Offset, Memory, segment_size, sizeof_segment, segment_of}
use log_heap_pmem.Glib.{GHashTable}
use log_heap_pmem.Types.Chain.{∉-ne}
use log_heap_pmem.Log.Lists.{Lists, IsLog, places}
use log_heap_pmem.Store.{IsStore, end_of}
use log_heap_pmem.Heap.{Heap}
use log_heap_pmem.Heap.Content.{IsHeap, IsHeap-memory, Live}
use log_heap_pmem.Cleaner.{acquire, acquire_emergency}
use log_heap_pmem.Cleaner.Keeps.{Keeps}
use log_heap_pmem.Cleaning.{Cursor}

-- Two segments of the log with the same identifier are the same.
abbrev pub DistinctIds : Memory → Lists → Type 0
DistinctIds m ls =
    (a b : Offset)
    → a ≢ 0
    → b ≢ 0
    → 1 ≤ places a ls
    → 1 ≤ places b ls
    → (m.segment a).id ≡ (m.segment b).id
    → a ≡ b

-- A free or an emergency segment is left for the cleaner.
abbrev pub HasSpare : Lists → Type 0
HasSpare ls = (acquire ls.free ls).1 ≢ 0

module _ (m m' : Memory) (ls ls' : Lists) (keeps : Keeps m m')
    (fewer : (a : ℕ) → places a ls' ≤ places a ls) where
  pub DistinctIds-move : DistinctIds m ls → DistinctIds m' ls'
  DistinctIds-move ids a b na nb ha hb e =
      ids a b na nb (omega (arith, fewer a)) (omega (arith, fewer b))
        (sym (keeps.ids a) ∙ e ∙ keeps.ids b)

  module _ (Live : Offset → Type 0) (is : IsStore m ls Live) (log : IsLog m' ls')
      (head : ls'.head ≡ ls.head) (free : (o : Offset) → Live o → segment_of o ∉ ls'.free) where
    pub IsStore-move : IsStore m' ls' Live
    IsStore-move = record {
      log = log;
      position = omega (arith, keeps.position, is.position);
      segments = λ a ne h. is.segments a ne (omega (arith, fewer a));
      placed = λ o live.
          let at = is.placed o live in
          record {
            segment = at.segment;
            above = at.above;
            below = rw keeps.entry at.below;
            not_free = free o live;
            behind = λ e. rw (keeps.entry, keeps.position, head) (at.behind (e ∙ head));
          };
    }

module _ (glib : GHashTable) where
  -- The heap is well-formed, no live entry lies in an emergency segment, and the segments have
  -- identifiers of their own.
  pub record IsCleanable (p : Heap glib) (ls : Lists) : Type 0 where
    pub heap : IsHeap glib p ls
    pub spare : (o : Offset) → Live glib p o → segment_of o ∉ ls.emergency
    pub ids : DistinctIds p.memory ls

  -- The thread's segment is a cleaner segment, and live entries in it end before the cursor.
  pub record Owns (p : Heap glib) (ls : Lists) (c : Cursor) : Type 0 where
    pub cleaner : c.cleaner_seg ∈ ls.cleaner
    pub position : c.cleaner_seg_pos ≤ segment_size - sizeof_segment
    pub written :
        (o : Offset)
        → Live glib p o
        → segment_of o ≡ c.cleaner_seg
        → end_of o (p.memory.entry o).length ≤ c.cleaner_seg + sizeof_segment + c.cleaner_seg_pos

  module _ (p : Heap glib) (m : Memory) (ls ls' : Lists) (is : IsCleanable p ls)
      (keeps : Keeps p.memory m) (fewer : (a : ℕ) → places a ls' ≤ places a ls) (log : IsLog m ls')
      (head : ls'.head ≡ ls.head)
      (free : (o : Offset) → Live glib p o → segment_of o ∉ ls'.free) where
    pub store-move : IsStore m ls' (Live glib p)
    store-move =
        IsStore-move p.memory m ls ls' keeps fewer (Live glib p) is.heap.store log head free

    pub IsCleanable-move :
        ((o : Offset) → Live glib p o → segment_of o ∉ ls'.emergency)
        → IsCleanable (record p { memory = m }) ls'
    IsCleanable-move emergency = record {
      heap =
          IsHeap-memory glib p ls is.heap m ls' store-move
            (λ o live. ap (λ (f : Offset → _). f o) keeps.entry);
      spare = emergency;
      ids = DistinctIds-move p.memory m ls ls' keeps fewer is.ids;
    }

-- What taking a segment for the cleaner does.
pub record Acquired (ls ls' : Lists) (s : Offset) : Type 0 where
  pub head : ls'.head ≡ ls.head
  pub used : ls'.used ≡ ls.used
  pub fewer : (a : ℕ) → places a ls' ≤ places a ls
  pub cleaner : s ∈ ls'.cleaner
  pub free : (a : ℕ) → a ∉ ls.free → a ∉ ls'.free
  pub emergency : (a : ℕ) → a ∉ ls.emergency → a ∉ ls'.emergency
  pub source : (s ∈ ls.free) ⊎ (s ∈ ls.emergency)

acquire-emergency :
    (ls : Lists) (es : List ℕ)
    → Distinct es
    → ls.emergency ≡ es
    → (acquire_emergency es ls).1 ≢ 0
    → Acquired ls (acquire_emergency es ls).0 (acquire_emergency es ls).1
unfolding acquire_emergency
acquire-emergency ls [] d e some_left = absurd (some_left refl)
acquire-emergency ls (s ∷ es) (out, d) e some_left = record {
  head = refl;
  used = refl;
  fewer = λ a. rw e (ground (arith, out, has-append a ls.cleaner (s ∷ []), ∉-ne a s es));
  cleaner = ground (arith, has-append s ls.cleaner (s ∷ []));
  free = λ a h. h;
  emergency = λ a. rw e (ground arith);
  source = inr (rw e (ground arith));
}

acquire-free :
    (ls : Lists) (fs : List ℕ)
    → Distinct fs
    → Distinct ls.emergency
    → ls.free ≡ fs
    → (acquire fs ls).1 ≢ 0
    → Acquired ls (acquire fs ls).0 (acquire fs ls).1
unfolding acquire
acquire-free ls [] d d' e some_left = acquire-emergency ls ls.emergency d' refl some_left
acquire-free ls (s ∷ fs) (out, d) d' e some_left = record {
  head = refl;
  used = refl;
  fewer = λ a. rw e (ground (arith, out, has-append a ls.cleaner (s ∷ []), ∉-ne a s fs));
  cleaner = ground (arith, has-append s ls.cleaner (s ∷ []));
  free = λ a. rw e (ground arith);
  emergency = λ a h. h;
  source = inl (rw e (ground arith));
}

pub acquire-Acquired :
    (m : Memory) (ls : Lists)
    → IsLog m ls
    → HasSpare ls
    → Acquired ls (acquire ls.free ls).0 (acquire ls.free ls).1
acquire-Acquired m ls is = acquire-free ls ls.free is.free.distinct is.emergency.distinct refl
