-- ===== src/Heap/Flagged.antt =====
-- A heap that is read through another table with the same entries, from a memory that differs only in
-- the flag `regular_termination` (project/log_pmem_types.h).
use log_heap_pmem.Base.{ℕ, ◌≡◌, sym, subst, ◌∙◌, arith}
use log_heap_pmem.Types.{Offset, Memory}
use log_heap_pmem.Glib.{GHashTable}
use log_heap_pmem.Log.Lists.{Lists, IsLog}
use log_heap_pmem.Store.{IsStore, IsPlaced}
use log_heap_pmem.Store.Segments.{IsStore-narrow}
use log_heap_pmem.Heap.{Heap}
use log_heap_pmem.Heap.Content.{read, read_lem, Live, IsHeap}
use log_heap_pmem.Recovery.Notes.{entry_of}

-- `log->regular_termination = b`
abbrev pub set_regular_termination : Memory → ℕ → Memory
set_regular_termination m b = record m { log = record m.log { regular_termination = b } }

module _ (m : Memory) (ls : Lists) (b : ℕ) where
  pub IsLog-flag : IsLog m ls → IsLog (set_regular_termination m b) ls
  IsLog-flag is = record {
    free = is.free;
    used = is.used;
    cleaner = is.cleaner;
    emergency = is.emergency;
    head = is.head;
    head_next = is.head_next;
    apart = is.apart;
  }

  IsPlaced-flag : (o : Offset) → IsPlaced m ls o → IsPlaced (set_regular_termination m b) ls o
  IsPlaced-flag o is = record {
    segment = is.segment;
    above = is.above;
    below = is.below;
    not_free = is.not_free;
    behind = is.behind;
  }

  pub IsStore-flag :
      (Live : Offset → Type 0) → IsStore m ls Live → IsStore (set_regular_termination m b) ls Live
  IsStore-flag Live is = record {
    log = IsLog-flag is.log;
    position = is.position;
    segments = is.segments;
    placed = λ o live. IsPlaced-flag o (is.placed o live);
  }

module _ (glib : GHashTable) where
  open glib use {Table, contains, lookup, lookup_of_absent}

  pub entry_of-contains :
      (t t' : Table) (j : ℕ) → entry_of glib t' j ≡ entry_of glib t j → contains t' j ≡ contains t j
  unfolding entry_of
  entry_of-contains t t' j e = ground arith

  pub entry_of-lookup :
      (t t' : Table) (j : ℕ) → entry_of glib t' j ≡ entry_of glib t j → lookup t' j ≡ lookup t j
  unfolding entry_of
  entry_of-lookup t t' j e = ground (arith, lookup_of_absent t j, lookup_of_absent t' j)

  module _ (p q : Heap glib) (ls : Lists) (b : ℕ) (is : IsHeap glib p ls)
      (memory : q.memory ≡ set_regular_termination p.memory b)
      (same : (j : ℕ) → entry_of glib q.hash_table j ≡ entry_of glib p.hash_table j) where
    same_contains : (j : ℕ) → contains q.hash_table j ≡ contains p.hash_table j
    same_contains j = entry_of-contains p.hash_table q.hash_table j (same j)

    same_lookup : (j : ℕ) → lookup q.hash_table j ≡ lookup p.hash_table j
    same_lookup j = entry_of-lookup p.hash_table q.hash_table j (same j)

    same-Live : (o : Offset) → Live glib q o → Live glib p o
    same-Live o (i, h, e) = (i, sym (same_contains i) ∙ h, sym (same_lookup i) ∙ e)

    pub IsHeap-flag : IsHeap glib q ls
    IsHeap-flag = record {
      store =
          subst (λ m. IsStore m ls (Live glib q)) (sym memory)
            (IsStore-flag p.memory ls b (Live glib q)
              (IsStore-narrow p.memory ls (Live glib p) (Live glib q) same-Live is.store));
      entries = λ i h.
          let at = is.entries i (sym (same_contains i) ∙ h) in
          record {
            nonzero = rw (same_lookup i) at.nonzero;
            own = rw (same_lookup i, memory) at.own;
            nonempty = rw (same_lookup i, memory) at.nonempty;
            kept = rw (same_lookup i, memory) at.kept;
          };
      separate = λ i j ne hi hj.
          rw (same_lookup i, same_lookup j, memory)
            (is.separate i j ne (sym (same_contains i) ∙ hi) (sym (same_contains j) ∙ hj));
    }

    pub read-flag : (j : ℕ) → read glib q j ≡ read glib p j
    read-flag j =
        read_lem glib q ls j IsHeap-flag
        ∙ (rw (same_contains j, same_lookup j, memory) (sym (read_lem glib p ls j is)))
