-- ===== src/Cleaning/Marks.antt =====
-- project/cleaner.c, `test_and_set_curr_cleaned` and `unset_curr_cleaned`: the cleaner's threads
-- mark the segments in work. The first locks `curr_cleaned_mutex` while it uses the hash table of
-- the marks, the second does not. A step is the begin or the end of a use of that table, or a store
-- by anyone.
use log_heap_pmem.Base.{ℕ, ◌≡◌, ◌≢◌, true, false, Option, none, some, ◌==◌, if◌then◌else◌}
use log_heap_pmem.Types.{Offset, Memory}
use log_heap_pmem.Glib.{GHashTable}
use log_heap_pmem.Heap.{Heap}
use log_heap_pmem.Cleaning.{test_and_set_curr_cleaned, unset_curr_cleaned}

-- Where a thread is: it neither has a segment nor uses the table; it is in
-- `test_and_set_curr_cleaned` with the mutex; it cleans a segment; it is in `unset_curr_cleaned`.
pub data Phase : Type 0 where
  idle : Phase
  testing : Offset → Phase
  working : Offset → Phase
  removing : Offset → Phase

abbrev pub Phases : Type 0
Phases = ℕ → Phase

abbrev pub assign : Phases → ℕ → Phase → Phases
assign phase t s u = if t == u then s else phase u

-- The segment that a thread has claimed.
abbrev pub claimed : Phase → Option Offset
claimed idle = none
claimed (testing a) = none
claimed (working a) = some a
claimed (removing a) = some a

-- The thread uses the hash table of the marks.
abbrev pub Uses : Phase → Type 0
Uses idle = ⊥
Uses (testing a) = Unit
Uses (working a) = ⊥
Uses (removing a) = Unit

module _ (glib : GHashTable) where
  -- `mutex` is the thread that holds `curr_cleaned_mutex`.
  pub record State : Type 0 where
    pub heap : Heap glib
    pub mutex : Option ℕ
    pub phase : Phases

  pub data Step : State → State → Type 0 where
    lock :
        (s : State) (t : ℕ) (seg : Offset)
        → s.phase t ≡ idle
        → s.mutex ≡ none
        → Step s (record s { mutex = some t; phase = assign s.phase t (testing seg) })
    claim :
        (s : State) (t : ℕ) (seg : Offset)
        → s.phase t ≡ testing seg
        → (test_and_set_curr_cleaned glib s.heap seg).1 ≡ true
        → Step s (record {
          heap = (test_and_set_curr_cleaned glib s.heap seg).0;
          mutex = none;
          phase = assign s.phase t (working seg);
        })
    pass :
        (s : State) (t : ℕ) (seg : Offset)
        → s.phase t ≡ testing seg
        → (test_and_set_curr_cleaned glib s.heap seg).1 ≡ false
        → Step s (record {
          heap = (test_and_set_curr_cleaned glib s.heap seg).0;
          mutex = none;
          phase = assign s.phase t idle;
        })
    begin_remove :
        (s : State) (t : ℕ) (seg : Offset)
        → s.phase t ≡ working seg
        → Step s (record s { phase = assign s.phase t (removing seg) })
    end_remove :
        (s : State) (t : ℕ) (seg : Offset)
        → s.phase t ≡ removing seg
        → Step s
            (record s { heap = unset_curr_cleaned glib s.heap seg; phase = assign s.phase t idle })
    store :
        (s : State) (m : Memory)
        → ((a : Offset) → (m.segment a).id ≡ (s.heap.memory.segment a).id)
        → Step s (record s { heap = record s.heap { memory = m } })

  -- Two threads use the table.
  pub record Overlap (s : State) : Type 0 where
    pub one : ℕ
    pub other : ℕ
    pub distinct : one ≢ other
    pub one_uses : Uses (s.phase one)
    pub other_uses : Uses (s.phase other)

  -- A run goes on while no two threads use the table: what it holds after that is not known.
  pub data Steps : State → State → Type 0 where
    done : (s : State) → Steps s s
    more : (s r q : State) → Steps s r → (Overlap r → ⊥) → Step r q → Steps s q

  -- Nobody uses the table.
  abbrev pub at_rest : Heap glib → State
  at_rest p = record { heap = p; mutex = none; phase = λ t. idle }
