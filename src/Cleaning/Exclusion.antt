-- ===== src/Cleaning/Exclusion.antt =====
-- project/cleaner.c, `test_and_set_curr_cleaned` and `unset_curr_cleaned`: what the marks of the
-- segments keep apart.
use log_heap_pmem.Base.{
  ℕ, ◌≡◌, ◌≢◌, refl, arith, ap, sym, ◌∙◌, true, false, none, some, ==_ne, ==_iff, inl, inr, ◌⊎◌,
}
use native.Mathlib.Decide.{ℕ_discrete}
use log_heap_pmem.Types.{Offset}
use log_heap_pmem.Glib.{GHashTable}
use log_heap_pmem.Heap.{Heap}
use log_heap_pmem.Cleaning.{test_and_set_curr_cleaned, unset_curr_cleaned}
use log_heap_pmem.Cleaning.Marks.{
  Phase, idle, testing, working, removing, Phases, assign, claimed, State, Step, lock, claim, pass,
  begin_remove, end_remove, store, Steps, done, more, at_rest,
}

module _ (glib : GHashTable) where
  open glib use {new, contains, insert, remove, contains-new, contains-insert, contains-remove}

  -- A claimed segment is marked, no two threads have claimed segments of one identifier, and who tests
  -- holds the mutex.
  pub record Exclusive (s : State glib) : Type 0 where
    pub marked :
        (t : ℕ) (a : Offset)
        → claimed (s.phase t) ≡ some a
        → contains s.heap.currently_cleaned_segments (s.heap.memory.segment a).id ≡ true
    pub apart :
        (t u : ℕ) (a b : Offset)
        → t ≢ u
        → claimed (s.phase t) ≡ some a
        → claimed (s.phase u) ≡ some b
        → (s.heap.memory.segment a).id ≢ (s.heap.memory.segment b).id
    pub locked : (t : ℕ) (a : Offset) → s.phase t ≡ testing a → s.mutex ≡ some t

  unmarked :
      (p : Heap glib) (seg : Offset)
      → (test_and_set_curr_cleaned glib p seg).1 ≡ true
      → contains p.currently_cleaned_segments (p.memory.segment seg).id ≡ false
  unfolding test_and_set_curr_cleaned
  unmarked p seg h = ground (arith, h)

  -- What holds of a thread's phase after one thread's has changed.
  changed {ℓ} :
      {X : Type ℓ} (f : Phase → X) (phase : Phases) (t u : ℕ) (s : Phase) (x : X)
      → f (assign phase t s u) ≡ x
      → ((t ≡ u) × (f s ≡ x)) ⊎ ((t ≢ u) × (f (phase u) ≡ x))
  changed f phase t u s x h = elim (ℕ_discrete t u) [
    | yes same ↦ inl (same, sym (ap f (rw ((==_iff t u).1 same) refl)) ∙ h)
    | no other ↦ inr (other, sym (ap f (rw (==_ne t u other) refl)) ∙ h)
  ]

  -- The thread that tests a segment is the only one.
  tests_alone :
      (s : State glib)
      → Exclusive s
      → (t u : ℕ) (a b : Offset) → s.phase t ≡ testing a
      → s.phase u ≡ testing b
      → t ≡ u
  tests_alone s is t u a b ht hu =
      let e : some t ≡ some u = sym (is.locked t a ht) ∙ is.locked u b hu in ground (arith, e)

  -- A thread's phase changes to one in which it does not test; `s` is not testing.
  module _ (s : State glib) (is : Exclusive s) (t : ℕ) where
    -- After the mutex was given back no thread tests.
    unlocked :
        (seg : Offset) (x : Phase)
        → s.phase t ≡ testing seg
        → ((a : Offset) → x ≢ testing a)
        → (u : ℕ) (a : Offset) → assign s.phase t x u ≢ testing a
    unlocked seg x test other u a h = elim (changed (λ y. y) s.phase t u x (testing a) h) [
      | inl (_, e) ↦ other a e
      | inr (ne, old) ↦ ne (tests_alone s is t u seg a test old)
    ]

    -- A change that claims nothing new.
    claims_fewer :
        (x : Phase)
        → ((a : Offset) → claimed x ≡ some a → claimed (s.phase t) ≡ some a)
        → (u : ℕ) (a : Offset) → claimed (assign s.phase t x u) ≡ some a
        → claimed (s.phase u) ≡ some a
    claims_fewer x same u a h = elim (changed claimed s.phase t u x (some a) h) [
      | inl (e, c) ↦ rw (← e) (same a c)
      | inr (_, old) ↦ old
    ]

  lock-Exclusive :
      (s : State glib) (t : ℕ) (seg : Offset)
      → s.phase t ≡ idle
      → s.mutex ≡ none
      → Exclusive s
      → Exclusive (record s { mutex = some t; phase = assign s.phase t (testing seg) })
  lock-Exclusive s t seg none_yet free is =
      let fewer = claims_fewer s is t (testing seg) (λ a e. ground (arith, e)) in
      record {
        marked = λ u a h. is.marked u a (fewer u a h);
        apart = λ u v a b ne hu hv. is.apart u v a b ne (fewer u a hu) (fewer v b hv);
        locked = λ u a h. elim (changed (λ y. y) s.phase t u (testing seg) (testing a) h) [
          | inl (e, _) ↦ ap (λ (i : ℕ). some i) e
          | inr (_, old) ↦
              let held : none ≡ some u = sym free ∙ is.locked u a old in ground (arith, held)
        ];
      }

  claim-Exclusive :
      (s : State glib) (t : ℕ) (seg : Offset)
      → s.phase t ≡ testing seg
      → (test_and_set_curr_cleaned glib s.heap seg).1 ≡ true
      → Exclusive s
      → Exclusive (record {
        heap = (test_and_set_curr_cleaned glib s.heap seg).0;
        mutex = none;
        phase = assign s.phase t (working seg);
      })
  unfolding test_and_set_curr_cleaned
  claim-Exclusive s t seg test won is =
      let marks = s.heap.currently_cleaned_segments in
      let id = λ (a : Offset). (s.heap.memory.segment a).id in
      let free = unmarked s.heap seg won in
      let given = changed claimed s.phase t in
      let own : (a : Offset) → claimed (working seg) ≡ some a → id seg ≡ id a =
        λ a e. ap id (ground (arith, e)) in
      let clash : (u : ℕ) (b : Offset) → claimed (s.phase u) ≡ some b → id seg ≢ id b =
        λ u b h e. ground (arith, ap (contains marks) e, free, is.marked u b h) in
      rw free (record {
        marked = λ u a h. elim (given u (working seg) (some a) h) [
          | inl (_, e) ↦ ground (arith, contains-insert marks (id seg) (id seg) (id a), own a e)
          | inr (_, old) ↦
              ground (arith, contains-insert marks (id seg) (id seg) (id a), is.marked u a old)
        ];
        apart = λ u v a b ne hu hv. elim (given u (working seg) (some a) hu) [
          | inl (tu, ea) ↦ elim (given v (working seg) (some b) hv) [
            | inl (tv, _) ↦ absurd (ne (sym tu ∙ tv))
            | inr (_, old) ↦ λ e. clash v b old (own a ea ∙ e)
          ]
          | inr (_, old) ↦ elim (given v (working seg) (some b) hv) [
            | inl (_, eb) ↦ λ e. clash u a old (own b eb ∙ sym e)
            | inr (_, old') ↦ is.apart u v a b ne old old'
          ]
        ];
        locked = λ u a h.
            absurd (unlocked s is t seg (working seg) test (λ b e. ground (arith, e)) u a h);
      })

  pass-Exclusive :
      (s : State glib) (t : ℕ) (seg : Offset)
      → s.phase t ≡ testing seg
      → (test_and_set_curr_cleaned glib s.heap seg).1 ≡ false
      → Exclusive s
      → Exclusive (record {
        heap = (test_and_set_curr_cleaned glib s.heap seg).0;
        mutex = none;
        phase = assign s.phase t idle;
      })
  unfolding test_and_set_curr_cleaned
  pass-Exclusive s t seg test lost is =
      let full : contains s.heap.currently_cleaned_segments (s.heap.memory.segment seg).id ≡ true =
        ground (arith, lost) in
      let fewer = claims_fewer s is t idle (λ a e. ground (arith, e)) in
      rw full (record {
        marked = λ u a h. is.marked u a (fewer u a h);
        apart = λ u v a b ne hu hv. is.apart u v a b ne (fewer u a hu) (fewer v b hv);
        locked = λ u a h. absurd (unlocked s is t seg idle test (λ b e. ground (arith, e)) u a h);
      })

  begin_remove-Exclusive :
      (s : State glib) (t : ℕ) (seg : Offset)
      → s.phase t ≡ working seg
      → Exclusive s
      → Exclusive (record s { phase = assign s.phase t (removing seg) })
  begin_remove-Exclusive s t seg own is =
      let fewer = claims_fewer s is t (removing seg) (λ a e. rw own e) in
      record {
        marked = λ u a h. is.marked u a (fewer u a h);
        apart = λ u v a b ne hu hv. is.apart u v a b ne (fewer u a hu) (fewer v b hv);
        locked = λ u a h. elim (changed (λ y. y) s.phase t u (removing seg) (testing a) h) [
          | inl (_, e) ↦ ground (arith, e)
          | inr (_, old) ↦ is.locked u a old
        ];
      }

  end_remove-Exclusive :
      (s : State glib) (t : ℕ) (seg : Offset)
      → s.phase t ≡ removing seg
      → Exclusive s
      → Exclusive
          (record s { heap = unset_curr_cleaned glib s.heap seg; phase = assign s.phase t idle })
  unfolding unset_curr_cleaned
  end_remove-Exclusive s t seg own is =
      let marks = s.heap.currently_cleaned_segments in
      let id = λ (a : Offset). (s.heap.memory.segment a).id in
      let mine : claimed (s.phase t) ≡ some seg = rw own refl in
      let given = changed claimed s.phase t in
      let fewer = claims_fewer s is t idle (λ a e. ground (arith, e)) in
      record {
        marked = λ u a h. elim (given u idle (some a) h) [
          | inl (_, e) ↦ ground (arith, e)
          | inr (ne, old) ↦
              let other = is.apart t u seg a ne mine old in
              ground (arith, contains-remove marks (id seg) (id a), other, is.marked u a old)
        ];
        apart = λ u v a b ne hu hv. is.apart u v a b ne (fewer u a hu) (fewer v b hv);
        locked = λ u a h. elim (changed (λ y. y) s.phase t u idle (testing a) h) [
          | inl (_, e) ↦ ground (arith, e)
          | inr (_, old) ↦ is.locked u a old
        ];
      }

  Step-Exclusive : {s r : State glib} → Step glib s r → Exclusive s → Exclusive r
  Step-Exclusive (lock s t seg rest free) is = lock-Exclusive s t seg rest free is
  Step-Exclusive (claim s t seg test won) is = claim-Exclusive s t seg test won is
  Step-Exclusive (pass s t seg test lost) is = pass-Exclusive s t seg test lost is
  Step-Exclusive (begin_remove s t seg own) is = begin_remove-Exclusive s t seg own is
  Step-Exclusive (end_remove s t seg own) is = end_remove-Exclusive s t seg own is
  Step-Exclusive (store s m same) is = record {
    marked = λ t a h. rw (same a) (is.marked t a h);
    apart = λ t u a b ne ht hu. rw (same a, same b) (is.apart t u a b ne ht hu);
    locked = is.locked;
  }

  Steps-Exclusive : {s r : State glib} → Steps glib s r → Exclusive s → Exclusive r
  Steps-Exclusive (done s) is = is
  Steps-Exclusive (more s r q before alone last) is =
      Step-Exclusive last (Steps-Exclusive before is)

  -- From a heap with no marks, the mutex free and every thread idle, any number of threads take
  -- steps in any order, with stores to memory between them that keep the segments' identifiers, up
  -- to the first state in which two threads use the hash table of the marks at once. In every state
  -- that is reached, that one included, a segment that a thread has claimed is marked, no two
  -- threads have claimed segments of the same identifier, and a thread in
  -- `test_and_set_curr_cleaned` holds the mutex.
  pub Steps-apart :
      (p : Heap glib) (r : State glib)
      → p.currently_cleaned_segments ≡ new
      → Steps glib (at_rest glib p) r
      → Exclusive r
  Steps-apart p r empty steps = Steps-Exclusive steps (record {
    marked = λ t a h. ground (arith, h);
    apart = λ t u a b ne h. ground (arith, h);
    locked = λ t a h. ground (arith, h);
  })
