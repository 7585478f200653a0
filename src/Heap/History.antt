-- ===== src/Heap/History.antt =====
-- A client's calls of `palloc_with_id`, `update_data` and `pfree` (project/log_pmem.c), one after the
-- other, against a map from identifiers to bytes.
use log_heap_pmem.Base.{
  ℕ, ◌≤◌, ◌≡◌, ◌≢◌, inl, inr, refl, arith, ap, sym, ◌∙◌, true, List, [], ◌∷◌, ◌==◌, if◌then◌else◌,
  All, Bool-cases, take,
}
use native.Mathlib.Decide.{ℕ_discrete}
use log_heap_pmem.Glib.{GHashTable}
use log_heap_pmem.Log.Lists.{Lists}
use log_heap_pmem.Heap.{Heap, update_data, palloc_with_id, pfree}
use log_heap_pmem.Heap.Alloc.{max_size}
use log_heap_pmem.Heap.Content.{Content, put, delete, read, IsHeap}
use log_heap_pmem.Heap.Free.{pfree-content}
use log_heap_pmem.Heap.Flag.{update_data-consistent, palloc_with_id-consistent, pfree-consistent}
use log_heap_pmem.Heap.Update.{
  Updated, full, done, update_data_rejected, update_data-Updated, palloc_with_id-Updated,
}

pub data Call : Type 0 where
  set : ℕ → ℕ → List ℕ → Call
  update : ℕ → ℕ → List ℕ → Call
  free : ℕ → Call

-- What a call with its result does to the map: a call that reports a failure does nothing.
unfoldable pub effect : Call → ℕ → Content → Content
effect (set id size bytes) r c = if r == 0 then put c id (take size bytes) else c
effect (update id size bytes) r c = if r == 0 then put c id (take size bytes) else c
effect (free id) r c = delete c id

unfoldable pub effects : List Call → List ℕ → Content → Content
effects (call ∷ calls) (r ∷ rs) c = effects calls rs (effect call r c)
effects _ _ c = c

abbrev pub Fits : Call → Type 0
Fits (set id size bytes) = size ≤ max_size
Fits (update id size bytes) = size ≤ max_size
Fits (free id) = Unit

module _ (glib : GHashTable) where
  open glib use {Table, contains}

  unfoldable pub perform : Heap glib → Call → Heap glib × ℕ
  perform p (set id size bytes) = palloc_with_id glib p true id size bytes
  perform p (update id size bytes) = update_data glib p true id bytes size
  perform p (free id) = (pfree glib p id, 0)

  unfoldable pub perform_all : Heap glib → List Call → Heap glib × List ℕ
  perform_all p [] = (p, [])
  perform_all p (call ∷ calls) =
      let (p, r) = perform p call in let (p, rs) = perform_all p calls in (p, r ∷ rs)

  -- One call in a sound heap.
  pub record Step (p : Heap glib) (call : Call) (r : Heap glib × ℕ) : Type 0 where
    pub lists : Lists
    pub sound : IsHeap glib r.0 lists
    pub content : (j : ℕ) → read glib r.0 j ≡ effect call r.1 (read glib p) j

  module _ (p : Heap glib) (ls : Lists) (is : IsHeap glib p ls) (ready : p.consistent ≢ 0) where
    unchanged :
        (call : Call) → ((c : Content) (j : ℕ) → effect call 1 c j ≡ c j) → Step p call (p, 1)
    unchanged call same = record {
      lists = ls;
      sound = is;
      content = λ j. sym (same (read glib p) j);
    }

    Updated-Step :
        (call : Call) (id : ℕ) (bytes : List ℕ)
        → ((r : ℕ) (c : Content) → effect call r c ≡ (if r == 0 then put c id bytes else c))
        → (r : Heap glib × ℕ) → Updated glib p ls id bytes r
        → Step p call r
    Updated-Step call id bytes eff r (full ls' empty is' reads) = record {
      lists = ls';
      sound = is';
      content = λ j. reads j ∙ sym (ap (λ (c : Content). c j) (eff 1 (read glib p)));
    }
    Updated-Step call id bytes eff r (done ls' is' reads) = record {
      lists = ls';
      sound = is';
      content = λ j. reads j ∙ sym (ap (λ (c : Content). c j) (eff 0 (read glib p)));
    }

    update-Step :
        (id size : ℕ) (bytes : List ℕ)
        → size ≤ max_size
        → Step p (update id size bytes) (update_data glib p true id bytes size)
    unfolding effect
    update-Step id size bytes small = elim (ℕ_discrete size 0) [
      | yes z ↦
          rw (update_data_rejected glib p true id bytes size (inr (inl z)))
            (unchanged (update id size bytes) (λ c j. refl))
      | no pos ↦ elim (Bool-cases (contains p.hash_table id)) [
        | inr absent ↦
            rw (update_data_rejected glib p true id bytes size (inr (inr (inr absent))))
              (unchanged (update id size bytes) (λ c j. refl))
        | inl present ↦
            Updated-Step (update id size bytes) id (take size bytes) (λ r c. refl)
              (update_data glib p true id bytes size)
              (update_data-Updated glib p ls is id bytes size ready (omega arith) small present)
      ]
    ]

    palloc_with_id-empty :
        (id : ℕ) (bytes : List ℕ) → palloc_with_id glib p true id 0 bytes ≡ (p, 1)
    unfolding palloc_with_id
    palloc_with_id-empty id bytes = ground arith

    set-Step :
        (id size : ℕ) (bytes : List ℕ)
        → size ≤ max_size
        → Step p (set id size bytes) (palloc_with_id glib p true id size bytes)
    unfolding effect
    set-Step id size bytes small = elim (ℕ_discrete size 0) [
      | yes z ↦ rw (z, palloc_with_id-empty id bytes) (unchanged (set id 0 bytes) (λ c j. refl))
      | no pos ↦
          Updated-Step (set id size bytes) id (take size bytes) (λ r c. refl)
            (palloc_with_id glib p true id size bytes)
            (palloc_with_id-Updated glib p ls is id bytes size ready (omega arith) small)
    ]

    pub perform-Step : (call : Call) → Fits call → Step p call (perform p call)
    unfolding perform effect
    perform-Step (set id size bytes) small = set-Step id size bytes small
    perform-Step (update id size bytes) small = update-Step id size bytes small
    perform-Step (free id) _ =
        let (is', reads) = pfree-content glib p ls is id in
        record { lists = ls; sound = is'; content = reads }

  pub perform-consistent :
      (p : Heap glib) (call : Call) → (perform p call).0.consistent ≡ p.consistent
  unfolding perform
  perform-consistent p (set id size bytes) = palloc_with_id-consistent glib p id size bytes
  perform-consistent p (update id size bytes) = update_data-consistent glib p id size bytes
  perform-consistent p (free id) = pfree-consistent glib p id

  effect-cong :
      (call : Call) (r : ℕ) (c d : Content)
      → ((j : ℕ) → c j ≡ d j)
      → (j : ℕ) → effect call r c j ≡ effect call r d j
  unfolding effect
  effect-cong (set id size bytes) r c d same j = ground (arith, same j)
  effect-cong (update id size bytes) r c d same j = ground (arith, same j)
  effect-cong (free id) r c d same j = ground (arith, same j)

  pub effects-cong :
      (calls : List Call) (rs : List ℕ) (c d : Content)
      → ((j : ℕ) → c j ≡ d j)
      → (j : ℕ) → effects calls rs c j ≡ effects calls rs d j
  unfolding effects
  effects-cong [] rs c d same = same
  effects-cong (call ∷ calls) [] c d same = same
  effects-cong (call ∷ calls) (r ∷ rs) c d same =
      effects-cong calls rs (effect call r c) (effect call r d) (effect-cong call r c d same)

  -- Any sequence of calls of `palloc_with_id`, `update_data` and `pfree` with sizes of at most
  -- 4040, on a sound and consistent heap and with every `malloc` succeeding, leaves a sound heap.
  -- Each identifier has the data that the calls that reported success give it, in their order,
  -- and those that reported failure change nothing.
  pub perform_all-effects :
      (calls : List Call) (p : Heap glib) (ls : Lists)
      → IsHeap glib p ls
      → p.consistent ≢ 0
      → All Fits calls
      → (ls' : Lists) × IsHeap glib (perform_all p calls).0 ls'
        × ((j : ℕ)
            → read glib (perform_all p calls).0 j
              ≡ effects calls (perform_all p calls).1 (read glib p) j)
  unfolding perform_all effects
  perform_all-effects [] p ls is ready fits = (ls, is, λ j. refl)
  perform_all-effects (call ∷ calls) p ls is ready (fit, fits) =
      let step = perform-Step p ls is ready call fit in
      let next = (perform p call).0 in
      let (ls', is', reads) =
        perform_all-effects calls next step.lists step.sound
          (λ z. ready (sym (perform-consistent p call) ∙ z)) fits in
      (
        ls',
        is',
        λ j.
            reads j
            ∙ effects-cong calls (perform_all next calls).1 (read glib next)
                (effect call (perform p call).1 (read glib p)) step.content j,
      )
