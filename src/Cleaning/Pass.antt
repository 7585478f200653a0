-- ===== src/Cleaning/Pass.antt =====
-- project/cleaner.c, `clean`: a time through the used segments that finds nothing to clean.
use log_heap_pmem.Base.{
  ℕ, zero, suc, ◌<◌, ◌≤◌, ◌/◌, ◌≡◌, ◌≢◌, ◌⊎◌, le→ltb, inl, inr, refl, arith, ◌∙◌, true, List, ◌>>=◌,
  [], ◌∷◌, ok, ==_ne, All, length, Bool-cases,
}
use log_heap_pmem.Types.{Offset, segment_size, offset_to_pointer}
use log_heap_pmem.Types.Chain.{Chain}
use log_heap_pmem.Glib.{GHashTable}
use log_heap_pmem.Log.Lists.{Lists, IsLog}
use log_heap_pmem.Heap.{Heap}
use log_heap_pmem.Cleaner.{to_clean}
use log_heap_pmem.Cleaning.{Cursor, test_and_set_curr_cleaned, clean_segments, clean_rounds}

module _ (glib : GHashTable) (p : Heap glib) where
  open glib use {contains, insert}

  -- The segment is at least half full, or another thread cleans it.
  abbrev pub Left : Offset → Type 0
  Left a =
      (segment_size / 2 ≤ (p.memory.segment a).used_space)
      ⊎ (contains p.currently_cleaned_segments (p.memory.segment a).id ≡ true)

  clean_segments-skips :
      (rounds steps fuel : ℕ) (c : Cursor) (a : Offset)
      → a ≢ 0
      → Left a
      → clean_segments glib (suc rounds) steps fuel p c a
        ≡ clean_segments glib rounds steps fuel p c (p.memory.segment a).next_segment
  unfolding clean_segments test_and_set_curr_cleaned offset_to_pointer to_clean
  clean_segments-skips rounds steps fuel c a ne (inl full) =
      rw (
        ==_ne a 0 ne,
        le→ltb (p.memory.segment a).used_space (segment_size / 2) full,
        clean_segments,
      )
  clean_segments-skips rounds steps fuel c a ne (inr marked) =
      elim (Bool-cases (to_clean (p.memory.segment a))) [
        | inl sparse ↦ rw (==_ne a 0 ne, sparse, marked, clean_segments)
        | inr full ↦ rw (==_ne a 0 ne, full, clean_segments)
      ]

  clean_segments-end :
      (rounds steps fuel : ℕ) (c : Cursor)
      → clean_segments glib (suc rounds) steps fuel p c 0 ≡ ok (p, c)
  unfolding clean_segments offset_to_pointer
  clean_segments-end rounds steps fuel c = refl

  clean_segments-Chain :
      (rounds steps fuel : ℕ) (c : Cursor) (a : Offset) (xs : List ℕ)
      → Chain p.memory.segment 0 a xs
      → All Left xs
      → length xs < rounds
      → clean_segments glib rounds steps fuel p c a ≡ ok (p, c)
  clean_segments-Chain zero steps fuel c a xs chain left enough = absurd (omega (arith, enough))
  clean_segments-Chain (suc rounds) steps fuel c a [] chain left enough =
      rw chain (clean_segments-end rounds steps fuel c)
  clean_segments-Chain (suc rounds) steps fuel c a (x ∷ xs) (e, ne, chain) (l, left) enough = rw e (
      clean_segments-skips rounds steps fuel c x ne l
      ∙ clean_segments-Chain rounds steps fuel c (p.memory.segment x).next_segment xs chain left
          (omega (arith, enough)))

  -- On a memory that holds the log's lists, where each used segment is at least half full or marked by
  -- another thread, with fuel above the number of used segments, any number of times through the used
  -- segments ends and changes neither the heap nor where the thread writes.
  pub clean_rounds_idle :
      (rounds steps fuel : ℕ) (c : Cursor) (ls : Lists)
      → IsLog p.memory ls
      → All Left ls.used
      → length ls.used < fuel
      → clean_rounds glib rounds steps fuel p c ≡ ok (p, c)
  unfolding clean_rounds
  clean_rounds_idle zero steps fuel c ls is left enough = refl
  clean_rounds_idle (suc rounds) steps fuel c ls is left enough =
      rw
        (clean_segments-Chain fuel steps fuel c p.memory.log.used.first ls.used is.used.chain left
          enough)
        (clean_rounds_idle rounds steps fuel c ls is left enough)

  -- The heap with the segment marked by this thread.
  abbrev pub marked : Offset → Heap glib
  marked a =
      let id = (p.memory.segment a).id in
      record p { currently_cleaned_segments = insert p.currently_cleaned_segments id id }
