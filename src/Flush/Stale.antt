-- ===== src/Flush/Stale.antt =====
-- project/log.c, `append_head_to_used_segments_and_get_new_head_segment`: a crash before the head
-- position is set back, and `reconstruct_hash_table` after it.
use log_heap_pmem.Base.{
  ℕ, ◌<◌, ◌≡◌, arith, true, false, List, [], ◌∷◌, ◌++◌, ok, All, length, has, has-append, inl, inr,
  Bool-cases, Bool,
}
use log_heap_pmem.Types.{Offset, Memory}
use log_heap_pmem.Glib.{GHashTable}
use log_heap_pmem.Log.{retire_head}
use log_heap_pmem.Recovery.{reconstruct_hash_table, entry_at}
use log_heap_pmem.Recovery.Freed.{some_newest}
use log_heap_pmem.Recovery.Notes.{entry_of}
use log_heap_pmem.Recovery.Newest.{IsVersion, IsNewest}
use log_heap_pmem.Recovery.Scan.{UsedSegments, HeadSegment, entries_of}
use log_heap_pmem.Recovery.Rebuild.{reconstruct-IsNewest}
use log_heap_pmem.Flush.{switch_head, cut_head, reset_position}

-- The two memories that the theorem compares: before and after the flush of the head position.
abbrev pub unreset : Memory → Memory
unreset m = cut_head (switch_head m)

unreset-entry : (m : Memory) → (unreset m).entry ≡ m.entry
unfolding cut_head switch_head retire_head
unreset-entry m = ground arith

unreset-position : (m : Memory) → (unreset m).log.head_position ≡ m.log.head_position
unfolding cut_head switch_head retire_head
unreset-position m = ground arith

unreset-head : (m : Memory) → (unreset m).log.head_segment ≡ m.log.free.first
unfolding cut_head switch_head retire_head
unreset-head m = ground arith

module _ (glib : GHashTable) where
  open glib use {Table, new, contains, lookup}

  none_newest :
      (m : Memory) (id : ℕ) (t : Table) (among : Offset → Bool)
      → IsNewest m id among (entry_of glib t id)
      → ((o : Offset) → among o ≡ true → IsVersion m id o → ⊥)
      → contains t id ≡ false
  unfolding entry_of IsNewest
  none_newest m id t among h out = elim (Bool-cases (contains t id)) [
    | inl present ↦ let best = rw present at h in absurd (out (lookup t id) best.0 best.1)
    | inr absent ↦ absent
  ]

  first-among :
      (m : Memory) (segs : List (Offset × List Offset)) (head : List Offset)
      → HeadSegment m head
      → 0 < m.log.head_position
      → has (entry_at m.log.head_segment 0) (entries_of segs ++ head) ≡ true
  first-among m segs [] h pos = absurd (omega (arith, h.1))
  first-among m segs (off ∷ offs) h pos =
      let e = h.1.0 in
      ground (arith, e, has-append (entry_at m.log.head_segment 0) (entries_of segs) (off ∷ offs))

  module _ (fuel steps : ℕ) (m : Memory) (id : ℕ) (segs : List (Offset × List Offset))
      (head : List Offset) (version : IsVersion m id (entry_at m.log.free.first 0))
      (pos : 0 < m.log.head_position)
      (gone : (o : Offset) → has o (entries_of segs) ≡ true → IsVersion m id o → ⊥)
      (used : UsedSegments (unreset m) (unreset m).log.used.first segs)
      (at_head : HeadSegment (unreset m) head) (idle : (unreset m).log.cleaner.first ≡ 0)
      (short : All (λ s. length s.1 < steps) segs) (short_head : length head < steps)
      (few : length segs < fuel) where
    stale_found :
        (t : Table) × (reconstruct_hash_table glib fuel steps (unreset m) new ≡ ok t)
        × (contains t id ≡ true)
    stale_found =
        let (t, run, best) =
          reconstruct-IsNewest glib fuel steps (unreset m) segs head used at_head idle short
            short_head few in
        let first = first-among (unreset m) segs head at_head (rw (unreset-position m) pos) in
        let there : IsVersion (unreset m) id (entry_at (unreset m).log.head_segment 0) =
          rw (unreset-head m, unreset-entry m) version in
        (
          t,
          run,
          some_newest glib (unreset m) id t (λ j. has j (entries_of segs ++ head))
              (entry_at (unreset m).log.head_segment 0) (best id) first there,
        )

    reset_clean :
        (t : Table) × (reconstruct_hash_table glib fuel steps (reset_position (unreset m)) new
          ≡ ok t)
        × (contains t id ≡ false)
    unfolding reset_position
    reset_clean =
        let m' = reset_position (unreset m) in
        let (t, run, best) =
          reconstruct-IsNewest glib fuel steps m' segs [] used (at_head.0, omega arith) idle short
            (omega arith) few in
        (
          t,
          run,
          none_newest m' id t (λ j. has j (entries_of segs ++ [])) (best id)
              (λ o among v.
                gone o (ground (arith, has-append o (entries_of segs) [], among))
                  (rw (← unreset-entry m) v)),
        )

    -- The head segment, which has entries, is exchanged for a free one whose first entry is a version
    -- of an object that is not marked deleted, and the used segments have no such version of the
    -- object. With no cleaner segment on its list and fuel as in `reconstruct-IsNewest`: after a
    -- crash before the flush of `log->head_position = 0` the entries of the new head segment up
    -- to the old position are read, and the table has the object; after the flush it has not.
    pub append_head-stale :
        ((t : Table) × (reconstruct_hash_table glib fuel steps (unreset m) new ≡ ok t)
          × (contains t id ≡ true))
        × ((t : Table) × (reconstruct_hash_table glib fuel steps (reset_position (unreset m)) new
              ≡ ok t)
            × (contains t id ≡ false))
    append_head-stale = (stale_found, reset_clean)
