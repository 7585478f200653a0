-- ===== src/Recovery/Fill.antt =====
-- project/hash_table.c, `reconstruct_hash_table`: the loops do not read the fill levels, but for those of
-- the cleaner segments.
use log_heap_pmem.Base.{
  ℕ, zero, suc, ◌≡◌, refl, ap, ok, Run, ◌>>=◌, >>=-cong, ==_ne, ◌==◌, if◌then◌else◌, ltb,
}
use native.Mathlib.Decide.{ℕ_discrete}
use mathlib.Core.Path.{fun_ext}
use log_heap_pmem.Base.Words.{add64, as_int}
use log_heap_pmem.Log.{log_entry_size}
use log_heap_pmem.Types.{Offset, Memory, Segments, offset_to_pointer}
use log_heap_pmem.Glib.{GHashTable}
use log_heap_pmem.Recovery.{
  entry_at, scan_limit, note_entry, scan_used, scan_segments, scan_head, scan_head_segment,
  scan_cleaners, reconstruct_hash_table,
}

module _ (glib : GHashTable) (m : Memory) (segs : Segments)
    (next : (a : Offset) → (segs a).next_segment ≡ (m.segment a).next_segment) where
  open glib use {Table}

  abbrev refilled : Memory
  refilled = record m { segment = segs }

  scan_used-fill :
      (steps : ℕ) (seg : Offset) (pos : ℕ) (t : Table)
      → scan_used glib steps refilled seg pos t ≡ scan_used glib steps m seg pos t
  unfolding scan_used note_entry
  scan_used-fill zero seg pos t = refl
  scan_used-fill (suc steps) seg pos t =
      let off = entry_at seg pos in
      let length = (m.entry off).length in
      let rest : (λ (t : Table).
        scan_used glib steps refilled seg (as_int (add64 pos (log_entry_size length))) t)
          ≡ (λ (t : Table).
              scan_used glib steps m seg (as_int (add64 pos (log_entry_size length))) t) =
        fun_ext (λ t'. scan_used-fill steps seg (as_int (add64 pos (log_entry_size length))) t') in
      ap
        (λ (k : Table → Run Table).
          if ltb pos scan_limit
          then if length == 0 then ok t else (note_entry glib m t off >>= k)
          else ok t)
        rest

  scan_segments-fill :
      (fuel steps : ℕ) (p : Offset) (t : Table)
      → scan_segments glib fuel steps refilled p t ≡ scan_segments glib fuel steps m p t
  unfolding scan_segments offset_to_pointer
  scan_segments-fill zero steps p t = refl
  scan_segments-fill (suc fuel) steps p t = elim (ℕ_discrete p 0) [
    | yes z ↦ rw (z, scan_segments) refl
    | no ne ↦
        rw (==_ne p 0 ne, scan_segments, scan_used-fill steps p 0 t, next p)
          (>>=-cong (scan_used glib steps m p 0 t)
            (λ t'. scan_segments-fill fuel steps (m.segment p).next_segment t'))
  ]

  scan_head-fill :
      (steps : ℕ) (seg : Offset) (pos : ℕ) (t : Table)
      → scan_head glib steps refilled seg pos t ≡ scan_head glib steps m seg pos t
  unfolding scan_head note_entry
  scan_head-fill zero seg pos t = refl
  scan_head-fill (suc steps) seg pos t =
      let off = entry_at seg pos in
      let after = as_int (add64 pos (log_entry_size (m.entry off).length)) in
      let rest : (λ (t : Table). scan_head glib steps refilled seg after t)
          ≡ (λ (t : Table). scan_head glib steps m seg after t) =
        fun_ext (λ t'. scan_head-fill steps seg after t') in
      ap
        (λ (k : Table → Run Table).
          if ltb pos m.log.head_position then (note_entry glib m t off >>= k) else ok t)
        rest

  scan_head_segment-fill :
      (steps : ℕ) (t : Table)
      → scan_head_segment glib steps refilled t ≡ scan_head_segment glib steps m t
  unfolding scan_head_segment offset_to_pointer
  scan_head_segment-fill steps t = elim (ℕ_discrete m.log.head_segment 0) [
    | yes z ↦ rw (z, scan_head_segment) refl
    | no ne ↦
        rw (==_ne m.log.head_segment 0 ne, scan_head_segment)
          (scan_head-fill steps m.log.head_segment 0 t)
  ]

  scan_cleaners-fill :
      (fuel steps : ℕ) (t : Table)
      → m.log.cleaner.first ≡ 0
      → scan_cleaners glib fuel steps refilled m.log.cleaner.first t
        ≡ scan_cleaners glib fuel steps m m.log.cleaner.first t
  unfolding scan_cleaners offset_to_pointer
  scan_cleaners-fill zero steps t idle = refl
  scan_cleaners-fill (suc fuel) steps t idle = rw (idle, scan_cleaners) refl

  pub reconstruct-fill :
      (fuel steps : ℕ) (t : Table)
      → m.log.cleaner.first ≡ 0
      → reconstruct_hash_table glib fuel steps refilled t
        ≡ reconstruct_hash_table glib fuel steps m t
  unfolding reconstruct_hash_table
  reconstruct-fill fuel steps t idle = rw (scan_segments-fill fuel steps m.log.used.first t) (
      >>=-cong (scan_segments glib fuel steps m m.log.used.first t) (λ t1.
        rw (scan_head_segment-fill steps t1) (
          >>=-cong (scan_head_segment glib steps m t1)
            (λ t2. scan_cleaners-fill fuel steps t2 idle))))
