-- ===== src/Recovery/Diverges.antt =====
-- project/hash_table.c, `reconstruct_hash_table` with a cleaner segment on its list.
use log_heap_pmem.Base.{ℕ, zero, suc, ◌≡◌, ◌≢◌, ok, ◌>>=◌, sym, ◌∙◌, ==_ne, >>=-eq-ok}
use log_heap_pmem.Types.{Offset, Memory, offset_to_pointer}
use log_heap_pmem.Glib.{GHashTable}
use log_heap_pmem.Recovery.{
  scan_segments, scan_head_segment, scan_cleaner, scan_cleaners, reconstruct_hash_table,
}

module _ (glib : GHashTable) where
  open glib use {Table}

  cleaners-suc :
      (fuel steps : ℕ) (m : Memory) (p : Offset) (t : Table)
      → p ≢ 0
      → scan_cleaners glib (suc fuel) steps m p t
        ≡ (scan_cleaner glib steps m p 0 0 t >>= λ t. scan_cleaners glib fuel steps m p t)
  unfolding scan_cleaners offset_to_pointer
  cleaners-suc fuel steps m p t ne = rw (==_ne p 0 ne, scan_cleaners)

  cleaners-ne-ok :
      (fuel steps : ℕ) (m : Memory) (p : Offset) (t r : Table)
      → p ≢ 0
      → scan_cleaners glib fuel steps m p t ≢ ok r
  unfolding scan_cleaners
  cleaners-ne-ok zero steps m p t r ne e = cc
  cleaners-ne-ok (suc fuel) steps m p t r ne e =
      let (t', _, rest) =
        >>=-eq-ok (scan_cleaner glib steps m p 0 0 t) (λ t. scan_cleaners glib fuel steps m p t)
          (sym (cleaners-suc fuel steps m p t ne) ∙ e) in
      cleaners-ne-ok fuel steps m p t' r ne rest

  -- Whatever fuel is given, the run of `reconstruct_hash_table` over a log that has a cleaner
  -- segment on its list returns no table.
  pub reconstruct-ne-ok :
      (fuel steps : ℕ) (m : Memory) (t r : Table)
      → m.log.cleaner.first ≢ 0
      → reconstruct_hash_table glib fuel steps m t ≢ ok r
  unfolding reconstruct_hash_table
  reconstruct-ne-ok fuel steps m t r ne e =
      let (t1, _, e1) = >>=-eq-ok (scan_segments glib fuel steps m m.log.used.first t) _ e in
      let (t2, _, e2) = >>=-eq-ok (scan_head_segment glib steps m t1) _ e1 in
      cleaners-ne-ok fuel steps m m.log.cleaner.first t2 r ne e2
