-- ===== src/Recovery/Frame.antt =====
-- project/hash_table.c, `reconstruct_hash_table` on two memories that differ in an entry which no
-- loop reads.
use log_heap_pmem.Base.{
  ℕ, ◌<◌, ◌≡◌, ◌≢◌, refl, arith, ◌∙◌, sym, true, List, [], ◌∷◌, ok, inl, inr, All, All-append,
  >>=-cong_ok, ◌∈◌, ==_ne, Bool-cases, ==_iff,
}
use native.Mathlib.Decide.{dec_lt, ℕ_discrete}
use log_heap_pmem.Types.{Offset, Memory, offset_to_pointer}
use log_heap_pmem.Types.Chain.{Chain}
use log_heap_pmem.Glib.{GHashTable}
use log_heap_pmem.Recovery.{entry_at, scan_limit, note_entry}
use log_heap_pmem.Recovery.Notes.{notes}
use log_heap_pmem.Recovery.Scan.{UsedEntries, UsedSegments, HeadEntries, entries_of, behind}

-- No entry of the segment starts at `p`.
abbrev pub Clear : Offset → Offset → ℕ → Type 0
Clear p seg limit = (q : ℕ) → q < limit → entry_at seg q ≢ p

module _ (m m' : Memory) (p : Offset) (same : (o : Offset) → o ≢ p → m'.entry o ≡ m.entry o) where
  UsedEntries-frame :
      (seg : Offset) (pos : ℕ) (offs : List Offset)
      → Clear p seg scan_limit
      → UsedEntries m seg pos offs
      → UsedEntries m' seg pos offs × All (λ o. o ≢ p) offs
  UsedEntries-frame seg pos [] clear (inl u) = (inl u, tt)
  UsedEntries-frame seg pos [] clear (inr u) = elim (dec_lt pos scan_limit) [
    | yes l ↦ (inr (rw (same (entry_at seg pos) (clear pos l)) u), tt)
    | no g ↦ (inl (omega arith), tt)
  ]
  UsedEntries-frame seg pos (off ∷ offs) clear (e, l, n, b, u) =
      let s = same (entry_at seg pos) (clear pos l) in
      let (u', a) = UsedEntries-frame seg (behind m seg pos) offs clear u in
      ((e, l, rw s n, rw s b, rw s u'), (rw e (clear pos l), a))

  pub HeadEntries-frame :
      (seg : Offset) (pos : ℕ) (offs : List Offset)
      → m'.log.head_position ≡ m.log.head_position
      → Clear p seg m.log.head_position
      → HeadEntries m seg pos offs
      → HeadEntries m' seg pos offs × All (λ o. o ≢ p) offs
  HeadEntries-frame seg pos [] at clear u = (rw at u, tt)
  HeadEntries-frame seg pos (off ∷ offs) at clear (e, l, b, u) =
      let s = same (entry_at seg pos) (clear pos l) in
      let (u', a) = HeadEntries-frame seg (behind m seg pos) offs at clear u in
      ((e, rw at l, rw s b, rw s u'), (rw e (clear pos l), a))

  pub UsedSegments-frame :
      ((a : Offset) → (m'.segment a).next_segment ≡ (m.segment a).next_segment)
      → (ptr : Offset) (segs : List (Offset × List Offset)) (xs : List ℕ) → Chain m.segment 0 ptr xs
      → ((a : Offset) → a ∈ xs → Clear p a scan_limit)
      → UsedSegments m ptr segs
      → UsedSegments m' ptr segs × All (λ o. o ≢ p) (entries_of segs)
  UsedSegments-frame next ptr [] xs chain clear u = (u, tt)
  UsedSegments-frame next ptr ((seg, offs) ∷ segs) [] chain clear (e, n, u, us) =
      absurd (n (sym e ∙ chain))
  UsedSegments-frame next ptr ((seg, offs) ∷ segs) (x ∷ xs) (e', _, chain) clear (e, n, u, us) =
      let home : x ≡ seg = sym e' ∙ e in
      let (u', a) = UsedEntries-frame seg 0 offs (clear seg (ground (arith, home))) u in
      let (us', as') =
        UsedSegments-frame next (m.segment seg).next_segment segs xs (rw (← home) chain)
          (λ b i. clear b (ground (arith, i))) us in
      ((e, n, u', rw (next seg) us'), All-append (λ o. o ≢ p) offs (entries_of segs) a as')

  module _ (glib : GHashTable) where
    open glib use {Table, lookup, contains, insert, lookup-insert, contains-insert}

    -- The table does not lead to `p`.
    abbrev pub Avoids : Table → Type 0
    Avoids t = (j : ℕ) → contains t j ≡ true → lookup t j ≢ p

    Avoids-insert : (t : Table) (k off : ℕ) → Avoids t → off ≢ p → Avoids (insert t k off)
    Avoids-insert t k off good ne j c =
        let l = lookup-insert t k off j in
        let h = contains-insert t k off j in ground (arith, good j, l, h)

    note_entry-Avoids :
        (t t' : Table) (off : Offset)
        → Avoids t
        → off ≢ p
        → note_entry glib m t off ≡ ok t'
        → Avoids t'
    unfolding note_entry offset_to_pointer
    note_entry-Avoids t t' off good ne run =
        let put = Avoids-insert t (m.entry off).id off good ne in ground (arith, good, put)

    note_entry-frame :
        (t : Table) (off : Offset)
        → Avoids t
        → off ≢ p
        → note_entry glib m' t off ≡ note_entry glib m t off
    unfolding note_entry offset_to_pointer
    note_entry-frame t off good ne = elim (Bool-cases (contains t (m.entry off).id)) [
      | inl c ↦
          let old = same (lookup t (m.entry off).id) (good (m.entry off).id c) in
          elim (ℕ_discrete (lookup t (m.entry off).id) 0) [
            | yes z ↦
                rw (same off ne, c, (==_iff (lookup t (m.entry off).id) 0).1 z, note_entry) refl
            | no n ↦
                rw
                  (
                    same off ne,
                    c,
                    ==_ne (lookup t (m.entry off).id) 0 n,
                    note_entry,
                    same off ne,
                    old,
                  )
                  refl
          ]
      | inr c ↦ rw (same off ne, c, note_entry) refl
    ]

    pub notes-frame :
        (t : Table) (offs : List Offset)
        → Avoids t
        → All (λ o. o ≢ p) offs
        → notes glib m' t offs ≡ notes glib m t offs
    unfolding notes
    notes-frame t [] good ne = refl
    notes-frame t (off ∷ offs) good (n, ne) = rw (note_entry-frame t off good n) (
        >>=-cong_ok (note_entry glib m t off)
          (λ t' run. notes-frame t' offs (note_entry-Avoids t t' off good n run) ne))
