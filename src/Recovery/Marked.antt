-- ===== src/Recovery/Marked.antt =====
-- project/hash_table.c, `reconstruct_hash_table` on two memories that differ in the deletion mark of
-- an entry.
use log_heap_pmem.Base.{
  ℕ, ◌≡◌, ◌≢◌, refl, arith, ap, sym, ◌∙◌, Bool, Option, none, some, List, [], ◌∷◌, ◌==◌, ◌&&◌, not,
  inl, inr, ==_ne,
}
use log_heap_pmem.Types.{Offset, Memory}
use log_heap_pmem.Recovery.{entry_at}
use log_heap_pmem.Recovery.Newest.{IsVersion, IsNewest}
use log_heap_pmem.Recovery.Scan.{UsedEntries, UsedSegments, HeadEntries, behind}

-- Where the entries lie depends on their lengths only.
module _ (m m' : Memory) (same : (o : Offset) → (m'.entry o).length ≡ (m.entry o).length) where
  UsedEntries-lengths :
      (seg : Offset) (pos : ℕ) (offs : List Offset)
      → UsedEntries m seg pos offs
      → UsedEntries m' seg pos offs
  UsedEntries-lengths seg pos [] (inl u) = inl u
  UsedEntries-lengths seg pos [] (inr u) = inr (same (entry_at seg pos) ∙ u)
  UsedEntries-lengths seg pos (off ∷ offs) (e, l, n, b, u) =
      let s = same (entry_at seg pos) in
      let rest = UsedEntries-lengths seg (behind m seg pos) offs u in
      (e, l, rw s n, rw s b, rw s rest)

  pub UsedSegments-lengths :
      ((a : Offset) → (m'.segment a).next_segment ≡ (m.segment a).next_segment)
      → (p : Offset) (segs : List (Offset × List Offset)) → UsedSegments m p segs
      → UsedSegments m' p segs
  UsedSegments-lengths next p [] u = u
  UsedSegments-lengths next p ((seg, offs) ∷ segs) (e, n, u, us) = (
    e,
    n,
    UsedEntries-lengths seg 0 offs u,
    rw (next seg) (UsedSegments-lengths next (m.segment seg).next_segment segs us),
  )

  pub HeadEntries-lengths :
      (seg : Offset) (pos : ℕ) (offs : List Offset)
      → m'.log.head_position ≡ m.log.head_position
      → HeadEntries m seg pos offs
      → HeadEntries m' seg pos offs
  HeadEntries-lengths seg pos [] at u = rw at u
  HeadEntries-lengths seg pos (off ∷ offs) at (e, l, b, u) =
      let s = same (entry_at seg pos) in
      let rest = HeadEntries-lengths seg (behind m seg pos) offs at u in
      (e, rw at l, rw s b, rw s rest)

-- The marks of `among` without the one of `off`.
abbrev pub without : Offset → (Offset → Bool) → Offset → Bool
without off among o = among o && not (o == off)

-- After an entry was marked as deleted a newest version is one of the others.
module _ (m m' : Memory) (off : Offset) (same : (o : Offset) → o ≢ off → m'.entry o ≡ m.entry o)
    (deleted : (m'.entry off).to_delete ≡ 1) where
  not_deleted : (id : ℕ) (o : Offset) → IsVersion m' id o → o ≢ off
  not_deleted id o v e =
      let d = ap (λ (a : Offset). (m'.entry a).to_delete) e in omega (arith, d, deleted, v.0)

  before_mark : (id : ℕ) (o : Offset) → o ≢ off → IsVersion m' id o → IsVersion m id o
  before_mark id o ne v = let s = sym (same o ne) in rw s v

  after_mark : (id : ℕ) (o : Offset) → o ≢ off → IsVersion m id o → IsVersion m' id o
  after_mark id o ne v = let s = same o ne in rw s v

  pub IsNewest-marked :
      (id : ℕ) (among : Offset → Bool) (best : Option Offset)
      → IsNewest m' id among best
      → IsNewest m id (without off among) best
  unfolding IsNewest
  IsNewest-marked id among none h = λ o a v.
      let ne : o ≢ off = ground (arith, a) in h o (ground (arith, a)) (after_mark id o ne v)
  IsNewest-marked id among (some best) (a, v, h) =
      let ne = not_deleted id best v in
      (
        rw (a, ==_ne best off ne) refl,
        before_mark id best ne v,
        λ o b w.
            let ne' : o ≢ off = ground (arith, b) in
            let le = h o (ground (arith, b)) (after_mark id o ne' w) in
            rw (← same o ne', ← same best ne) le,
      )
