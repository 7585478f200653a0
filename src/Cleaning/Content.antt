-- ===== src/Cleaning/Content.antt =====
-- project/cleaner.c, `clean`: what a client reads while the cleaner runs.
use log_heap_pmem.Base.{
  ℕ, ◌<◌, ◌≡◌, ◌≢◌, ◌⊎◌, inl, inr, refl, arith, ◌∙◌, List, ◌∈◌, ok, ◌==◌, if◌then◌else◌, ==_iff,
  All, length, Bool-cases, ◌≤◌,
}
use log_heap_pmem.Types.{Offset, segment_of}
use log_heap_pmem.Glib.{GHashTable}
use log_heap_pmem.Log.Lists.{Lists}
use log_heap_pmem.Heap.{Heap}
use log_heap_pmem.Heap.Content.{Live, read}
use log_heap_pmem.Consistency.{segment_count}
use log_heap_pmem.Recovery.Scan.{UsedEntries}
use log_heap_pmem.Cleaning.{Cursor, clean_entries, clean_segment, unset_curr_cleaned}
use log_heap_pmem.Cleaning.Invariant.{IsCleanable, Owns, HasSpare}
use log_heap_pmem.Cleaning.Moved.{Settled}
use log_heap_pmem.Cleaning.Entries.{clean_entries-AllCleaned}
use log_heap_pmem.Cleaning.Segment.{give_back_cleaned, IsCleanable-noting, Owns-noting, read-noting}

module _ (glib : GHashTable) where
  open glib use {remove}

  module _ (p : Heap glib) (ls : Lists) (c : Cursor) (is : IsCleanable glib p ls)
      (owns : Owns glib p ls c) (seg : Offset) (on : seg ∈ ls.used) (offs : List Offset)
      (entries : UsedEntries p.memory seg 0 offs) (settled : All (Settled glib p) offs)
      (met : (o : Offset) → Live glib p o → segment_of o ≡ seg → o ∈ offs)
      (filled : (p.memory.segment seg).used_space ≡ 0
        → (o : Offset) → Live glib p o
        → segment_of o ≢ seg)
      (fuel steps : ℕ) (enough : segment_count ls < fuel) (long : length offs < steps)
      (supply : HasSpare ls ⊎ (c.cleaner_seg_pos ≡ 0)) where
    -- The first part of `clean_segment`: the segment has no live entry any more.
    emptied :
        (r : Heap glib × Cursor) × (ls' : Lists) × (((if (p.memory.segment seg).used_space == 0
              then ok (p, c)
              else clean_entries glib steps fuel p c seg 0)
            ≡ ok r)
          × IsCleanable glib r.0 ls'
          × Owns glib r.0 ls' r.1
          × (seg ∈ ls'.used)
          × (segment_count ls' ≡ segment_count ls)
          × ((o : Offset) → Live glib r.0 o → segment_of o ≢ seg)
          × ((j : ℕ) → read glib r.0 j ≡ read glib p j))
    emptied = elim (Bool-cases ((p.memory.segment seg).used_space == 0)) [
      | inl nothing ↦ (
        (p, c),
        ls,
        (
          rw nothing,
          is,
          owns,
          on,
          refl,
          filled ((==_iff (p.memory.segment seg).used_space 0).0 nothing),
          λ j. refl,
        ),
      )
      | inr something ↦
          let start : HasSpare ls ⊎ (c.cleaner_seg_pos ≤ 0) = elim supply [
            | inl spare ↦ inl spare
            | inr zero ↦ inr (omega (arith, zero))
          ] in
          let (r, ls', (run, all)) =
            clean_entries-AllCleaned glib offs steps fuel p ls c seg 0 is owns on entries settled
              long enough start in
          (
            r,
            ls',
            (
              rw something run,
              all.cleanable,
              all.owns,
              all.used seg on,
              all.count,
              λ o live here.
                  let (before, out) = all.live o live here in
                  let within = met o before here in ground (arith, out, within),
              all.same_read,
            ),
          )
    ]

    -- The heap is well-formed with segments of distinct identifiers and no live entry in an emergency
    -- segment, and the thread owns its cleaner segment. The entries of the used segment `seg` are
    -- listed, all live ones among them, and none is live at the fill level 0; each entry that is not
    -- deleted has its identifier in the table, and is older than the table's entry or the same. The
    -- fuel is above the number of segments and that of entries, and a free or emergency segment is
    -- left, or the thread's segment is empty. Then `clean_segment` returns, every id reads what it
    -- read before, the heap stays well-formed as above, the thread still owns its segment, no live
    -- entry lies in `seg`, and `seg` is a free or an emergency segment.
    pub clean_segment-read :
        (q : Heap glib) × (d : Cursor) × (next : Offset) × (ls' : Lists) × ((clean_segment glib
              steps fuel p c seg
            ≡ ok ((q, d), next))
          × ((j : ℕ) → read glib q j ≡ read glib p j)
          × IsCleanable glib q ls'
          × Owns glib q ls' d
          × ((o : Offset) → Live glib q o → segment_of o ≢ seg)
          × ((seg ∈ ls'.free) ⊎ (seg ∈ ls'.emergency)))
    unfolding clean_segment unset_curr_cleaned
    clean_segment-read =
        let ((p', d), ls', (run, is', owns', on', count, empty, same)) = emptied in
        let (m, ls2, (back, is2, owns2, given, same')) =
          give_back_cleaned glib p' ls' d is' owns' seg on' empty fuel
            (omega (arith, count, enough)) in
        let q : Heap glib = record p' { memory = m } in
        let t = remove q.currently_cleaned_segments (m.segment seg).id in
        (
          record q { currently_cleaned_segments = t },
          d,
          (p'.memory.segment seg).next_segment,
          ls2,
          (
            rw (run, back),
            λ j. read-noting glib q ls2 t j ∙ same' j ∙ same j,
            IsCleanable-noting glib q ls2 t is2,
            Owns-noting glib q ls2 t d owns2,
            empty,
            given.target,
          ),
        )
