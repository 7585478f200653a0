-- ===== src/Cleaning/Entry/Choice.antt =====
-- project/cleaner.c, `clean`: whether an entry of the segment that is cleaned is copied.
use log_heap_pmem.Base.{
  ℕ, ◌+◌, ◌-◌, ◌≤◌, ◌<◌, ◌≡◌, ◌≢◌, ◌⊎◌, inl, inr, arith, ap, sym, subst, ◌∙◌, ◌∈◌, true, false, ok,
  ◌==◌, leb, Bool-cases, ==_iff, ==_ne,
}
use native.Mathlib.Decide.{ℕ_discrete}
use log_heap_pmem.Types.{
  Offset, segment_size, sizeof_segment, sizeof_log_entry, segment_of, offset_to_pointer,
}
use log_heap_pmem.Glib.{GHashTable}
use log_heap_pmem.Log.Lists.{Lists}
use log_heap_pmem.Heap.{Heap, get_from_hash_table}
use log_heap_pmem.Heap.Content.{Live}
use log_heap_pmem.Consistency.{segment_count}
use log_heap_pmem.Recovery.{entry_at}
use log_heap_pmem.Cleaning.{Cursor, move_entry, clean_entry}
use log_heap_pmem.Cleaning.Entry.{Cleaned, skip-Cleaned, move_entry-Cleaned}
use log_heap_pmem.Cleaning.Invariant.{IsCleanable, Owns, HasSpare}
use log_heap_pmem.Cleaning.Moved.{Settled}

leb_refl : (a : ℕ) → leb a a ≡ true
leb_refl a = ground arith

leb→le : (a b : ℕ) → leb a b ≡ true → a ≤ b
leb→le a b h = ground arith

module _ (glib : GHashTable) where
  open glib use {Table, insert, lookup, contains}

  module _ (p : Heap glib) (ls : Lists) (c : Cursor) (is : IsCleanable glib p ls)
      (owns : Owns glib p ls c) (seg : Offset) (on : seg ∈ ls.used) (off : Offset)
      (home : segment_of off ≡ seg) where
    module _ (present : contains p.hash_table (p.memory.entry off).id ≡ true)
        (current : lookup p.hash_table (p.memory.entry off).id ≡ off) where
      clean_entry-moves :
          (fuel : ℕ)
          → (p.memory.entry off).to_delete ≡ 0
          → clean_entry glib fuel p c off ≡ move_entry glib fuel p c off
      unfolding clean_entry get_from_hash_table offset_to_pointer
      clean_entry-moves fuel kept =
          let nonzero = is.heap.entries (p.memory.entry off).id present in
          let there : off ≢ 0 = subst (λ (o : Offset). o ≢ 0) current nonzero.nonzero in
          rw (kept, current, ==_ne off 0 there, leb_refl (p.memory.entry off).version)

    -- Whether the table points to the entry.
    Live-decided :
        (((p.memory.entry off).to_delete ≡ 0)
          × (contains p.hash_table (p.memory.entry off).id ≡ true)
          × (lookup p.hash_table (p.memory.entry off).id ≡ off))
        ⊎ (¬ Live glib p off)
    Live-decided =
        let e = p.memory.entry off in
        let own : (i : ℕ)
            → contains p.hash_table i ≡ true
            → lookup p.hash_table i ≡ off
            → (e.id ≡ i) × (e.to_delete ≡ 0) =
          λ i h at. (
            subst (λ (o : Offset). (p.memory.entry o).id ≡ i) at (is.heap.entries i h).own,
            subst (λ (o : Offset). (p.memory.entry o).to_delete ≡ 0) at (is.heap.entries i h).kept,
          ) in
        elim (Bool-cases (contains p.hash_table e.id)) [
          | inl present ↦ elim (ℕ_discrete (lookup p.hash_table e.id) off) [
            | yes current ↦ inl ((own e.id present current).1, present, current)
            | no other ↦ inr (λ (i, h, at).
                let name = (own i h at).0 in
                other (subst (λ (k : ℕ). lookup p.hash_table k ≡ off) (sym name) at))
          ]
          | inr absent ↦ inr (λ (i, h, at).
              let name = (own i h at).0 in
              ground (arith, ap (contains p.hash_table) name, h, absent))
        ]

    -- An entry that is not the table's stays behind.
    clean_entry-skips :
        (fuel : ℕ)
        → Settled glib p off
        → ¬ Live glib p off
        → clean_entry glib fuel p c off ≡ ok (p, c)
    unfolding clean_entry get_from_hash_table offset_to_pointer
    clean_entry-skips fuel settled gone =
        let e = p.memory.entry off in
        elim (Bool-cases (e.to_delete == 0)) [
          | inl kept ↦
              let (present, newer) = settled ((==_iff e.to_delete 0).0 kept) in
              let old = lookup p.hash_table e.id in
              let nonzero = (is.heap.entries e.id present).nonzero in
              let older : leb (p.memory.entry old).version e.version ≡ false =
                elim (Bool-cases (leb (p.memory.entry old).version e.version)) [
                  | inl le ↦ absurd (gone (e.id, present, newer (leb→le _ e.version le)))
                  | inr gt ↦ gt
                ] in
              rw (kept, ==_ne old 0 nonzero, older)
          | inr deleted ↦ rw deleted
        ]

    -- `clean` at an entry: it is copied exactly if the table points to it.
    pub clean_entry-Cleaned :
        (fuel pos : ℕ)
        → off ≡ entry_at seg pos
        → Settled glib p off
        → segment_count ls < fuel
        → HasSpare ls ⊎ (c.cleaner_seg_pos ≤ pos)
        → (r : Heap glib × Cursor) × (ls' : Lists) × ((clean_entry glib fuel p c off ≡ ok r)
            × Cleaned glib p ls c seg off r ls')
    clean_entry-Cleaned fuel pos at settled enough supply =
        let e = p.memory.entry off in
        elim (Live-decided) [
          | inl (kept, present, current) ↦
              let place = is.heap.store.placed off (e.id, present, current) in
              let room : HasSpare ls
                  ⊎ (c.cleaner_seg_pos + (sizeof_log_entry + e.length)
                      ≤ segment_size - sizeof_segment) =
                elim supply [
                  | inl spare ↦ inl spare
                  | inr le ↦ inr (omega (arith, le, place.below, home, at))
                ] in
              let (r, ls', (run, cleaned)) =
                move_entry-Cleaned glib p ls c is owns seg on off home present current fuel enough
                  room in
              (r, ls', (clean_entry-moves present current fuel kept ∙ run, cleaned))
          | inr gone ↦ (
            (p, c),
            ls,
            (
              clean_entry-skips fuel settled gone,
              skip-Cleaned glib p ls c is owns seg on off home gone,
            ),
          )
        ]
