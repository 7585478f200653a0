-- ===== src/Cleaning/Entry.antt =====
-- project/cleaner.c, `clean`: one entry of the segment that is cleaned.
pub mod Choice
use log_heap_pmem.Base.{
  ℕ, ◌+◌, ◌-◌, ◌≤◌, ◌<◌, ◌≡◌, ◌≢◌, ◌⊎◌, inl, inr, refl, arith, ap, sym, subst, ◌∙◌, ◌∈◌, has, true,
  ok,
}
use log_heap_pmem.Base.Words.{add64_small}
use log_heap_pmem.Types.{
  Offset, LogEntry, segment_size, sizeof_segment, sizeof_log_entry, segment_of,
}
use log_heap_pmem.Glib.{GHashTable}
use log_heap_pmem.Log.{log_entry_size}
use log_heap_pmem.Log.Lists.{Lists}
use log_heap_pmem.Heap.{Heap, add_to_hash_table}
use log_heap_pmem.Heap.Content.{Live, read}
use log_heap_pmem.Consistency.{segment_count}
use log_heap_pmem.Cleaning.{Cursor, move_entry}
use log_heap_pmem.Cleaning.Invariant.{IsCleanable, Owns, HasSpare}
use log_heap_pmem.Cleaning.Exchange.{make_room-Room}
use log_heap_pmem.Cleaning.Copy.{cleaner-OnCleaners, copied-other, segment_of-start}
use log_heap_pmem.Cleaning.Moved.{
  Settled, moved, behind, moved-Live, moved-IsCleanable, moved-Owns, moved-read, moved-gone,
  moved-Settled,
}

module _ (glib : GHashTable) where
  open glib use {Table, insert, lookup, contains}

  -- What a step leaves that cleans the entry at `off` of the segment `seg`.
  pub record Cleaned (p : Heap glib) (ls : Lists) (c : Cursor) (seg off : Offset)
      (r : Heap glib × Cursor) (ls' : Lists) : Type 0 where
    pub cleanable : IsCleanable glib r.0 ls'
    pub owns : Owns glib r.0 ls' r.1
    pub used : (a : ℕ) → a ∈ ls.used → a ∈ ls'.used
    pub count : segment_count ls' ≡ segment_count ls
    pub same_read : (j : ℕ) → read glib r.0 j ≡ read glib p j
    pub live : (o : Offset) → Live glib r.0 o → segment_of o ≡ seg → Live glib p o × (o ≢ off)
    pub entry : (o : Offset) → segment_of o ≡ seg → r.0.memory.entry o ≡ p.memory.entry o
    pub settled :
        (o : Offset) → o ≢ off → segment_of o ≡ seg → Settled glib p o → Settled glib r.0 o
    pub supply :
        (pos : ℕ)
        → HasSpare ls ⊎ (c.cleaner_seg_pos ≤ pos)
        → HasSpare ls' ⊎ (r.1.cleaner_seg_pos ≤ pos + log_entry_size (p.memory.entry off).length)

  module _ (p : Heap glib) (ls : Lists) (c : Cursor) (is : IsCleanable glib p ls)
      (owns : Owns glib p ls c) (seg : Offset) (on : seg ∈ ls.used) (off : Offset)
      (home : segment_of off ≡ seg) where
    pub skip-Cleaned : ¬ Live glib p off → Cleaned p ls c seg off (p, c) ls
    skip-Cleaned gone = record {
      cleanable = is;
      owns = owns;
      used = λ a i. i;
      count = refl;
      same_read = λ j. refl;
      live = λ o live _. (live, λ e. gone (subst (Live glib p) e live));
      entry = λ o _. refl;
      settled = λ o _ _ s. s;
      supply = λ pos. elim [ inl spare ↦ inl spare | inr le ↦ inr (omega (arith, le)) ];
    }

    module _ (present : contains p.hash_table (p.memory.entry off).id ≡ true)
        (current : lookup p.hash_table (p.memory.entry off).id ≡ off) where
      live : Live glib p off
      live = ((p.memory.entry off).id, present, current)

      abbrev size : ℕ
      size = sizeof_log_entry + (p.memory.entry off).length

      size-small : size ≤ segment_size - sizeof_segment
      size-small = let at = is.heap.store.placed off live in omega (arith, at.above, at.below)

      size_lem : log_entry_size (p.memory.entry off).length ≡ size
      unfolding log_entry_size
      size_lem =
          add64_small sizeof_log_entry (p.memory.entry off).length (omega (arith, size-small))

      pub move_entry-Cleaned :
          (fuel : ℕ)
          → segment_count ls < fuel
          → HasSpare ls ⊎ (c.cleaner_seg_pos + size ≤ segment_size - sizeof_segment)
          → (r : Heap glib × Cursor) × (ls' : Lists) × ((move_entry glib fuel p c off ≡ ok r)
              × Cleaned p ls c seg off r ls')
      unfolding move_entry add_to_hash_table
      move_entry-Cleaned fuel enough supply =
          let ((m, c'), ls', (run, room)) =
            make_room-Room glib p ls c is owns size size-small fuel enough supply in
          let p' : Heap glib = record p { memory = m } in
          let same : m.entry ≡ p.memory.entry = room.entry in
          let e = ap (λ (f : Offset → LogEntry). f off) same in
          let present' : contains p.hash_table (m.entry off).id ≡ true = rw same present in
          let current' : lookup p.hash_table (m.entry off).id ≡ off = rw same current in
          let fits : c'.cleaner_seg_pos + (sizeof_log_entry + (m.entry off).length)
              ≤ segment_size - sizeof_segment =
            rw same room.fits in
          let q = moved glib p' ls' c' room.cleanable room.owns off present' current' fits in
          let d = behind glib p' ls' c' room.cleanable room.owns off present' current' fits in
          let on' =
            cleaner-OnCleaners m ls' c'.cleaner_seg room.cleanable.heap.store.log
              room.owns.cleaner in
          let away : (o : Offset) → segment_of o ≡ seg → segment_of o ≢ c'.cleaner_seg =
            λ o here same.
              let there = room.used seg on in
              let out = on'.not_used in
              ground (arith, ap (λ (a : ℕ). has a ls'.used) (sym here ∙ same), there, out) in
          (
            (q, d),
            ls',
            (
              rw (size_lem, run, e, add64_small c'.cleaner_seg_pos size (omega (arith, room.fits))),
              record {
                cleanable =
                    moved-IsCleanable glib p' ls' c' room.cleanable room.owns off present' current'
                      fits;
                owns =
                    moved-Owns glib p' ls' c' room.cleanable room.owns off present' current' fits;
                used = room.used;
                count = room.count;
                same_read = λ j.
                    moved-read glib p' ls' c' room.cleanable room.owns off present' current' fits j
                    ∙ room.same_read j;
                live = λ o alive here.
                    elim (moved-Live glib p' ls' c' room.cleanable room.owns off present' current'
                      fits o alive) [
                        | inl old ↦ (
                          old,
                          λ z.
                              moved-gone glib p' ls' c' room.cleanable room.owns off present'
                                current' fits (away off home) (subst (Live glib q) z alive),
                        )
                        | inr new ↦ absurd (
                            away o here (
                              ap segment_of new
                              ∙ segment_of-start glib p' ls' c' room.cleanable room.owns off fits))
                      ];
                entry = λ o here.
                    copied-other glib p' ls' c' room.cleanable room.owns off fits o (away o here)
                    ∙ ap (λ (f : Offset → LogEntry). f o) same;
                settled = λ o ne here s.
                    moved-Settled glib p' ls' c' room.cleanable room.owns off present' current' fits
                      o ne (away o here) (rw same s);
                supply = λ pos have.
                    let length = ap (λ (x : LogEntry). x.length) e in
                    elim room.spent [
                      | inl (kept, stays) ↦ elim have [
                        | inl spare ↦ inl (subst HasSpare (sym kept) spare)
                        | inr le ↦ inr (
                            omega (
                              arith,
                              le,
                              length,
                              size_lem,
                              ap (λ (d : Cursor). d.cleaner_seg_pos) stays,
                            ))
                      ]
                      | inr start ↦ inr (omega (arith, start, length, size_lem))
                    ];
              },
            ),
          )
