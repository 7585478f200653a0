-- ===== src/Cleaning/Moved.antt =====
-- project/cleaner.c, `clean`: the heap after one entry was copied and the table points to the copy.
use log_heap_pmem.Base.{
  ℕ, ◌+◌, ◌-◌, ◌≤◌, ◌<◌, ◌≡◌, ◌≢◌, ◌⊎◌, inl, inr, refl, arith, ap, sym, subst, ◌∙◌, ◌∉◌, true, some,
  ◌==◌, Bool-cases, ==_iff,
}
use native.Mathlib.Decide.{ℕ_discrete}
use log_heap_pmem.Types.{
  Offset, LogEntry, segment_size, sizeof_segment, sizeof_log_entry, segment_of,
}
use log_heap_pmem.Glib.{GHashTable}
use log_heap_pmem.Log.Lists.{Lists}
use log_heap_pmem.Store.{Stored}
use log_heap_pmem.Heap.{Heap}
use log_heap_pmem.Heap.Content.{IsEntry, Live, read, read_lem}
use log_heap_pmem.Heap.Stored.{
  IsFor, stored-IsHeap, stored-read, stored-Live, lookup_other, lookup_self, contains_other,
  contains_self,
}
use log_heap_pmem.Cleaning.{Cursor}
use log_heap_pmem.Cleaning.Invariant.{IsCleanable, Owns}
use log_heap_pmem.Cleaning.Copy.{
  start, copied, own_segment, segment_of-start, copied-same, copied-other, copied-ids,
  copied-Stored,
}

module _ (glib : GHashTable) where
  open glib use {Table, insert, lookup, contains}

  -- An entry that is not deleted has an identifier of the table, and is older than the table's entry
  -- or the same.
  abbrev pub Settled : Heap glib → Offset → Type 0
  Settled p o =
      (p.memory.entry o).to_delete ≡ 0
      → (contains p.hash_table (p.memory.entry o).id ≡ true)
        × ((p.memory.entry (lookup p.hash_table (p.memory.entry o).id)).version
              ≤ (p.memory.entry o).version
            → lookup p.hash_table (p.memory.entry o).id ≡ o)

  module _ (p : Heap glib) (ls : Lists) (c : Cursor) (is : IsCleanable glib p ls)
      (owns : Owns glib p ls c) (off : Offset)
      (present : contains p.hash_table (p.memory.entry off).id ≡ true)
      (current : lookup p.hash_table (p.memory.entry off).id ≡ off)
      (fits : c.cleaner_seg_pos + (sizeof_log_entry + (p.memory.entry off).length)
        ≤ segment_size - sizeof_segment) where
    abbrev e : LogEntry
    e = p.memory.entry off

    abbrev to : Offset
    to = start glib p ls c is owns off fits

    abbrev pub moved : Heap glib
    moved = record p {
      memory = copied glib p ls c is owns off fits;
      hash_table = insert p.hash_table e.id to;
    }

    abbrev pub behind : Cursor
    behind = record c { cleaner_seg_pos = c.cleaner_seg_pos + (sizeof_log_entry + e.length) }

    current-IsEntry : IsEntry glib p e.id
    current-IsEntry = is.heap.entries e.id present

    fit : IsFor e.id e
    fit = record {
      own = refl;
      nonempty =
          subst (λ (o : Offset). 0 < (p.memory.entry o).length) current current-IsEntry.nonempty;
      kept = subst (λ (o : Offset). (p.memory.entry o).to_delete ≡ 0) current current-IsEntry.kept;
      small = omega (arith, fits);
    }

    st : Stored p.memory (Live glib p) e moved.memory to ls
    st = copied-Stored glib p ls c is owns off fits

    pub moved-Live : (o : Offset) → Live glib moved o → Live glib p o ⊎ (o ≡ to)
    moved-Live = stored-Live glib p ls is.heap e.id e fit moved.memory to ls st

    pub moved-IsCleanable : IsCleanable glib moved ls
    moved-IsCleanable =
        let home = segment_of-start glib p ls c is owns off fits in
        record {
          heap = stored-IsHeap glib p ls is.heap e.id e fit moved.memory to ls st;
          spare = λ o live. elim (moved-Live o live) [
            | inl old ↦ is.spare o old
            | inr new ↦
                subst (λ (a : Offset). a ∉ ls.emergency) (sym (ap segment_of new ∙ home))
                  (own_segment glib p ls c is owns off fits).not_emergency
          ];
          ids = λ a b na nb ha hb same. is.ids a b na nb ha hb (
              sym (copied-ids glib p ls c is owns off fits a)
              ∙ same
              ∙ copied-ids glib p ls c is owns off fits b);
        }

    pub moved-Owns : Owns glib moved ls behind
    moved-Owns = record {
      cleaner = owns.cleaner;
      position = fits;
      written = λ o live same. elim (moved-Live o live) [
        | inl old ↦
            rw (copied-same glib p ls c is owns off fits o old)
              (omega (arith, owns.written o old same))
        | inr new ↦ rw (new, st.at) (omega arith)
      ];
    }

    pub moved-read : (j : ℕ) → read glib moved j ≡ read glib p j
    moved-read j =
        stored-read glib p ls is.heap e.id e fit moved.memory to ls st j
        ∙ elim (Bool-cases (e.id == j)) [
          | inl same ↦
              let name = (==_iff e.id j).0 same in
              rw same (
                subst (λ (i : ℕ). some e.bytes ≡ read glib p i) name
                  (sym (read_lem glib p ls e.id is.heap ∙ rw (present, current))))
          | inr other ↦ rw other
        ]

    -- The entry is no longer the table's.
    pub moved-gone : segment_of off ≢ c.cleaner_seg → ¬ Live glib moved off
    moved-gone away (i, h, at) = elim (ℕ_discrete e.id i) [
      | yes own ↦
          let there = subst (λ (k : ℕ). lookup moved.hash_table k ≡ off) (sym own) at in
          away (
            ap segment_of (sym there ∙ lookup_self glib p ls is.heap e.id e fit to)
            ∙ segment_of-start glib p ls c is owns off fits)
      | no other ↦
          let old = sym (lookup_other glib p ls is.heap e.id e fit to i other) ∙ at in
          let there = sym (contains_other glib p ls is.heap e.id e fit to i other) ∙ h in
          let own = (is.heap.entries i there).own in
          other (subst (λ (o : Offset). (p.memory.entry o).id ≡ i) old own)
    ]

    pub moved-Settled :
        (o : Offset) → o ≢ off → segment_of o ≢ c.cleaner_seg → Settled p o → Settled moved o
    moved-Settled o ne away settled kept =
        let same = copied-other glib p ls c is owns off fits o away in
        let (there, newer) = settled (rw⁻¹ same kept) in
        let id = (p.memory.entry o).id in
        rw same (elim (ℕ_discrete e.id id) [
          | yes own ↦ (
            subst (λ (k : ℕ). contains moved.hash_table k ≡ true) own
                (contains_self glib p ls is.heap e.id e fit moved.memory to ls st),
            λ le.
                let here =
                  subst (λ (k : ℕ). lookup moved.hash_table k ≡ to) own
                    (lookup_self glib p ls is.heap e.id e fit to) in
                let eq = ap (λ (a : Offset). moved.memory.entry a) here ∙ st.at in
                let le' = subst (λ (x : LogEntry). x.version ≤ (p.memory.entry o).version) eq le in
                let there' = subst (λ (k : ℕ). lookup p.hash_table k ≡ off) own current in
                let le'' : (p.memory.entry (lookup p.hash_table id)).version
                    ≤ (p.memory.entry o).version =
                  rw there' le' in
                absurd (ne (sym (newer le'') ∙ there')),
          )
          | no other ↦ (
            contains_other glib p ls is.heap e.id e fit to id other ∙ there,
            λ le.
                let kept = lookup_other glib p ls is.heap e.id e fit to id other in
                let eq =
                  ap (λ (a : Offset). moved.memory.entry a) kept
                  ∙ copied-same glib p ls c is owns off fits (lookup p.hash_table id)
                      (id, there, refl) in
                kept
                ∙ newer (subst (λ (x : LogEntry). x.version ≤ (p.memory.entry o).version) eq le),
          )
        ])
