-- ===== src/Cleaning/Entries.antt =====
-- project/cleaner.c, `clean`: the loop over the entries of the segment that is cleaned.
use log_heap_pmem.Base.{
  ℕ, zero, suc, ◌+◌, ◌≤◌, ◌<◌, ◌≡◌, ◌≢◌, ◌⊎◌, inl, inr, refl, arith, ap, subst, ◌∙◌, List, [], ◌∷◌,
  ◌∈◌, ◌∉◌, has, ok, ==_ne, All, length, ltb, lt→ltb, le→ltb, Bool-cases, ltb→lt, ltb_false→le,
}
use log_heap_pmem.Types.{Offset, Memory, sizeof_segment, segment_of}
use log_heap_pmem.Glib.{GHashTable}
use log_heap_pmem.Log.{log_entry_size}
use log_heap_pmem.Log.Lists.{Lists}
use log_heap_pmem.Store.{IsSegment}
use log_heap_pmem.Store.Segments.{segment_of_inside}
use log_heap_pmem.Heap.{Heap}
use log_heap_pmem.Heap.Content.{Live, read}
use log_heap_pmem.Consistency.{segment_count}
use log_heap_pmem.Recovery.{entry_at, scan_limit}
use log_heap_pmem.Recovery.Scan.{UsedEntries, behind, next_position}
use log_heap_pmem.Cleaning.{Cursor, clean_entry, clean_entries}
use log_heap_pmem.Cleaning.Invariant.{IsCleanable, Owns, HasSpare}
use log_heap_pmem.Cleaning.Moved.{Settled}
use log_heap_pmem.Cleaning.Entry.Choice.{clean_entry-Cleaned}

All-zip {ℓ κ ρ μ} :
    {A : Type ℓ} (P : A → Type κ) (Q : A → Type ρ) (R : A → Type μ) (xs : List A)
    → ((a : A) → P a → Q a → R a)
    → All P xs
    → All Q xs
    → All R xs
All-zip P Q R [] f ps qs = tt
All-zip P Q R (x ∷ xs) f (p, ps) (q, qs) = (f x p q, All-zip P Q R xs f ps qs)

module _ (m : Memory) (seg : Offset) (at : IsSegment seg) where
  pub segment_of_entry : (pos : ℕ) → pos < scan_limit → segment_of (entry_at seg pos) ≡ seg
  segment_of_entry pos lt =
      ap segment_of (omega arith)
      ∙ segment_of_inside seg (sizeof_segment + pos) at (omega (arith, lt))

  -- The entries lie in the segment, from the position on.
  UsedEntries-from :
      (pos : ℕ) (offs : List Offset)
      → UsedEntries m seg pos offs
      → All (λ o. (entry_at seg pos ≤ o) × (segment_of o ≡ seg)) offs
  UsedEntries-from pos [] u = tt
  UsedEntries-from pos (off ∷ offs) (e, lt, ne, fits, u) = (
    (omega (arith, e), ap segment_of e ∙ segment_of_entry pos lt),
    All-zip _ _ (λ (o : Offset). (entry_at seg pos ≤ o) × (segment_of o ≡ seg)) offs
        (λ o (above, home) _. (omega (arith, above), home))
        (UsedEntries-from (behind m seg pos) offs u) (UsedEntries-from (behind m seg pos) offs u),
  )

  -- An entry whose size wraps to 0 would be met again and again.
  UsedEntries-end :
      (pos : ℕ) (offs : List Offset)
      → pos < scan_limit
      → (m.entry (entry_at seg pos)).length ≢ 0
      → log_entry_size (m.entry (entry_at seg pos)).length ≡ 0
      → UsedEntries m seg pos offs
      → ⊥
  UsedEntries-end pos [] lt ne z (inl end) = absurd (omega (arith, lt, end))
  UsedEntries-end pos [] lt ne z (inr empty) = ne empty
  UsedEntries-end pos (off ∷ offs) lt ne z (e, _, _, fits, u) =
      let stays : behind m seg pos ≡ pos = omega (arith, z) in
      UsedEntries-end pos offs lt ne z (subst (λ n. UsedEntries m seg n offs) stays u)

  -- Entries that stay as they are still lie there.
  UsedEntries-keep :
      (m' : Memory) (pos : ℕ) (offs : List Offset)
      → ((o : Offset) → segment_of o ≡ seg → m'.entry o ≡ m.entry o)
      → UsedEntries m seg pos offs
      → UsedEntries m' seg pos offs
  UsedEntries-keep m' pos [] same (inl end) = inl end
  UsedEntries-keep m' pos [] same (inr empty) = elim (Bool-cases (ltb pos scan_limit)) [
    | inl inside ↦
        let home = segment_of_entry pos (ltb→lt pos scan_limit inside) in
        inr (rw (same (entry_at seg pos) home) empty)
    | inr outside ↦ inl (ltb_false→le pos scan_limit outside)
  ]
  UsedEntries-keep m' pos (off ∷ offs) same (e, lt, ne, fits, u) =
      let eq = same (entry_at seg pos) (segment_of_entry pos lt) in
      let rest = UsedEntries-keep m' (behind m seg pos) offs same u in
      (e, lt, rw eq ne, rw eq fits, rw eq rest)

module _ (glib : GHashTable) where
  -- What the loop leaves when it has met these entries of the segment.
  pub record AllCleaned (p : Heap glib) (ls : Lists) (seg : Offset) (offs : List Offset)
      (r : Heap glib × Cursor) (ls' : Lists) : Type 0 where
    pub cleanable : IsCleanable glib r.0 ls'
    pub owns : Owns glib r.0 ls' r.1
    pub used : (a : ℕ) → a ∈ ls.used → a ∈ ls'.used
    pub count : segment_count ls' ≡ segment_count ls
    pub same_read : (j : ℕ) → read glib r.0 j ≡ read glib p j
    pub live : (o : Offset) → Live glib r.0 o → segment_of o ≡ seg → Live glib p o × (o ∉ offs)

  used-IsSegment :
      (p : Heap glib) (ls : Lists) (seg : Offset)
      → IsCleanable glib p ls
      → seg ∈ ls.used
      → IsSegment seg
  used-IsSegment p ls seg is on =
      let log = is.heap.store.log in
      is.heap.store.segments seg
        (λ z. ground (arith, log.apart 0, ap (λ (b : ℕ). has b ls.used) z, on)) (ground (arith, on))

  pub clean_entries-AllCleaned :
      (offs : List Offset) (steps fuel : ℕ) (p : Heap glib) (ls : Lists) (c : Cursor) (seg : Offset)
      (pos : ℕ)
      → IsCleanable glib p ls
      → Owns glib p ls c
      → seg ∈ ls.used
      → UsedEntries p.memory seg pos offs
      → All (Settled glib p) offs
      → length offs < steps
      → segment_count ls < fuel
      → HasSpare ls ⊎ (c.cleaner_seg_pos ≤ pos)
      → (r : Heap glib × Cursor) × (ls' : Lists) × ((clean_entries glib steps fuel p c seg pos
            ≡ ok r)
          × AllCleaned p ls seg offs r ls')
  unfolding clean_entries
  clean_entries-AllCleaned offs zero fuel p ls c seg pos is owns on u settled less enough supply =
      absurd (omega (arith, less))
  clean_entries-AllCleaned [] (suc steps) fuel p ls c seg pos is owns on u settled less enough
        supply =
      (
        (p, c),
        ls,
        (
          elim u [ inl end ↦ rw (le→ltb pos scan_limit end) | inr empty ↦ ground (arith, empty) ],
          record {
            cleanable = is;
            owns = owns;
            used = λ a i. i;
            count = refl;
            same_read = λ j. refl;
            live = λ o live _. (live, refl);
          },
        ),
      )
  clean_entries-AllCleaned (off ∷ offs) (suc steps) fuel p ls c seg pos is owns on
        (e, lt, nonempty, fits, u) (s, settled) less enough supply =
      let at = used-IsSegment p ls seg is on in
      let home = ap segment_of e ∙ segment_of_entry p.memory seg at pos lt in
      let ((q, d), ls1, (run, cleaned)) =
        clean_entry-Cleaned glib p ls c is owns seg on off home fuel pos e s enough supply in
      let next = behind p.memory seg pos in
      let some_size : log_entry_size (p.memory.entry (entry_at seg pos)).length ≢ 0 = λ z.
        UsedEntries-end p.memory seg at pos (off ∷ offs) lt nonempty z (e, lt, nonempty, fits, u) in
      let after : (o : Offset) → entry_at seg next ≤ o → o ≢ off =
        λ o above same. ground (arith, some_size, above, same, e) in
      let settled' : All (Settled glib q) offs =
        All-zip (Settled glib p) (λ o. (entry_at seg next ≤ o) × (segment_of o ≡ seg))
          (Settled glib q) offs (λ o s (above, home). cleaned.settled o (after o above) home s)
          settled (UsedEntries-from p.memory seg at next offs u) in
      let more =
        subst
          (λ (o : Offset).
            HasSpare ls1 ⊎ (d.cleaner_seg_pos ≤ pos + log_entry_size (p.memory.entry o).length))
          e (cleaned.supply pos supply) in
      let run_at : clean_entry glib fuel p c (entry_at seg pos) ≡ ok (q, d) =
        subst (λ (o : Offset). clean_entry glib fuel p c o ≡ ok (q, d)) e run in
      let (r, ls2, (run', all)) =
        clean_entries-AllCleaned offs steps fuel q ls1 d seg next cleaned.cleanable cleaned.owns
          (cleaned.used seg on)
          (UsedEntries-keep p.memory seg at q.memory next offs cleaned.entry u) settled'
          (omega (arith, less)) (omega (arith, cleaned.count, enough)) more in
      (
        r,
        ls2,
        (
          rw
              (
                lt→ltb pos scan_limit lt,
                ==_ne (p.memory.entry (entry_at seg pos)).length 0 nonempty,
                run_at,
                next_position p.memory seg pos fits,
              )
              run',
          record {
            cleanable = all.cleanable;
            owns = all.owns;
            used = λ a i. all.used a (cleaned.used a i);
            count = all.count ∙ cleaned.count;
            same_read = λ j. all.same_read j ∙ cleaned.same_read j;
            live = λ o alive here.
                let (alive', out) = all.live o alive here in
                let (alive'', other) = cleaned.live o alive' here in
                (alive'', ground (arith, out, other));
          },
        ),
      )
