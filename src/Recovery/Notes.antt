-- ===== src/Recovery/Notes.antt =====
-- The table of project/hash_table.c after entries were noted in some order.
use log_heap_pmem.Base.{
  ℕ, ◌≡◌, ◌≢◌, refl, subst, arith, ap, sym, ◌∙◌, true, Option, none, some, List, [], ◌∷◌, ltb, ◌==◌,
  if◌then◌else◌, Run, ok, ◌>>=◌, All, ==_ne, ==_refl, Bool-cases, inl, inr,
}
use native.Mathlib.Decide.{ℕ_discrete}
use log_heap_pmem.Types.{Offset, Memory, offset_to_pointer}
use log_heap_pmem.Glib.{GHashTable}
use log_heap_pmem.Recovery.{note_entry}

-- One entry against the best one so far.
unfoldable pub pick : Memory → ℕ → Option Offset → Offset → Option Offset
pick m id best off =
    let e = m.entry off in
    if e.to_delete == 0
    then if e.id == id
      then elim best [
        | none ↦ some off
        | some b ↦ if ltb (m.entry b).version e.version then some off else some b
      ]
      else best
    else best

unfoldable pub newest_from : Memory → ℕ → Option Offset → List Offset → Option Offset
newest_from m id best [] = best
newest_from m id best (off ∷ offs) = newest_from m id (pick m id best off) offs

unfoldable pub newest : Memory → ℕ → List Offset → Option Offset
newest m id = newest_from m id none

module _ (glib : GHashTable) where
  open glib use {Table, new, contains-new, insert, lookup, contains, lookup-insert, contains-insert}

  unfoldable pub notes : Memory → Table → List Offset → Run Table
  notes m t [] = ok t
  notes m t (off ∷ offs) = note_entry glib m t off >>= λ t. notes m t offs

  -- What the table has for an identifier.
  unfoldable pub entry_of : Table → ℕ → Option Offset
  entry_of t id = if contains t id then some (lookup t id) else none

  -- The table has no NULL.
  abbrev pub NoNull : Table → Type 0
  NoNull t = (j : ℕ) → contains t j ≡ true → lookup t j ≢ 0

  abbrev Notes : Memory → Table → Offset → Table → Type 0
  Notes m t off t' =
      (note_entry glib m t off ≡ ok t')
      × NoNull t'
      × ((id : ℕ) → entry_of t' id ≡ pick m id (entry_of t id) off)

  note_entry-inserts :
      (m : Memory) (t : Table) (off : Offset)
      → NoNull t
      → off ≢ 0
      → NoNull (insert t (m.entry off).id off)
  note_entry-inserts m t off good ne j c =
      let l = lookup-insert t (m.entry off).id off j in
      let h = contains-insert t (m.entry off).id off j in ground (arith, good j, l, h)

  pub entry_of_new : (id : ℕ) → entry_of new id ≡ none
  unfolding entry_of
  entry_of_new id = rw (contains-new id)

  pub entry_of-insert :
      (t : Table) (k v j : ℕ)
      → entry_of (insert t k v) j ≡ (if k == j then some v else entry_of t j)
  unfolding entry_of
  entry_of-insert t k v j =
      let l = lookup-insert t k v j in let h = contains-insert t k v j in ground (arith, l, h)

  -- An entry that takes its identifier's place is the one that is picked, and it changes no other
  -- identifier's.
  insert-pick :
      (m : Memory) (t : Table) (off id : ℕ)
      → ((m.entry off).to_delete == 0) ≡ true
      → pick m (m.entry off).id (entry_of t (m.entry off).id) off ≡ some off
      → entry_of (insert t (m.entry off).id off) id ≡ pick m id (entry_of t id) off
  unfolding pick
  insert-pick m t off id d own =
      let e = m.entry off in
      let insert-self : entry_of (insert t e.id off) e.id ≡ some off =
        rw (entry_of-insert t e.id off e.id, ==_refl e.id) in
      elim (ℕ_discrete (m.entry off).id id) [
        | yes p ↦
            subst (λ j. entry_of (insert t (m.entry off).id off) j ≡ pick m j (entry_of t j) off) p
              (insert-self ∙ sym own)
        | no q ↦ rw (entry_of-insert t e.id off id, ==_ne e.id id q, d, pick)
      ]

  note_entry-pick :
      (m : Memory) (t : Table) (off : Offset) → NoNull t → off ≢ 0 → (t' : Table) × Notes m t off t'
  unfolding note_entry offset_to_pointer entry_of pick
  note_entry-pick m t off good ne =
      let e = m.entry off in
      let put = note_entry-inserts m t off good ne in
      elim (Bool-cases (e.to_delete == 0)) [
        | inr d ↦ (t, (rw (d, note_entry), good, λ id. rw (d, pick)))
        | inl d ↦ elim (Bool-cases (contains t e.id)) [
          | inr c ↦
              let own : pick m e.id (entry_of t e.id) off ≡ some off =
                rw (d, ==_refl e.id, c, pick, entry_of) in
              (insert t e.id off, (rw (d, c, note_entry), put, λ id. insert-pick m t off id d own))
          | inl c ↦ elim (Bool-cases (ltb (m.entry (lookup t e.id)).version e.version)) [
            | inl v ↦
                let own : pick m e.id (entry_of t e.id) off ≡ some off =
                  rw (d, ==_refl e.id, c, v, pick, entry_of) in
                (
                  insert t e.id off,
                  (
                    rw (d, c, ==_ne (lookup t e.id) 0 (good e.id c), v, note_entry),
                    put,
                    λ id. insert-pick m t off id d own,
                  ),
                )
            | inr v ↦ (
              t,
              (
                rw (d, c, ==_ne (lookup t e.id) 0 (good e.id c), v, note_entry),
                good,
                λ id. elim (ℕ_discrete e.id id) [
                  | yes p ↦
                      subst (λ j. entry_of t j ≡ pick m j (entry_of t j) off) p rw
                        (d, ==_refl e.id, c, v, pick, entry_of)
                  | no q ↦ rw (d, ==_ne e.id id q, pick)
                ],
              ),
            )
          ]
        ]
      ]

  -- The loop over any list of entries: a table is made, and each identifier has what is picked from
  -- the table's own entry and the list's.
  pub notes-newest_from :
      (m : Memory) (t : Table) (offs : List Offset)
      → NoNull t
      → All (λ off. off ≢ 0) offs
      → (t' : Table) × (notes m t offs ≡ ok t')
        × NoNull t'
        × ((id : ℕ) → entry_of t' id ≡ newest_from m id (entry_of t id) offs)
  unfolding notes newest_from
  notes-newest_from m t [] good ne = (t, refl, good, λ id. refl)
  notes-newest_from m t (off ∷ offs) good (p, ne) =
      let (t1, (e1, good1, h1)) = note_entry-pick m t off good p in
      let (t2, e2, good2, h2) = notes-newest_from m t1 offs good1 ne in
      (t2, rw (e1) e2, good2, λ id. h2 id ∙ ap (λ b. newest_from m id b offs) (h1 id))
