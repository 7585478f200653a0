-- ===== src/Heap/Stored.antt =====
-- The heap after an entry was appended and entered in the table.
use log_heap_pmem.Base.{
  ℕ, ◌+◌, ◌≤◌, ◌-◌, ◌<◌, ◌≡◌, ◌≢◌, refl, ap, sym, ◌∙◌, subst, true, none, some, if◌then◌else◌,
  ==_ne, ==_refl, inl, inr, ◌⊎◌, Bool-cases, ==_iff,
}
use native.Mathlib.Decide.{ℕ_discrete}
use log_heap_pmem.Types.{Offset, Memory, LogEntry, sizeof_log_entry, segment_size, sizeof_segment}
use log_heap_pmem.Glib.{GHashTable}
use log_heap_pmem.Log.Lists.{Lists}
use log_heap_pmem.Store.{Apart, Stored}
use log_heap_pmem.Store.Segments.{IsStore-narrow}
use log_heap_pmem.Heap.{Heap}
use log_heap_pmem.Heap.Content.{put, read, Live, IsEntry, IsHeap, read_lem}

-- An entry that may stand for an identifier, and fits into a segment.
pub record IsFor (id : ℕ) (e : LogEntry) : Type 0 where
  pub own : e.id ≡ id
  pub nonempty : 0 < e.length
  pub kept : e.to_delete ≡ 0
  pub small : sizeof_log_entry + e.length ≤ segment_size - sizeof_segment

Apart-symm : (m : Memory) (p q : Offset) → Apart m p q → Apart m q p
Apart-symm m p q (inl h) = inr h
Apart-symm m p q (inr h) = inl h

module _ (glib : GHashTable) where
  open glib use {Table, insert, lookup, contains, lookup-insert, contains-insert}

  module _ (p : Heap glib) (ls : Lists) (is : IsHeap glib p ls) (id : ℕ) (e : LogEntry)
      (fit : IsFor id e) where
    module _ (off : Offset) where
      pub lookup_self : lookup (insert p.hash_table id off) id ≡ off
      lookup_self = rw (lookup-insert, ==_refl id)

      pub lookup_other :
          (i : ℕ) → id ≢ i → lookup (insert p.hash_table id off) i ≡ lookup p.hash_table i
      lookup_other i ne = rw (lookup-insert, ==_ne id i ne)

      pub contains_other :
          (i : ℕ) → id ≢ i → contains (insert p.hash_table id off) i ≡ contains p.hash_table i
      contains_other i ne = rw (contains-insert, ==_ne id i ne)

    module _ (m : Memory) (off : Offset) (ls' : Lists)
        (st : Stored p.memory (Live glib p) e m off ls') where
      abbrev pub after : Heap glib
      after = record p { memory = m; hash_table = insert p.hash_table id off }

      lookup_after : (i : ℕ) → id ≡ i → lookup after.hash_table i ≡ off
      lookup_after i same = ap (lookup (insert p.hash_table id off)) (sym same) ∙ lookup_self off

      pub stored-Live : (o : Offset) → Live glib after o → Live glib p o ⊎ (o ≡ off)
      stored-Live o (i, h, e') = elim (ℕ_discrete id i) [
        | yes same ↦ inr (sym e' ∙ lookup_after i same)
        | no ne ↦ inl (i, sym (contains_other off i ne) ∙ h, sym (lookup_other off i ne) ∙ e')
      ]

      stored-IsEntry : (i : ℕ) → contains after.hash_table i ≡ true → IsEntry glib after i
      stored-IsEntry i h = elim (ℕ_discrete id i) [
        | yes same ↦ subst (IsEntry glib after) same (record {
          nonzero = rw (lookup_self off) st.nonzero;
          own = rw (lookup_self off, st.at) fit.own;
          nonempty = rw (lookup_self off, st.at) fit.nonempty;
          kept = rw (lookup_self off, st.at) fit.kept;
        })
        | no ne ↦
            let present = sym (contains_other off i ne) ∙ h in
            let old = is.entries i present in
            let eq =
              ap (λ (a : ℕ). m.entry a) (lookup_other off i ne)
              ∙ st.same (lookup p.hash_table i) (i, present, refl) in
            record {
              nonzero = rw (lookup_other off i ne) old.nonzero;
              own = rw eq old.own;
              nonempty = rw eq old.nonempty;
              kept = rw eq old.kept;
            }
      ]

      others-Apart :
          (i j : ℕ)
          → id ≢ i
          → id ≢ j
          → i ≢ j
          → contains after.hash_table i ≡ true
          → contains after.hash_table j ≡ true
          → Apart m (lookup after.hash_table i) (lookup after.hash_table j)
      others-Apart i j ni nj ne hi hj =
          let pi = sym (contains_other off i ni) ∙ hi in
          let pj = sym (contains_other off j nj) ∙ hj in
          rw
            (
              lookup_other off i ni,
              lookup_other off j nj,
              st.same (lookup p.hash_table i) (i, pi, refl),
              st.same (lookup p.hash_table j) (j, pj, refl),
            )
            (is.separate i j ne pi pj)

      self-Apart :
          (i : ℕ)
          → id ≢ i
          → contains after.hash_table i ≡ true
          → Apart m (lookup after.hash_table i) off
      self-Apart i ne hi =
          rw (lookup_other off i ne)
            (st.apart (lookup p.hash_table i) (i, sym (contains_other off i ne) ∙ hi, refl))

      stored-separate :
          (i j : ℕ)
          → i ≢ j
          → contains after.hash_table i ≡ true
          → contains after.hash_table j ≡ true
          → Apart m (lookup after.hash_table i) (lookup after.hash_table j)
      stored-separate i j ne hi hj = elim (ℕ_discrete id i) [
        | yes si ↦
            let nj : id ≢ j = λ e. ne (sym si ∙ e) in
            subst (λ (o : ℕ). Apart m o (lookup after.hash_table j)) (sym (lookup_after i si))
              (Apart-symm m (lookup after.hash_table j) off (self-Apart j nj hj))
        | no ni ↦ elim (ℕ_discrete id j) [
          | yes sj ↦
              subst (λ (o : ℕ). Apart m (lookup after.hash_table i) o) (sym (lookup_after j sj))
                (self-Apart i ni hi)
          | no nj ↦ others-Apart i j ni nj ne hi hj
        ]
      ]

      pub stored-IsHeap : IsHeap glib after ls'
      stored-IsHeap = record {
        store =
            IsStore-narrow m ls' (λ o. Live glib p o ⊎ (o ≡ off)) (Live glib after) stored-Live
              st.store;
        entries = stored-IsEntry;
        separate = stored-separate;
      }

      pub contains_self : contains after.hash_table id ≡ true
      contains_self = rw (contains-insert, ==_refl id)

      other_read :
          (j : ℕ)
          → id ≢ j
          → (if contains after.hash_table j
              then some (m.entry (lookup after.hash_table j)).bytes
              else none)
            ≡ (if contains p.hash_table j
                then some (p.memory.entry (lookup p.hash_table j)).bytes
                else none)
      other_read j ne =
          rw (contains_other off j ne, lookup_other off j ne)
            (elim (Bool-cases (contains p.hash_table j)) [
              | inl present ↦ rw (present, st.same (lookup p.hash_table j) (j, present, refl))
              | inr absent ↦ rw absent
            ])

      pub stored-read : (j : ℕ) → read glib after j ≡ put (read glib p) id e.bytes j
      stored-read j = elim (ℕ_discrete id j) [
        | yes same ↦
            let there : contains after.hash_table j ≡ true =
              subst (λ (k : ℕ). contains after.hash_table k ≡ true) same contains_self in
            rw (
              read_lem glib after ls' j stored-IsHeap,
              there,
              lookup_after j same,
              st.at,
              (==_iff id j).1 same,
            )
        | no ne ↦
            rw (read_lem glib after ls' j stored-IsHeap, read_lem glib p ls j is, ==_ne id j ne)
              (other_read j ne)
      ]
