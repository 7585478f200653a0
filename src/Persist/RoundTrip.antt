-- ===== src/Persist/RoundTrip.antt =====
-- `persist_hash_table` and then `get_persisted_hash_table` (project/hash_table.c).
use log_heap_pmem.Base.{
  ℕ, zero, suc, ◌+◌, ◌^◌, ◌<◌, ◌≤◌, ◌≡◌, ◌≢◌, refl, ap, ◌∙◌, subst, arith, Option, none, some, List,
  [], ◌∷◌, ◌==◌, ok, length, ◌∉◌, Distinct, lt→ltb, le→ltb, ==_iff, Bool-cases, inl, inr,
}
use log_heap_pmem.Base.Words.{add64_small, as_int_small}
use log_heap_pmem.Types.{write}
use log_heap_pmem.Glib.{GHashTable, find, keys}
use log_heap_pmem.Heap.{Heap, add_to_hash_table}
use log_heap_pmem.Recovery.Notes.{entry_of, entry_of-insert, entry_of_new}
use log_heap_pmem.Persist.{
  KeyValue, HashFile, bytes_for, persist_key_value_pair, persist_pairs, persist_table,
  set_persisted, set_persisted, load_pairs, load_table,
}

abbrev pair_of : ℕ × ℕ → KeyValue
pair_of kv = record { key = kv.0; value = kv.1 }

-- From the index `i` on the file has these pairs.
abbrev pub HasPairs : (ℕ → KeyValue) → ℕ → List (ℕ × ℕ) → Type 0
HasPairs pairs i [] = Unit
HasPairs pairs i (kv ∷ rest) = (pairs i ≡ pair_of kv) × HasPairs pairs (suc i) rest

HasPairs-frame :
    (f g : ℕ → KeyValue) (i : ℕ) (xs : List (ℕ × ℕ))
    → ((j : ℕ) → i ≤ j → g j ≡ f j)
    → HasPairs f i xs
    → HasPairs g i xs
HasPairs-frame f g i [] same h = tt
HasPairs-frame f g i (kv ∷ rest) same (e, h) =
    (same i (omega arith) ∙ e, HasPairs-frame f g (suc i) rest (λ j le. same j (omega arith)) h)

-- A file after pairs were written behind the ones that it had.
pub record Written (f f' : HashFile) (xs : List (ℕ × ℕ)) : Type 0 where
  pub size : f'.size ≡ f.size
  pub counter : f'.meta.counter ≡ f.meta.counter + length xs
  pub pairs : HasPairs f'.meta.pairs f.meta.counter xs
  pub before : (j : ℕ) → j < f.meta.counter → f'.meta.pairs j ≡ f.meta.pairs j

-- The header after one more pair.
abbrev appended : HashFile → KeyValue → HashFile
appended f pair = record f {
  meta = record f.meta {
    pairs = write f.meta.pairs f.meta.counter pair;
    counter = suc f.meta.counter;
  };
}

persist_key_value_pair-fits :
    (f : HashFile) (pair : KeyValue)
    → bytes_for (f.meta.counter + 1) ≤ f.size
    → f.meta.counter < 2 ^ 31
    → persist_key_value_pair pair f ≡ ok (appended f pair)
unfolding persist_key_value_pair
persist_key_value_pair-fits f pair fits small =
    rw
      (
        le→ltb f.size (bytes_for (f.meta.counter + 1)) fits,
        add64_small f.meta.counter 1 (omega arith),
      )
      (ap
        (λ (n : ℕ). ok (record f {
          meta = record f.meta { pairs = write f.meta.pairs f.meta.counter pair; counter = n };
        }))
        (omega arith))

write-at {ℓ} : {A : Type ℓ} (f : ℕ → A) (p : ℕ) (x : A) → write f p x p ≡ x
unfolding write
write-at f p x = ground arith

write-other {ℓ} : {A : Type ℓ} (f : ℕ → A) (p q : ℕ) (x : A) → p ≢ q → write f p x q ≡ f q
unfolding write
write-other f p q x ne = ground arith

persist_pairs-Written :
    (f : HashFile) (xs : List (ℕ × ℕ))
    → bytes_for (f.meta.counter + length xs) ≤ f.size
    → f.meta.counter + length xs < 2 ^ 31
    → (f' : HashFile) × (persist_pairs xs f ≡ ok f') × Written f f' xs
unfolding persist_pairs
persist_pairs-Written f [] fits small =
    (f, refl, record { size = refl; counter = omega arith; pairs = tt; before = λ j h. refl })
persist_pairs-Written f ((k, v) ∷ xs) fits small =
    let pair : KeyValue = record { key = k; value = v } in
    let counter = f.meta.counter in
    let (f', run, w) = persist_pairs-Written (appended f pair) xs (omega arith) (omega arith) in
    (
      f',
      rw (persist_key_value_pair-fits f pair (omega arith) (omega arith)) run,
      record {
        size = w.size;
        counter = w.counter ∙ omega arith;
        pairs = (w.before counter (omega arith) ∙ write-at f.meta.pairs counter pair, w.pairs);
        before = λ j h.
            w.before j (omega arith)
            ∙ write-other f.meta.pairs counter j pair (λ e. omega (arith, e, h));
      },
    )

find-none : (xs : List (ℕ × ℕ)) (j : ℕ) → j ∉ keys xs → find j xs ≡ none
unfolding find
find-none [] j h = refl
find-none ((k, v) ∷ xs) j h = ground (arith, find-none xs j)

i-suc : (i : ℕ) → i + 1 ≡ suc i
i-suc i = omega arith

module _ (glib : GHashTable) where
  open glib use {
    Table, new, insert, lookup, contains, size, to_list, keys-Distinct, find-to_list, size-to_list,
    lookup-insert, contains-insert, contains-new,
  }

  -- The table after pairs were inserted one after the other.
  insert_all : Table → List (ℕ × ℕ) → Table
  insert_all t [] = t
  insert_all t ((k, v) ∷ xs) = insert_all (insert t k v) xs

  load_pairs-insert_all :
      (xs : List (ℕ × ℕ)) (fuel i : ℕ) (f : HashFile) (p : Heap glib)
      → HasPairs f.meta.pairs i xs
      → f.meta.counter ≡ i + length xs
      → bytes_for f.meta.counter ≤ f.size
      → f.meta.counter < 2 ^ 31
      → length xs < fuel
      → load_pairs glib fuel f i p ≡ ok (record p { hash_table = insert_all p.hash_table xs })
  unfolding load_pairs insert_all add_to_hash_table
  load_pairs-insert_all xs zero i f p h c fits small enough = ground arith
  load_pairs-insert_all [] (suc fuel) i f p h c fits small enough =
      rw (le→ltb i f.meta.counter (omega arith))
  load_pairs-insert_all ((k, v) ∷ xs) (suc fuel) i f p (e, h) c fits small enough =
      rw
        (
          lt→ltb i f.meta.counter (omega arith),
          le→ltb f.size (bytes_for (i + 1)) (omega arith),
          e,
          as_int_small (i + 1) (omega arith) ∙ i-suc i,
        )
        (load_pairs-insert_all xs fuel (suc i) f (add_to_hash_table glib p k v) h (omega arith) fits
          small (omega arith))

  or_entry : Option ℕ → Option ℕ → Option ℕ
  or_entry none e = e
  or_entry (some v) e = some v

  entry_of-insert_all :
      (xs : List (ℕ × ℕ)) (t : Table) (j : ℕ)
      → Distinct (keys xs)
      → entry_of glib (insert_all t xs) j ≡ or_entry (find j xs) (entry_of glib t j)
  unfolding insert_all find or_entry
  entry_of-insert_all [] t j d = refl
  entry_of-insert_all ((k, v) ∷ xs) t j (out, d) =
      let rest = entry_of-insert_all xs (insert t k v) j d in
      let put = entry_of-insert glib t k v j in
      elim (Bool-cases (k == j)) [
        | inl same ↦
            let absent : find j xs ≡ none =
              find-none xs j (subst (λ i. i ∉ keys xs) ((==_iff k j).0 same) out) in
            rest ∙ (rw absent (put ∙ rw same))
        | inr other ↦ rw other (rest ∙ ap (or_entry (find j xs)) (put ∙ rw other))
      ]

  module _ (t : Table) (few : size t < 2 ^ 31) where
    -- The pairs of a table of fewer than 2^31 entries are written to a file with room for them.
    -- Then, with fuel above the number of entries, they are read into an empty table: the same
    -- entries.
    pub load-persist :
        (f : HashFile)
        → bytes_for (size t) ≤ f.size
        → (f' : HashFile) × (persist_table glib t f ≡ ok f')
          × ((fuel : ℕ) (p : Heap glib)
              → size t < fuel
              → p.hash_table ≡ new
              → (t' : Table) × (load_table glib fuel f' p ≡ ok (record p { hash_table = t' }, 0))
                × ((j : ℕ) → entry_of glib t' j ≡ entry_of glib t j))
    unfolding persist_table load_table or_entry entry_of
    load-persist f fits =
        let xs = to_list t in
        let count : size t ≡ length xs = size-to_list t in
        let start = set_persisted f 0 in
        let (f', run, w) =
          persist_pairs-Written (record start { meta = record start.meta { counter = 0 } }) xs
            (omega arith) (omega arith) in
        (
          set_persisted f' 1,
          rw run,
          λ fuel p enough empty. (
            insert_all p.hash_table xs,
            rw (
                load_pairs-insert_all xs fuel 0 (set_persisted f' 1) p w.pairs (w.counter)
                  (omega (arith, w.counter, w.size)) (omega (arith, w.counter)) (omega arith)),
            λ j.
                let nothing : entry_of glib p.hash_table j ≡ none =
                  rw empty (entry_of_new glib j) in
                let listed = find-to_list t j in
                entry_of-insert_all xs p.hash_table j (keys-Distinct t)
                ∙ rw (nothing, listed) (ground arith),
          ),
        )
