-- ===== src/Heap/Content.antt =====
-- What a client reads through `get_address`, and the invariant of the whole heap.
use log_heap_pmem.Base.{
  ℕ, ◌-◌, ◌<◌, ◌≡◌, ◌≢◌, refl, arith, true, Option, none, some, List, ◌==◌, if◌then◌else◌, ==_ne,
  Bool-cases, ap, ◌+◌, inl, inr,
}
use log_heap_pmem.Types.{Offset, Memory, offset_to_pointer}
use log_heap_pmem.Glib.{GHashTable}
use log_heap_pmem.Log.Lists.{Lists}
use log_heap_pmem.Store.{IsStore, Apart, SameLive}
use log_heap_pmem.Heap.{Heap, get_address, get_from_hash_table, offsetof_data}

-- A map from identifiers to data, and the map with one entry given anew or taken out.
abbrev pub Content : Type 0
Content = ℕ → Option (List ℕ)

abbrev pub put : Content → ℕ → List ℕ → Content
put c id bytes j = if id == j then some bytes else c j

abbrev pub delete : Content → ℕ → Content
delete c id j = if id == j then none else c j

module _ (glib : GHashTable) where
  open glib use {Table, lookup, contains, lookup_of_absent}

  -- The bytes behind the address that `get_address` returns.
  unfoldable pub read : Heap glib → Content
  read p id = elim (get_address glib p id) [
    | none ↦ none
    | some a ↦ some (p.memory.entry (a - offsetof_data)).bytes
  ]

  abbrev pub Live : Heap glib → Offset → Type 0
  Live p off = (id : ℕ) × (contains p.hash_table id ≡ true) × (lookup p.hash_table id ≡ off)

  -- The entry that the table gives for an identifier is that identifier's, and not deleted.
  pub record IsEntry (p : Heap glib) (id : ℕ) : Type 0 where
    pub nonzero : lookup p.hash_table id ≢ 0
    pub own : (p.memory.entry (lookup p.hash_table id)).id ≡ id
    pub nonempty : 0 < (p.memory.entry (lookup p.hash_table id)).length
    pub kept : (p.memory.entry (lookup p.hash_table id)).to_delete ≡ 0

  pub record IsHeap (p : Heap glib) (ls : Lists) : Type 0 where
    pub store : IsStore p.memory ls (Live p)
    pub entries : (id : ℕ) → contains p.hash_table id ≡ true → IsEntry p id
    pub separate :
        (i j : ℕ)
        → i ≢ j
        → contains p.hash_table i ≡ true
        → contains p.hash_table j ≡ true
        → Apart p.memory (lookup p.hash_table i) (lookup p.hash_table j)

  get_address_absent :
      (p : Heap glib) (id : ℕ) → lookup p.hash_table id ≡ 0 → get_address glib p id ≡ none
  unfolding get_address get_from_hash_table offset_to_pointer
  get_address_absent p id h = rw (h, get_address)

  pub get_address_present :
      (p : Heap glib) (id : ℕ)
      → lookup p.hash_table id ≢ 0
      → get_address glib p id ≡ some (lookup p.hash_table id + offsetof_data)
  unfolding get_address get_from_hash_table offset_to_pointer
  get_address_present p id h = rw (==_ne (lookup p.hash_table id) 0 h, get_address)

  -- An identifier outside the table has no data, one in the table has those of its entry.
  pub read_lem :
      (p : Heap glib) (ls : Lists) (id : ℕ)
      → IsHeap p ls
      → read p id ≡ (
          if contains p.hash_table id
          then some (p.memory.entry (lookup p.hash_table id)).bytes
          else none)
  unfolding read
  read_lem p ls id is = elim (Bool-cases (contains p.hash_table id)) [
    | inl present ↦
        let at = is.entries id present in
        rw (get_address_present p id at.nonzero, present, read)
          (ap (λ (a : ℕ). some (p.memory.entry a).bytes) (omega arith))
    | inr absent ↦
        rw (get_address_absent p id (lookup_of_absent p.hash_table id absent), absent, read)
  ]

  module _ (p : Heap glib) (ls : Lists) (is : IsHeap p ls) (m : Memory) (ls' : Lists)
      (store : IsStore m ls' (Live p)) (same : SameLive (Live p) p.memory m) where
    -- Memory in which the live entries are placed and read the same gives the same heap.
    pub IsHeap-memory : IsHeap (record p { memory = m }) ls'
    IsHeap-memory = record {
      store = store;
      entries = λ i h.
          let at = is.entries i h in
          let eq = same (lookup p.hash_table i) (i, h, refl) in
          record {
            nonzero = at.nonzero;
            own = rw eq at.own;
            nonempty = rw eq at.nonempty;
            kept = rw eq at.kept;
          };
      separate = λ i j ne hi hj.
          rw
            (same (lookup p.hash_table i) (i, hi, refl), same (lookup p.hash_table j) (j, hj, refl))
            (is.separate i j ne hi hj);
    }

    pub read-memory : (j : ℕ) → read (record p { memory = m }) j ≡ read p j
    read-memory j =
        rw (read_lem (record p { memory = m }) ls' j IsHeap-memory, read_lem p ls j is)
          (elim (Bool-cases (contains p.hash_table j)) [
            | inl present ↦ rw (present, same (lookup p.hash_table j) (j, present, refl))
            | inr absent ↦ rw absent
          ])
