-- ===== src/Glib/Assoc.antt =====
-- An instance of GLib's hash table: association lists without repeated keys.
use log_heap_pmem.Base.{
  ℕ, ◌≡◌, refl, Bool, true, false, Option, none, some, List, [], ◌∷◌, arith, ◌==◌, if◌then◌else◌,
  Distinct, length, ◌∉◌,
}
use log_heap_pmem.Glib.{GHashTable, find, keys}

abbrev pub Assoc : Type 0
Assoc = List (ℕ × ℕ)

pub without : Assoc → ℕ → Assoc
without [] k = []
without ((i, w) ∷ t) k = if i == k then without t k else (i, w) ∷ without t k

value : Option ℕ → ℕ
value none = 0
value (some v) = v

is_some : Option ℕ → Bool
is_some none = false
is_some (some v) = true

find-without : (t : Assoc) (k j : ℕ) → find j (without t k) ≡ (if k == j then none else find j t)
unfolding without find
find-without [] k j = ground arith
find-without ((i, w) ∷ t) k j = ground (arith, find-without t k j)

keys-without : (t : Assoc) (k j : ℕ) → j ∉ keys t → j ∉ keys (without t k)
unfolding without
keys-without [] k j h = refl
keys-without ((i, w) ∷ t) k j h = ground (arith, keys-without t k j)

pub not-mem-without : (t : Assoc) (k : ℕ) → k ∉ keys (without t k)
unfolding without
not-mem-without [] k = refl
not-mem-without ((i, w) ∷ t) k = ground (arith, not-mem-without t k)

pub without-Distinct : (t : Assoc) (k : ℕ) → Distinct (keys t) → Distinct (keys (without t k))
unfolding without
without-Distinct [] k d = tt
without-Distinct ((i, w) ∷ t) k d = ground (arith, without-Distinct t k d.1, keys-without t k i d.0)

abbrev pub Table : Type 0
Table = (t : Assoc) × Distinct (keys t)

pub insert : Table → ℕ → ℕ → Table
unfolding without
insert (t, d) k v = ((k, v) ∷ without t k, (not-mem-without t k, without-Distinct t k d))

pub remove : Table → ℕ → Table
unfolding without
remove (t, d) k = (without t k, without-Distinct t k d)

pub lookup : Table → ℕ → ℕ
unfolding value find
lookup (t, d) j = value (find j t)

pub contains : Table → ℕ → Bool
unfolding is_some find
contains (t, d) j = is_some (find j t)

module _ (t : Table) where
  pub lookup-insert : (k v j : ℕ) → lookup (insert t k v) j ≡ (if k == j then v else lookup t j)
  unfolding lookup insert
  lookup-insert k v j = ground (arith, find-without t.0 k j)

  pub contains-insert :
      (k v j : ℕ) → contains (insert t k v) j ≡ (if k == j then true else contains t j)
  unfolding contains insert
  contains-insert k v j = ground (arith, find-without t.0 k j)

  pub lookup-remove : (k j : ℕ) → lookup (remove t k) j ≡ (if k == j then 0 else lookup t j)
  unfolding lookup remove
  lookup-remove k j = ground (arith, find-without t.0 k j)

  pub contains-remove :
      (k j : ℕ) → contains (remove t k) j ≡ (if k == j then false else contains t j)
  unfolding contains remove
  contains-remove k j = ground (arith, find-without t.0 k j)

  pub lookup_of_absent : (j : ℕ) → contains t j ≡ false → lookup t j ≡ 0
  unfolding lookup contains
  lookup_of_absent j h = ground arith

  pub find-to_list : (j : ℕ) → find j t.0 ≡ (if contains t j then some (lookup t j) else none)
  unfolding lookup contains
  find-to_list j = ground arith

-- The instance that the examples run on.
unfoldable pub assoc : GHashTable
unfolding insert remove lookup contains
assoc = record {
  Table = Table;
  new = ([], tt);
  insert = insert;
  remove = remove;
  lookup = lookup;
  contains = contains;
  size = λ t. length t.0;
  to_list = λ t. t.0;
  contains-new = λ j. refl;
  lookup-insert = lookup-insert;
  contains-insert = contains-insert;
  lookup-remove = lookup-remove;
  contains-remove = contains-remove;
  lookup_of_absent = lookup_of_absent;
  size-to_list = λ t. refl;
  keys-Distinct = λ t. t.1;
  find-to_list = find-to_list;
}
