-- ===== src/Glib.antt =====
-- GLib's GHashTable with `g_direct_hash` and `g_direct_equal`, as far as the heap uses it: a
-- parameter. The laws are GLib's documented behaviour; `lookup` returns 0 (NULL) for a missing key,
-- and `to_list` is the order in which `g_hash_table_foreach` visits the pairs.
pub mod Assoc
use log_heap_pmem.Base.{
  ℕ, ◌≡◌, Bool, true, false, Option, none, some, List, [], ◌∷◌, map, ◌==◌, if◌then◌else◌, Distinct,
  length,
}

-- The value that the first pair with the key holds.
unfoldable pub find : ℕ → List (ℕ × ℕ) → Option ℕ
find j [] = none
find j ((k, v) ∷ t) = if k == j then some v else find j t

abbrev pub keys : List (ℕ × ℕ) → List ℕ
keys = map (λ e. e.0)

pub record GHashTable : Type 1 where
  pub Table : Type 0
  pub new : Table
  pub insert : Table → ℕ → ℕ → Table
  pub remove : Table → ℕ → Table
  pub lookup : Table → ℕ → ℕ
  pub contains : Table → ℕ → Bool
  pub size : Table → ℕ
  pub to_list : Table → List (ℕ × ℕ)
  pub contains-new : (j : ℕ) → contains new j ≡ false
  pub lookup-insert :
      (t : Table) (k v j : ℕ) → lookup (insert t k v) j ≡ (if k == j then v else lookup t j)
  pub contains-insert :
      (t : Table) (k v j : ℕ) → contains (insert t k v) j ≡ (if k == j then true else contains t j)
  pub lookup-remove :
      (t : Table) (k j : ℕ) → lookup (remove t k) j ≡ (if k == j then 0 else lookup t j)
  pub contains-remove :
      (t : Table) (k j : ℕ) → contains (remove t k) j ≡ (if k == j then false else contains t j)
  pub lookup_of_absent : (t : Table) (j : ℕ) → contains t j ≡ false → lookup t j ≡ 0
  pub size-to_list : (t : Table) → size t ≡ length (to_list t)
  pub keys-Distinct : (t : Table) → Distinct (keys (to_list t))
  pub find-to_list :
      (t : Table) (j : ℕ) → find j (to_list t) ≡ (if contains t j then some (lookup t j) else none)
