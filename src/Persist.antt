-- ===== src/Persist.antt =====
-- project/hash_table.h and project/hash_table.c, `persist_hash_table` and `get_persisted_hash_table`:
-- the copy of the table in a file of its own. Whether a call of the operating system or of libpmem2
-- succeeds is an argument; the array of pairs behind the file's header is a function of the index.
pub mod Mapping
pub mod Resources
pub mod RoundTrip
use log_heap_pmem.Base.{
  ℕ, zero, suc, ◌+◌, ◌*◌, Bool, true, false, Option, none, some, List, [], ◌∷◌, ltb, ◌==◌,
  if◌then◌else◌, Run, ok, fault, out_of_fuel, ◌>>=◌,
}
use log_heap_pmem.Base.Words.{as_int, add64}
use log_heap_pmem.Types.{write}
use log_heap_pmem.Persist.Mapping.{
  Calls, Handles, err_config_hash, err_granularity_hash, err_map_hash, err_src_delete_hash,
}
use log_heap_pmem.Glib.{GHashTable}
use log_heap_pmem.Heap.{Heap, add_to_hash_table}

-- `kvp_t`
pub record KeyValue : Type 0 where
  pub key : ℕ
  pub value : ℕ

-- `hash_meta_t`
pub record HashMeta : Type 0 where
  pub succesfully_persisted : ℕ
  pub counter : ℕ
  pub pairs : ℕ → KeyValue

-- The file: what it holds and how many bytes it has.
pub record HashFile : Type 0 where
  pub meta : HashMeta
  pub size : ℕ

abbrev pub sizeof_hash_meta : ℕ
sizeof_hash_meta = 16

abbrev pub sizeof_kvp : ℕ
sizeof_kvp = 16

-- The bytes that a file with so many pairs has.
abbrev pub bytes_for : ℕ → ℕ
bytes_for n = sizeof_hash_meta + sizeof_kvp * n

-- A file that `open` has just created.
abbrev pub created : HashFile
created = record {
  meta = record {
    succesfully_persisted = 0;
    counter = 0;
    pairs = λ _. record { key = 0; value = 0 };
  };
  size = 0;
}

-- `ftruncate`: what the file had is kept, what is new reads as 0.
unfoldable pub resize : HashFile → ℕ → HashFile
resize f size = record f {
  size = size;
  meta = record f.meta {
    pairs = λ i.
        if ltb f.size (bytes_for (i + 1)) then record { key = 0; value = 0 } else f.meta.pairs i;
  };
}

abbrev pub existing : Option HashFile → HashFile
existing none = created
existing (some f) = f

-- The part of `init_hash_pmem` behind `ftruncate`.
unfoldable pub map_hash_file : Calls → Handles → Handles × ℕ
unfolding err_config_hash err_granularity_hash err_map_hash err_src_delete_hash
map_hash_file calls h =
    if calls.config_new
    then (let h = record h { config = true } in
        if calls.set_granularity
        then if calls.source_from_fd
          then (let h = record h { source = true } in
              if calls.map_new
              then (let h = record h { map = true } in
                  if calls.source_delete
                  then (let h = record h { source = false } in
                      if calls.config_delete
                      then (record h { config = false }, 0)
                      else (err_src_delete_hash h, 1))
                  else (err_src_delete_hash h, 1))
              else (err_map_hash h, 1))
          else (err_granularity_hash h, 1)
        else (err_granularity_hash h, 1))
    else (err_config_hash h, 1)

-- The result 1 is the failure. `n` is the number of pairs in the hash table.
unfoldable pub init_hash_pmem :
    Calls → ℕ → Option HashFile → Handles → (Option HashFile × Handles) × ℕ
unfolding map_hash_file resize
init_hash_pmem calls n file h =
    let h = record h { path = true } in
    let f = existing file in
    let opened = record h { fd = true } in
    let freed = record opened { path = false } in
    if calls.open_file
    then if n == 0
      then (let (h, r) = map_hash_file calls freed in ((some f, h), r))
      else if calls.truncate
      then (let (h, r) = map_hash_file calls freed in ((some (resize f (bytes_for n)), h), r))
      else ((some f, record h { path = false }), 1)
    else ((file, record h { path = false }), 1)

unfoldable pub delete_hash_pmem : Calls → Handles → Handles × ℕ
delete_hash_pmem calls h = (
  record h { map = false; fd = false },
  if calls.map_delete then (if calls.close_file then 0 else 1) else 1,
)

-- `hash_meta->data[counter] = (key, value); counter++`, outside the file a fault.
unfoldable pub persist_key_value_pair : KeyValue → HashFile → Run HashFile
unfolding write
persist_key_value_pair pair f =
    let counter = f.meta.counter in
    if ltb f.size (bytes_for (counter + 1))
    then fault
    else ok (record f {
      meta = record f.meta { pairs = write f.meta.pairs counter pair; counter = add64 counter 1 };
    })

-- `g_hash_table_foreach`
unfoldable pub persist_pairs : List (ℕ × ℕ) → HashFile → Run HashFile
persist_pairs [] f = ok f
persist_pairs ((k, v) ∷ rest) f =
    persist_key_value_pair (record { key = k; value = v }) f >>= λ f. persist_pairs rest f

-- `hash_meta->succesfully_persisted = b`
abbrev pub set_persisted : HashFile → ℕ → HashFile
set_persisted f b = record f { meta = record f.meta { succesfully_persisted = b } }

module _ (glib : GHashTable) where
  open glib use {Table, size, to_list}

  -- The part of `persist_hash_table` on the mapped file.
  unfoldable pub persist_table : Table → HashFile → Run HashFile
  persist_table t f = do
    let start = set_persisted f 0
    f ← persist_pairs (to_list t) (record start { meta = record start.meta { counter = 0 } })
    ok (set_persisted f 1)

  -- The file and the result; nothing is done for an empty table.
  unfoldable pub persist_hash_table :
      Calls → Bool → Table → Option HashFile → Handles → Run ((Option HashFile × Handles) × ℕ)
  persist_hash_table calls malloc t file h =
      let ((file', h'), failed) = init_hash_pmem calls (size t) file h in
      let written : Run ((Option HashFile × Handles) × ℕ) = elim file' [
        | none ↦ fault
        | some f ↦ do f ← persist_table t f; ok ((some f, (delete_hash_pmem calls h').0), 0)
      ] in
      if size t == 0
      then ok ((file, h), 0)
      else if malloc
      then (if failed == 0 then written else ok ((file', h'), 1))
      else ok ((file, h), 1)

  -- `for(int i=0; i<counter; i++)`
  unfoldable pub load_pairs : ℕ → HashFile → ℕ → Heap glib → Run (Heap glib)
  load_pairs zero f i p = out_of_fuel
  load_pairs (suc fuel) f i p =
      let pair = f.meta.pairs i in
      let rest =
        load_pairs fuel f (as_int (i + 1)) (add_to_hash_table glib p pair.key pair.value) in
      if ltb i f.meta.counter
      then (if ltb f.size (bytes_for (i + 1)) then fault else rest)
      else ok p

  -- The pairs of a mapped file go into the table, if the last `persist_hash_table` came to its end.
  unfoldable pub load_table : ℕ → HashFile → Heap glib → Run (Heap glib × ℕ)
  load_table fuel f p =
      if f.meta.succesfully_persisted == 0
      then ok (p, 1)
      else (load_pairs fuel f 0 p >>= λ p. ok (p, 0))

  -- The heap, the file, which has to exist, what is open, and the result.
  unfoldable pub get_persisted_hash_table :
      ℕ
      → Calls
      → Bool
      → Option HashFile
      → Heap glib
      → Handles
      → Run ((Heap glib × Option HashFile × Handles) × ℕ)
  get_persisted_hash_table fuel calls malloc none p h = ok ((p, none, h), 1)
  get_persisted_hash_table fuel calls malloc (some f) p h =
      let ((file', h'), failed) = init_hash_pmem calls (size p.hash_table) (some f) h in
      let loaded : Run ((Heap glib × Option HashFile × Handles) × ℕ) = elim file' [
        | none ↦ fault
        | some f ↦ do
          (p, r) ← load_table fuel f p
          ok ((p, some f, (delete_hash_pmem calls h').0), r)
      ] in
      if malloc
      then (if failed == 0 then loaded else ok ((p, file', h'), 1))
      else ok ((p, some f, h), 1)
