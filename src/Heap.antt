-- ===== src/Heap.antt =====
-- project/log_pmem.c, `palloc`, `palloc_with_id`, `pfree`, `get_address` and `update_data`, over the
-- table operations of project/hash_table.c. Whether `malloc` succeeds is an argument.
pub mod Content
pub mod Stored
pub mod StoreEntry
pub mod Alloc
pub mod Update
pub mod Free
pub mod Flag
pub mod Flagged
pub mod History
use log_heap_pmem.Base.{
  ℕ, ◌+◌, ◌*◌, ◌/◌, Bool, true, false, List, none, some, ◌==◌, if◌then◌else◌, Run, ok, ◌>>=◌, take,
}
use log_heap_pmem.Base.Words.{add64, sub64}
use log_heap_pmem.Types.{
  Offset, Pointer, Memory, LogEntry, Pmem, segment_size, sizeof_log, sizeof_log_entry,
  offset_to_pointer, write, set_used_space, segment_of,
}
use log_heap_pmem.Glib.{GHashTable}
use log_heap_pmem.Id.{gen_id}
use log_heap_pmem.Log.{append_to_log}

-- `offsetof(log_entry_t, data)`
abbrev pub offsetof_data : ℕ
offsetof_data = 25

-- The entry at an offset no longer counts for its segment's fill level.
unfoldable pub release_space : Memory → Offset → Memory
release_space m off =
    let seg = segment_of off in
    record m {
      segment =
          set_used_space m.segment seg
            (sub64 (m.segment seg).used_space (add64 (m.entry off).length sizeof_log_entry));
    }

unfoldable pub mark_deleted : Memory → Offset → Memory
mark_deleted m off = record m { entry = write m.entry off (record (m.entry off) { to_delete = 1 }) }

-- The entry that `palloc` and `palloc_with_id` build.
unfoldable pub new_entry : ℕ → ℕ → List ℕ → LogEntry
new_entry id size bytes = record {
  id = id;
  version = 1;
  length = size;
  to_delete = 0;
  bytes = take size bytes;
}

-- The entry that `update_data` builds from the old one.
unfoldable pub updated_entry : LogEntry → ℕ → List ℕ → LogEntry
updated_entry e size bytes = record e {
  length = size;
  version = add64 e.version 1;
  bytes = take size bytes;
}

module _ (glib : GHashTable) where
  open glib use {Table, new, insert, remove, lookup, contains}

  abbrev pub Heap : Type 0
  Heap = Pmem Table

  unfoldable pub init_hash_table : Heap → Heap
  init_hash_table p = record p { hash_table = new }

  unfoldable pub add_to_hash_table : Heap → ℕ → Offset → Heap
  add_to_hash_table p id offset = record p { hash_table = insert p.hash_table id offset }

  unfoldable pub get_from_hash_table : Heap → ℕ → Offset
  get_from_hash_table p id = lookup p.hash_table id

  unfoldable pub remove_from_hash_table : Heap → ℕ → Heap
  remove_from_hash_table p id = record p { hash_table = remove p.hash_table id }

  unfoldable pub hash_table_contains : Heap → ℕ → Bool
  hash_table_contains p id = contains p.hash_table id

  -- An entry is appended and, if there was room, entered in the table under `id`.
  unfoldable pub store_entry : Heap → ℕ → LogEntry → Heap × Bool
  store_entry p id e =
      let (m, offset) = append_to_log p.memory e in
      let p = record p { memory = m } in
      if offset == 0 then (p, false) else (add_to_hash_table p id offset, true)

  -- The result 0 is the failure. `fuel` is for `gen_id`.
  unfoldable pub palloc : ℕ → Heap → Bool → ℕ → List ℕ → Run (Heap × ℕ)
  palloc fuel p malloc size bytes =
      if p.consistent == 0
      then ok (p, 0)
      else if size == 0
      then ok (p, 0)
      else if malloc
      then (do
        (id, current) ← gen_id fuel (hash_table_contains p) p.memory.log.current_id
        let p = record p {
          memory = record p.memory { log = record p.memory.log { current_id = current } };
        }
        let (p, stored) = store_entry p id (new_entry id size bytes)
        ok (p, if stored then id else 0))
      else ok (p, 0)

  -- The result 1 is the failure.
  unfoldable pub update_data : Heap → Bool → ℕ → List ℕ → ℕ → Heap × ℕ
  update_data p malloc id bytes size =
      if p.consistent == 0
      then (p, 1)
      else if size == 0
      then (p, 1)
      else if malloc
      then elim (offset_to_pointer (get_from_hash_table p id)) [
        | none ↦ (p, 1)
        | some off ↦
            let m = release_space p.memory off in
            let e = updated_entry (p.memory.entry off) size bytes in
            let (p, stored) = store_entry (record p { memory = m }) id e in
            (p, if stored then 0 else 1)
      ]
      else (p, 1)

  unfoldable pub palloc_with_id : Heap → Bool → ℕ → ℕ → List ℕ → Heap × ℕ
  palloc_with_id p malloc id size bytes =
      if p.consistent == 0
      then (p, 1)
      else if size == 0
      then (p, 1)
      else if hash_table_contains p id
      then update_data p malloc id bytes size
      else if malloc
      then (let (p, stored) = store_entry p id (new_entry id size bytes) in
          (p, if stored then 0 else 1))
      else (p, 1)

  unfoldable pub pfree : Heap → ℕ → Heap
  pfree p id = elim (offset_to_pointer (get_from_hash_table p id)) [
    | none ↦ p
    | some off ↦
        remove_from_hash_table (record p { memory = release_space (mark_deleted p.memory off) off })
          id
  ]

  unfoldable pub get_address : Heap → ℕ → Pointer
  get_address p id = elim (offset_to_pointer (get_from_hash_table p id)) [
    | none ↦ none
    | some off ↦ some (off + offsetof_data)
  ]
