-- ===== src/Persist/Resources.antt =====
-- What `init_hash_pmem` (project/hash_table.c) leaves open.
use log_heap_pmem.Base.{ℕ, ◌≡◌, arith, true, Option, some, ◌==◌, if◌then◌else◌}
use log_heap_pmem.Persist.{HashFile, existing, resize, bytes_for, init_hash_pmem, map_hash_file}
use log_heap_pmem.Persist.Mapping.{Calls, nothing_open, mapped}

pub map_hash_file-handles :
    (calls : Calls)
    → map_hash_file calls (record nothing_open { fd = true }) ≡ (
        if (map_hash_file calls (record nothing_open { fd = true })).1 == 0
        then (mapped, 0)
        else (nothing_open, 1))
unfolding map_hash_file
map_hash_file-handles calls = ground arith

-- From nothing open, whichever calls fail, `init_hash_pmem` either reports 0 with just the descriptor
-- and the mapping open, and the file is there with room for the table's pairs if the table has any;
-- or it reports 1 and nothing is open.
pub init_hash_pmem-handles :
    (calls : Calls) (n : ℕ) (file : Option HashFile)
    → (file' : Option HashFile) × (init_hash_pmem calls n file nothing_open ≡ (
        if (init_hash_pmem calls n file nothing_open).1 == 0
        then (
          (some (if n == 0 then existing file else resize (existing file) (bytes_for n)), mapped),
          0,
        )
        else ((file', nothing_open), 1)))
unfolding init_hash_pmem
init_hash_pmem-handles calls n file =
    ((init_hash_pmem calls n file nothing_open).0.0, ground (arith, map_hash_file-handles calls))
