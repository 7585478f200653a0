-- ===== src/Pool/Fallback.antt =====
-- `init_pmem` (project/log_pmem.c) when the table's file is of no use.
use log_heap_pmem.Base.{
  ℕ, ◌≡◌, inl, inr, refl, ap, ◌∙◌, Bool, true, false, Option, none, some, ◌==◌, ok, ==_iff,
  Bool-cases,
}
use log_heap_pmem.Glib.{GHashTable}
use log_heap_pmem.Heap.{Heap}
use log_heap_pmem.Persist.{
  HashFile, init_hash_pmem, delete_hash_pmem, get_persisted_hash_table, load_table,
}
use log_heap_pmem.Persist.Mapping.{Calls, Handles, nothing_open, mapped}
use log_heap_pmem.Persist.Resources.{init_hash_pmem-handles}
use log_heap_pmem.Pool.{build_table, rebuild}
use log_heap_pmem.Pool.Reopen.{size-new, Maps}

module _ (glib : GHashTable) (calls : Calls) (malloc : Bool) where
  open glib use {new, size}

  -- Why the table is not taken from the file: there is none, memory is short, it cannot be mapped, or the
  -- last `persist_hash_table` did not come to its end.
  pub data Unusable : Option HashFile → Type 0 where
    missing : Unusable none
    short : (f : HashFile) → malloc ≡ false → Unusable (some f)
    unmapped :
        (f : HashFile)
        → malloc ≡ true
        → (init_hash_pmem calls 0 (some f) nothing_open).1 ≡ 1
        → Unusable (some f)
    unfinished :
        (f : HashFile)
        → malloc ≡ true
        → Maps calls 0 (some f)
        → f.meta.succesfully_persisted ≡ 0
        → Unusable (some f)

  module _ (fuel steps : ℕ) (p : Heap glib) (empty : p.hash_table ≡ new) where
    none_yet : size p.hash_table ≡ 0
    none_yet = ap size empty ∙ size-new glib

    get_persisted-fails :
        (file : Option HashFile)
        → Unusable file
        → (file' : Option HashFile) × (h : Handles) × (get_persisted_hash_table glib fuel calls
              malloc file p nothing_open
            ≡ ok ((p, file', h), 1))
    unfolding get_persisted_hash_table load_table
    get_persisted-fails _ missing = (none, nothing_open, refl)
    get_persisted-fails _ (short f fails) = (some f, nothing_open, rw fails)
    get_persisted-fails _ (unmapped f enough fails) =
        let run = init_hash_pmem calls 0 (some f) nothing_open in
        (run.0.0, run.0.1, rw (enough, none_yet, fails))
    get_persisted-fails _ (unfinished f enough maps flag) =
        let (_, e) = init_hash_pmem-handles calls 0 (some f) in
        let opened : init_hash_pmem calls 0 (some f) nothing_open ≡ ((some f, mapped), 0) =
          e ∙ rw maps in
        (
          some f,
          (delete_hash_pmem calls mapped).0,
          rw (
            enough,
            none_yet,
            opened,
            (==_iff f.meta.succesfully_persisted 0).1 flag,
            none_yet,
            opened,
          ),
        )

    -- With an empty table and a file that is missing or of no use, for whichever of the four reasons,
    -- the table after a regular termination is built exactly as after a crash: from the log.
    pub build_table-rebuild :
        (file : Option HashFile)
        → Unusable file
        → (file' : Option HashFile) × (build_table glib fuel steps calls malloc p file
            ≡ rebuild glib fuel steps p file')
    unfolding build_table
    build_table-rebuild file why =
        let (file', h, run) = get_persisted-fails file why in
        elim (Bool-cases (p.memory.log.regular_termination == 0)) [
          | inl crashed ↦ (file, rw crashed)
          | inr regular ↦ (file', rw (regular, run))
        ]
