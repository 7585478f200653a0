-- ===== src/Persist/Mapping.antt =====
-- What project/hash_table.c (`init_hash_pmem`, `delete_hash_pmem`) and project/log_pmem.c (`init_pmem`)
-- hold of the operating system and of libpmem2 at a time, and the functions that let go of it.
use log_heap_pmem.Base.{Bool, true, false}

-- Whether each call succeeds.
pub record Calls : Type 0 where
  pub open_file : Bool
  pub truncate : Bool
  pub config_new : Bool
  pub set_granularity : Bool
  pub source_from_fd : Bool
  pub map_new : Bool
  pub source_delete : Bool
  pub config_delete : Bool
  pub map_delete : Bool
  pub close_file : Bool

-- What is held: the string of the path, the descriptor, the configuration, the source and the mapping.
-- Deleting what is NULL does nothing.
pub record Handles : Type 0 where
  pub path : Bool
  pub fd : Bool
  pub config : Bool
  pub source : Bool
  pub map : Bool

abbrev pub nothing_open : Handles
nothing_open = record { path = false; fd = false; config = false; source = false; map = false }

abbrev pub mapped : Handles
mapped = record { path = false; fd = true; config = false; source = false; map = true }

unfoldable pub err_config_hash : Handles → Handles
err_config_hash h = record h { fd = false }

unfoldable pub err_granularity_hash : Handles → Handles
unfolding err_config_hash
err_granularity_hash h = err_config_hash (record h { config = false })

unfoldable pub err_map_hash : Handles → Handles
unfolding err_granularity_hash
err_map_hash h = err_granularity_hash (record h { source = false })

unfoldable pub err_src_delete_hash : Handles → Handles
unfolding err_map_hash
err_src_delete_hash h = err_map_hash (record h { map = false })
