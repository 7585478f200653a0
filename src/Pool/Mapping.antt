-- ===== src/Pool/Mapping.antt =====
-- project/log_pmem.c: how `init_pmem` maps the pool's file, and what it lets go of when a call fails.
use log_heap_pmem.Base.{ℕ, Bool, true, false, ltb, if◌then◌else◌}
use log_heap_pmem.Base.Words.{sub64}
use log_heap_pmem.Types.{sizeof_log, min_log_length}
use log_heap_pmem.Persist.Mapping.{Calls, Handles, nothing_open}

unfoldable pub err_config : Handles → Handles
err_config h = record h { fd = false; path = false }

unfoldable pub err_granularity : Handles → Handles
unfolding err_config
err_granularity h = err_config (record h { config = false })

unfoldable pub err_map : Handles → Handles
unfolding err_granularity
err_map h = err_granularity (record h { source = false })

unfoldable pub err_src_delete : Handles → Handles
unfolding err_map
err_src_delete h = err_map (record h { map = false })

-- `pmem->size`: the mapping without the log's header.
unfoldable pub pool_size : ℕ → ℕ
unfolding sub64
pool_size map_size = sub64 map_size sizeof_log

-- The part of `init_pmem` up to the size check; the result 1 is the failure.
unfoldable pub open_mapping : Calls → Bool → ℕ → Handles × ℕ
unfolding err_config err_granularity err_map err_src_delete pool_size
open_mapping calls malloc map_size =
    let opened = record nothing_open { fd = true } in
    let h = record opened { path = true } in
    if calls.open_file
    then if malloc
      then if calls.config_new
        then (let h = record h { config = true } in
            if calls.set_granularity
            then if calls.source_from_fd
              then (let h = record h { source = true } in
                  if calls.map_new
                  then (let h = record h { map = true } in
                      if ltb (pool_size map_size) min_log_length
                      then (err_src_delete h, 1)
                      else (h, 0))
                  else (err_map h, 1))
              else (err_granularity h, 1)
            else (err_granularity h, 1))
        else (err_config h, 1)
      else (opened, 1)
    else (nothing_open, 1)

-- The end of `init_pmem`: the source and the configuration go.
unfoldable pub let_go : Calls → Handles → Handles × ℕ
unfolding err_src_delete
let_go calls h =
    if calls.source_delete
    then (let h = record h { source = false } in
        if calls.config_delete then (record h { config = false }, 0) else (err_src_delete h, 1))
    else (err_src_delete h, 1)

-- The end of `delete_pmem`.
unfoldable pub unmap : Calls → Handles → Handles × ℕ
unmap calls h = (
  record h { map = false; fd = false; path = false },
  if calls.map_delete then (if calls.close_file then 0 else 1) else 1,
)
