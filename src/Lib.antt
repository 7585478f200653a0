-- ===== src/Lib.antt =====
-- The log-structured heap for persistent memory (project/): objects with identifiers are appended as
-- entries to the segments of a log, a hash table leads from an identifier to its newest entry, a
-- cleaner copies live entries out of sparse segments, and after a crash the table is built again
-- from the log.
--
-- The program's parts and the files that model them:
--   Types, Types/Chain   project/log_pmem_types.h: the structs, and lists of segments in memory
--   Glib                 GLib's GHashTable, a parameter with laws (Glib/Assoc is one instance)
--   Id                   project/log.c gen_id
--   Log                  project/log.c append_to_log and the exchange of the head segment
--   Init, Consistency    project/log.c init_log, is_log_initialized, check_consistency
--   Store                where live entries lie in the segments, for append_to_log
--   Flush                the order of the flushes in append_to_log, in the exchange of the head segment,
--                        in update_data and in pfree
--   Heap                 project/log_pmem.c palloc, palloc_with_id, update_data, pfree, get_address
--   Recovery             project/hash_table.c reconstruct_hash_table
--   Cleaner              project/cleaner.c, where its segments come from and go to
--   Cleaning             project/cleaner.c clean, init_cleaner and the marks of the segments in work
--   Persist              project/hash_table.c, the copy of the table in a file of its own
--   Pool                 project/log_pmem.c init_pmem, delete_pmem
--   Program              project/main.c
--   Tests                small heaps and pools and the results at them
--
-- How they interact. The client's operations (Heap) append entries (Log) and keep the table; the
-- cleaner (Cleaning) copies entries into its own segments, enters the copies in the same table and
-- moves segments between the lists (Cleaner); opening a pool (Pool) writes or checks the log (Init,
-- Consistency), builds the table from the file (Persist) or from the log (Recovery), and starts the
-- cleaner's threads; closing it writes the table's file.
--
-- Memory. The mapping is a typed heap: a pointer is an offset from the start of the log, 0 is NULL,
-- and a read at an offset gives a segment header or a log entry with its data. That entries do not
-- overlap is not built in: it is part of the invariants (Store.IsPlaced, Store.Apart). The sizes of
-- the structs are those of a 64-bit target: 128, 24 and 32 bytes, the data of an entry at byte 25.
-- The fields first and last of a SegmentList are the pairs x_segments and last_x_segment of log_t.
-- size_t and uint64_t wrap at 2 ^ 64 (add64, sub64), int at 2 ^ 31 (as_int).
--
-- State. Memory is the log in the mapping, Pmem adds the size, the two hash tables and the flag
-- consistent. Each function takes the state and returns the new one with its result; a loop that
-- need not end, or a NULL that is dereferenced, gives a Run. A failed malloc is a Boolean argument, and
-- Persist.Mapping.Calls has one for each call of the operating system and of libpmem2. Handles is what
-- these calls have given and is not yet given back. The table's file is its header, an array of
-- pairs and a size; a pair outside the file is a fault.
--
-- Fuel. gen_id has a round for each identifier that it tries, init_log one for each segment,
-- check_consistency one for each segment of a list, reconstruct_hash_table one for each segment of
-- a list and one for each entry of a segment, clean_entries one for each entry, the search for a
-- segment one for each segment of the list. Each result gives the fuel that is enough.
--
-- Views. Log.Lists.Lists is the log as lists of segments, IsLog says that the memory holds them and
-- that no segment is in two places. Heap.Content.Content is a map from identifiers to bytes, read the
-- one that a client sees through get_address. Heap.History has whole sequences of calls.
--
-- Threads. Cleaning has one thread's run over a segment between two steps of anyone else; a wait
-- for a free segment is a loop on fuel. Cleaning.Interleaved has a client's calls and the entries
-- that one thread cleans in any order, each a step: update_data, pfree and the work on an entry
-- hold update_move_mutex. palloc, and palloc_with_id with a new identifier, hold no mutex and are
-- not among these calls. The calls that move a segment between the lists are steps, too.
-- Cleaning.Marks has the steps of any number of threads at the hash table of the marks, with
-- curr_cleaned_mutex: test_and_set_curr_cleaned holds it, unset_curr_cleaned does not. GLib's table
-- may not be used by two threads at once, so a run ends at the first such overlap; Cleaning.Overlap
-- reaches one. init_cleaner has what the threads do between its looks at the heap as an argument;
-- init_pmem is taken before their first step. Cleaning.Invariant.IsCleanable is IsHeap with
-- segments of distinct identifiers and no live entry in an emergency segment, Owns says where a
-- thread writes.
--
-- Crashes. Everywhere but in Flush a store is durable at once. Flush has the memories that the
-- medium may hold between the flushes of an append, an exchange, update_data and pfree; a torn copy
-- is any entry in its place, the log's fields are flushed as one.
--
-- Not modelled: the flushes of init_log and of the cleaner, the mutexes but for curr_cleaned_mutex
-- (elsewhere a function is one step), two cleaner threads that copy entries at once, the cancelling
-- of the threads (terminate_cleaner), whether the allocations succeed that the code does not test
-- (the path in project/hash_table.c, a thread's argument in project/cleaner.c), the programs
-- project/test*.c, and benchmark/, a copy of another project.
pub mod Base
pub mod Types
pub mod Glib
pub mod Id
pub mod Log
pub mod Init
pub mod Consistency
pub mod Flush
pub mod Heap
pub mod Cleaner
pub mod Cleaning
pub mod Persist
pub mod Pool
pub mod Program
pub mod Recovery
pub mod Store
pub mod Tests
