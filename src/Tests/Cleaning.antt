-- ===== src/Tests/Cleaning.antt =====
-- The theorems on the cleaner's segments applied to small logs.
use log_heap_pmem.Base.{◌≡◌, refl, arith, [], ◌∷◌, ◌/◌, ◌==◌, if◌then◌else◌, ok}
use log_heap_pmem.Types.{Memory}
use log_heap_pmem.Cleaner.{
  get_new_cleaner_segment, append_all_cleaner_segments_to_used_segments,
  append_cleaner_segment_to_used_segments, append_cleaned_segment_to_free_segments, acquire,
}
use log_heap_pmem.Cleaner.Move.{append_cleaner_segment_to_used_segments-IsLog}
use log_heap_pmem.Cleaner.GiveBack.{give_back_lists, append_cleaned_segment-IsLog}
use log_heap_pmem.Cleaner.Supply.{get_new_cleaner_segment-acquire}
use log_heap_pmem.Cleaner.Release.{append_all_cleaner_segments-IsLog}
use log_heap_pmem.Log.Lists.{Lists, IsLog, Matches}
use log_heap_pmem.Tests.{small_memory, small_lists, small-IsLog, cleaning_memory}

get_new_cleaner_segment_example :
    Matches (get_new_cleaner_segment small_memory) (acquire (8320 ∷ []) small_lists)
get_new_cleaner_segment_example =
    get_new_cleaner_segment-acquire small_memory small_lists small-IsLog

abbrev cleaning_lists : Lists
cleaning_lists = record small_lists { cleaner = 12416 ∷ []; emergency = [] }

cleaning-IsLog : IsLog cleaning_memory cleaning_lists
cleaning-IsLog = record {
  free = small-IsLog.free;
  used = small-IsLog.used;
  cleaner = record { chain = (refl, ground arith, refl); last = refl; distinct = (refl, tt) };
  emergency = record { chain = refl; last = refl; distinct = tt };
  head = refl;
  head_next = λ ne. refl;
  apart = λ a. ground arith;
}

release_example :
    IsLog
      (append_all_cleaner_segments_to_used_segments cleaning_memory)
      (record cleaning_lists { used = 128 ∷ 12416 ∷ []; cleaner = [] })
release_example = append_all_cleaner_segments-IsLog cleaning_memory cleaning_lists cleaning-IsLog

abbrev numbered_memory : Memory
numbered_memory = record cleaning_memory {
  segment = λ a. record (cleaning_memory.segment a) { id = a / 4096 };
}

numbered-IsLog : IsLog numbered_memory cleaning_lists
numbered-IsLog = record {
  free = record { chain = (refl, ground arith, refl); last = refl; distinct = (refl, tt) };
  used = record { chain = (refl, ground arith, refl); last = refl; distinct = (refl, tt) };
  cleaner = record { chain = (refl, ground arith, refl); last = refl; distinct = (refl, tt) };
  emergency = record { chain = refl; last = refl; distinct = tt };
  head = refl;
  head_next = λ ne. refl;
  apart = λ a. ground arith;
}

move_example :
    (m : Memory) × (append_cleaner_segment_to_used_segments 1 numbered_memory 3 ≡ ok m)
    × IsLog m (record cleaning_lists { cleaner = []; used = 128 ∷ 12416 ∷ [] })
move_example =
    append_cleaner_segment_to_used_segments-IsLog numbered_memory cleaning_lists numbered-IsLog 3 []
      [] 12416 refl refl (λ a i. ground arith) (λ a i. ground arith) 1 (omega arith)

-- Two used segments, the second one of which was cleaned.
abbrev two_used_memory : Memory
two_used_memory = record numbered_memory {
  log = record numbered_memory.log {
    used = record { first = 128; last = 12416 };
    cleaner = record { first = 0; last = 0 };
  };
  segment =
      λ a. record (numbered_memory.segment a) { next_segment = if a == 128 then 12416 else 0 };
}

abbrev two_used_lists : Lists
two_used_lists = record cleaning_lists { used = 128 ∷ 12416 ∷ []; cleaner = [] }

two_used-IsLog : IsLog two_used_memory two_used_lists
two_used-IsLog = record {
  free = record { chain = (refl, ground arith, refl); last = refl; distinct = (refl, tt) };
  used = record {
    chain = (refl, ground arith, (refl, ground arith, refl));
    last = refl;
    distinct = (refl, (refl, tt));
  };
  cleaner = record { chain = refl; last = refl; distinct = tt };
  emergency = record { chain = refl; last = refl; distinct = tt };
  head = refl;
  head_next = λ ne. refl;
  apart = λ a. ground arith;
}

give_back_example :
    (m : Memory) × (append_cleaned_segment_to_free_segments 2 two_used_memory 3 ≡ ok m)
    × IsLog m (record two_used_lists { used = 128 ∷ []; free = 8320 ∷ 12416 ∷ [] })
unfolding give_back_lists
give_back_example =
    append_cleaned_segment-IsLog two_used_memory two_used_lists two_used-IsLog 3 (128 ∷ []) [] 12416
      refl refl (λ a i e. ground arith) (λ a i. ground arith) 2 (omega arith)
