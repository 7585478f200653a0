-- ===== src/Init.antt =====
-- project/log.c, `init_log` and `is_log_initialized`. The loop over the free segments runs on fuel, a
-- round for each segment; its counter `i` is an `int` that is compared with a `size_t`.
pub mod Rounds
pub mod Lists
pub mod Consistent
use log_heap_pmem.Base.{
  ℕ, zero, suc, ◌+◌, ◌*◌, Bool, none, some, List, [], ◌∷◌, ltb, if◌then◌else◌, Run, ok, fault,
  out_of_fuel, ◌>>=◌, ◌==◌, ◌&&◌, true, false,
}
use log_heap_pmem.Base.Words.{sub64, as_int}
use log_heap_pmem.Types.{
  Offset, Pointer, Segments, Memory, Log, segment_size, sizeof_log, emergency_cleaner_segment_count,
  pointer_to_offset, write, set_next,
}

-- "log is initialized" and the byte 0 behind it.
abbrev pub log_signature : List ℕ
log_signature =
    b'l' ∷ b'o' ∷ b'g' ∷ b' ' ∷ b'i' ∷ b's' ∷ b' ' ∷ b'i' ∷ b'n' ∷ b'i' ∷ b't' ∷ b'i' ∷ b'a' ∷ b'l'
    ∷ b'i' ∷ b'z' ∷ b'e' ∷ b'd' ∷ 0 ∷ []

-- `memcmp(a, b, n) == 0`
unfoldable pub same_bytes : List ℕ → List ℕ → Bool
same_bytes [] [] = true
same_bytes [] (y ∷ ys) = false
same_bytes (x ∷ xs) [] = false
same_bytes (x ∷ xs) (y ∷ ys) = x == y && same_bytes xs ys

unfoldable pub is_log_initialized : Memory → Bool
is_log_initialized m = same_bytes m.log.signature log_signature

-- The variables of the two loops: the segments, `curr_seg`, `prev_seg` and `seg_id`.
pub record Walk : Type 0 where
  pub segment : Segments
  pub curr : Offset
  pub prev : Pointer
  pub seg_id : ℕ

-- The body of both loops, with the increment of `seg_id`.
unfoldable pub init_segment : Walk → Walk
init_segment w =
    let next = w.curr + segment_size in
    record {
      segment =
          write w.segment w.curr (record { id = w.seg_id; next_segment = next; used_space = 0 });
      curr = next;
      prev = some w.curr;
      seg_id = as_int (w.seg_id + 1);
    }

-- `for(int i=0; i<limit; i+=SEGMENT_SIZE, seg_id++)`
unfoldable pub init_free_loop : ℕ → ℕ → ℕ → Walk → Run Walk
init_free_loop zero limit i w = out_of_fuel
init_free_loop (suc fuel) limit i w =
    let rest = init_free_loop fuel limit (as_int (i + segment_size)) (init_segment w) in
    if ltb i limit then rest else ok w

-- A loop over a constant number of segments.
unfoldable pub init_rounds : ℕ → Walk → Walk
init_rounds zero w = w
init_rounds (suc n) w = init_rounds n (init_segment w)

-- `prev_seg->next_segment = NULL`
unfoldable pub close : Walk → Run Walk
close w = elim w.prev [ none ↦ fault | some p ↦ ok (record w { segment = set_next w.segment p 0 }) ]

-- The first segment after the log header is taken as head segment, and the signature is written.
unfoldable pub init_lists : Memory → Walk → Walk → Memory
init_lists m free emergency =
    let head = sizeof_log in
    record m {
      segment = set_next emergency.segment head 0;
      log = record m.log {
        signature = log_signature;
        head_segment = head;
        free = record {
          first = (emergency.segment head).next_segment;
          last = pointer_to_offset free.prev;
        };
        used = record { first = 0; last = 0 };
        cleaner = record { first = 0; last = 0 };
        emergency = record { first = free.curr; last = pointer_to_offset emergency.prev };
        current_id = 0;
        head_position = 0;
        used_segments_count = 0;
        current_emergency_cleaner_segments_count = emergency_cleaner_segment_count;
      };
    }

unfoldable pub init_log : ℕ → ℕ → Memory → Run Memory
init_log fuel size m = do
  free ←
      init_free_loop fuel (sub64 size (segment_size * (emergency_cleaner_segment_count + 1))) 0
        (record { segment = m.segment; curr = sizeof_log; prev = none; seg_id = 0 })
  free ← close free
  emergency ← close (init_rounds emergency_cleaner_segment_count free)
  ok (init_lists m free emergency)
