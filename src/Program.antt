-- ===== src/Program.antt =====
-- project/main.c: the functions that print the lists of segments, and `random_string`. What is printed
-- is returned.
pub mod Dump
pub mod Text
pub mod Main
use log_heap_pmem.Base.{
  ℕ, zero, suc, ◌+◌, ◌-◌, ◌%◌, ltb, none, some, List, [], ◌∷◌, Run, ok, fault, out_of_fuel, ◌>>=◌,
  if◌then◌else◌,
}
use log_heap_pmem.Types.{Offset, Memory, Segments, offset_to_pointer, write}

-- The identifiers of the segments from `p` on.
unfoldable pub dump_seg_ids : ℕ → Segments → Offset → Run (List ℕ)
dump_seg_ids zero segs p = out_of_fuel
dump_seg_ids (suc fuel) segs p =
    let rest = dump_seg_ids fuel segs (segs p).next_segment in
    elim (offset_to_pointer p) [ none ↦ ok [] | some s ↦ rest >>= λ ids. ok ((segs s).id ∷ ids) ]

-- The identifier of a list's last segment; NULL is not tested for.
unfoldable pub dump_last_id : Segments → Offset → Run ℕ
dump_last_id segs p = elim (offset_to_pointer p) [ none ↦ fault | some s ↦ ok (segs s).id ]

unfoldable pub dump_free_seg_ids : ℕ → Memory → Run (List ℕ × ℕ)
dump_free_seg_ids fuel m = do
  ids ← dump_seg_ids fuel m.segment m.log.free.first
  last ← dump_last_id m.segment m.log.free.last
  ok (ids, last)

unfoldable pub dump_used_seg_ids : ℕ → Memory → Run (List ℕ × ℕ)
dump_used_seg_ids fuel m = do
  ids ← dump_seg_ids fuel m.segment m.log.used.first
  last ← dump_last_id m.segment m.log.used.last
  ok (ids, last)

unfoldable pub dump_head_seg_ids : ℕ → Memory → Run (List ℕ)
dump_head_seg_ids fuel m = dump_seg_ids fuel m.segment m.log.head_segment

unfoldable pub dump_cleaner_seg_ids : ℕ → Memory → Run (List ℕ)
dump_cleaner_seg_ids fuel m = dump_seg_ids fuel m.segment m.log.cleaner.first

unfoldable pub dump_emergency_cleaner_seg_ids : ℕ → Memory → Run (List ℕ × ℕ)
dump_emergency_cleaner_seg_ids fuel m = do
  ids ← dump_seg_ids fuel m.segment m.log.emergency.first
  last ← dump_last_id m.segment m.log.emergency.last
  ok (ids, last)

-- `chars`: the small letters, the capital letters and the digits.
unfoldable pub chars : ℕ → ℕ
chars i = if ltb i 26 then 97 + i else if ltb i 52 then 65 + (i - 26) else 48 + (i - 52)

-- The loop of `random_string`: so many characters from the index `i` on.
unfoldable pub random_chars : (ℕ → ℕ) → ℕ → ℕ → (ℕ → ℕ) → ℕ → ℕ
random_chars rand zero i dest = dest
random_chars rand (suc n) i dest = random_chars rand n (suc i) (write dest i (chars (rand i % 62)))

-- `rand` gives the result of each call of `rand()`; `dest` is the memory behind the pointer.
unfoldable pub random_string : (ℕ → ℕ) → (ℕ → ℕ) → ℕ → ℕ → ℕ
random_string rand dest zero = dest
random_string rand dest (suc n) = write (random_chars rand n 0 dest) n 0
