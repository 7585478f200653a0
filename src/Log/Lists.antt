-- ===== src/Log/Lists.antt =====
-- The segment lists of the log as lists of offsets, and what it means that the memory holds them.
use log_heap_pmem.Base.{
  ℕ, ◌+◌, ◌≤◌, ◌≡◌, ◌≢◌, sym, ◌∙◌, Bool, List, [], ◌∷◌, ◌++◌, ◌==◌, if◌then◌else◌, has,
}
use log_heap_pmem.Types.{Memory, Segments, LogEntry, Offset}
use log_heap_pmem.Types.Chain.{IsList, IsList-frame, Chain-unique}

pub record Lists : Type 0 where
  pub head : ℕ
  pub free : List ℕ
  pub used : List ℕ
  pub cleaner : List ℕ
  pub emergency : List ℕ

abbrev pub mark : Bool → ℕ
mark b = if b then 1 else 0

-- How often an offset occurs among the lists and the head; 0 (NULL) is no segment.
abbrev pub places : ℕ → Lists → ℕ
places a ls =
    mark (has a ls.free)
    + mark (has a ls.used)
    + mark (has a ls.cleaner)
    + mark (has a ls.emergency)
    + (if a == 0 then 1 else mark (a == ls.head))

-- The four lists run through memory as they should, and no segment is in two places.
pub record IsLog (m : Memory) (ls : Lists) : Type 0 where
  pub free : IsList m.segment m.log.free ls.free
  pub used : IsList m.segment m.log.used ls.used
  pub cleaner : IsList m.segment m.log.cleaner ls.cleaner
  pub emergency : IsList m.segment m.log.emergency ls.emergency
  pub head : m.log.head_segment ≡ ls.head
  pub head_next : ls.head ≢ 0 → (m.segment ls.head).next_segment ≡ 0
  pub apart : (a : ℕ) → places a ls ≤ 1

-- What an exchange of the head segment does to the lists.
unfoldable pub retire : Lists → Lists
retire ls = if ls.head == 0 then ls else record ls { head = 0; used = ls.used ++ ls.head ∷ [] }

unfoldable pub fetch_from : List ℕ → Lists → Lists × ℕ
fetch_from [] ls = (record ls { head = 0 }, 1)
fetch_from (f ∷ fs) ls = (record ls { head = f; free = fs }, 0)

abbrev pub fetch : Lists → Lists × ℕ
fetch ls = fetch_from ls.free ls

unfoldable pub exchange : Lists → Lists × ℕ
unfolding retire fetch_from
exchange ls = fetch (retire ls)

-- A result of the code holds the lists of a result of the specification, and reports the same code.
abbrev pub Matches : Memory × ℕ → Lists × ℕ → Type 0
Matches r s = IsLog r.0 s.0 × (r.1 ≡ s.1)

-- Fill levels, entries, the head position and the identifier counter do not matter to the lists.
pub IsLog-keep :
    (m : Memory) (ls : Lists) (segs : Segments) (entry : Offset → LogEntry) (position current : ℕ)
    → ((a : Offset) → (segs a).next_segment ≡ (m.segment a).next_segment)
    → IsLog m ls
    → IsLog
        (record m {
          segment = segs;
          entry = entry;
          log = record m.log { head_position = position; current_id = current };
        })
        ls
IsLog-keep m ls segs entry position current same is = record {
  free = IsList-frame m.segment segs m.log.free ls.free (λ a _. same a) is.free;
  used = IsList-frame m.segment segs m.log.used ls.used (λ a _. same a) is.used;
  cleaner = IsList-frame m.segment segs m.log.cleaner ls.cleaner (λ a _. same a) is.cleaner;
  emergency = IsList-frame m.segment segs m.log.emergency ls.emergency (λ a _. same a) is.emergency;
  head = is.head;
  head_next = λ ne. same ls.head ∙ is.head_next ne;
  apart = is.apart;
}

-- A memory holds one log.
pub IsLog-unique : (m : Memory) (ls ls' : Lists) → IsLog m ls → IsLog m ls' → ls ≡ ls'
IsLog-unique m ls ls' a b = cc (
  sym a.head ∙ b.head,
  Chain-unique m.segment m.log.free.first ls.free ls'.free a.free.chain b.free.chain,
  Chain-unique m.segment m.log.used.first ls.used ls'.used a.used.chain b.used.chain,
  Chain-unique m.segment m.log.cleaner.first ls.cleaner ls'.cleaner a.cleaner.chain b.cleaner.chain,
  Chain-unique m.segment m.log.emergency.first ls.emergency ls'.emergency a.emergency.chain
      b.emergency.chain,
)
