-- ===== src/Types/Ids.antt =====
-- The identifiers of segments under stores to their other fields.
use log_heap_pmem.Base.{ℕ, ◌≡◌, arith}
use log_heap_pmem.Types.{Offset, Segments, set_next, set_used_space}

-- The segments of both memories have the same identifiers.
abbrev pub SameIds : Segments → Segments → Type 0
SameIds f g = (a : Offset) → (g a).id ≡ (f a).id

pub set_next-ids : (f : Segments) (x q : Offset) → SameIds f (set_next f x q)
unfolding set_next
set_next-ids f x q a = ground arith

pub set_used_space-ids : (f : Segments) (x : Offset) (n : ℕ) → SameIds f (set_used_space f x n)
unfolding set_used_space
set_used_space-ids f x n a = ground arith
