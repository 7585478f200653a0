-- ===== src/Base/Words.antt =====
-- Machine integers of the program on a 64-bit target: `size_t` and `uint64_t` count modulo 2^64, and
-- an `int` that meets a `size_t` is read as its sign extension.
use Prim.Native.Nat.{ℕ, ◌+◌, ◌-◌, ◌%◌, ◌^◌, ◌<◌, ◌≤◌}
use mathlib.Core.Path.{◌≡◌}
use native.Mathlib.Omega.{arith}
use log_heap_pmem.Base.Tests.{ltb, if◌then◌else◌}

abbrev pub word : ℕ
word = 2 ^ 64

unfoldable pub add64 : ℕ → ℕ → ℕ
add64 a b = (a + b) % word

unfoldable pub sub64 : ℕ → ℕ → ℕ
sub64 a b = (a + (word - b % word)) % word

-- The value of an `int` variable to which `n` was assigned, where it is next used as a `size_t`.
unfoldable pub as_int : ℕ → ℕ
as_int n = if ltb (n % 2 ^ 32) (2 ^ 31) then n % 2 ^ 32 else n % 2 ^ 32 + (2 ^ 64 - 2 ^ 32)

pub add64_small : (a b : ℕ) → a + b < word → add64 a b ≡ a + b
unfolding add64
add64_small a b h = omega arith

pub sub64_small : (a b : ℕ) → b ≤ a → a < word → sub64 a b ≡ a - b
unfolding sub64
sub64_small a b h k = omega arith

pub as_int_small : (n : ℕ) → n < 2 ^ 31 → as_int n ≡ n
unfolding as_int
as_int_small n h = ground arith
