-- ===== src/Base/Words.antt =====
-- Unsigned arithmetic that wraps, as in `uint64_t` counters and clocks.
use Prim.Native.Nat.{ℕ, ◌+◌, ◌-◌, ◌%◌, ◌^◌, ◌≤◌, ◌<◌}
use mathlib.Core.Path.{◌≡◌}
use native.Mathlib.Omega.{arith}

abbrev pub u64_mod : ℕ
u64_mod = 2 ^ 64

abbrev pub u32_mod : ℕ
u32_mod = 2 ^ 32

abbrev pub add64 : ℕ → ℕ → ℕ
add64 a b = (a + b) % u64_mod

abbrev pub sub64 : ℕ → ℕ → ℕ
sub64 a b = (a + u64_mod - b) % u64_mod

abbrev pub add32 : ℕ → ℕ → ℕ
add32 a b = (a + b) % u32_mod

-- On a clock that has not gone back, the wrapped difference is the elapsed time.
pub sub64_of_le : (a b : ℕ) → b ≤ a → a < u64_mod → sub64 a b ≡ a - b
sub64_of_le a b h r = omega arith
