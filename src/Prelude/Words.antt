-- ===== src/Prelude/Words.antt =====
-- Machine words: `u64` addition as the release build computes it, modulo 2 ^ 64.
use Prim.Native.Nat.{ℕ, ◌+◌, ◌%◌, ◌^◌, ◌<◌}
use mathlib.Core.Path.{◌≡◌}
use native.Mathlib.Omega.{arith}

abbrev pub u64_mod : ℕ
u64_mod = 2 ^ 64

abbrev pub add64 : ℕ → ℕ → ℕ
add64 a b = (a + b) % u64_mod

-- With no overflow the sum is the sum of the numbers.
pub add64-eq_of_lt : (a b : ℕ) → a + b < u64_mod → add64 a b ≡ a + b
add64-eq_of_lt a b h = omega arith
