-- ===== src/Calculator.antt =====
-- server-rust/src/main.rs, `calculator_service`: the demo service. An `i32` is its bit pattern, a
-- number below 2 ^ 32, and is negative from 2 ^ 31 on; sums wrap as in a release build.
pub mod Primes
pub mod Sums
use macro_service.Prelude.{
  ℕ, zero, suc, ◌+◌, ◌-◌, ◌*◌, ◌^◌, ◌%◌, ◌≤◌, ◌<◌, ◌||◌, Bool, true, false, Option, none, some,
  List, [], ◌∷◌, ltb, leb, ◌==◌, if◌then◌else◌,
}

abbrev pub add32 : ℕ → ℕ → ℕ
add32 a b = (a + b) % 2 ^ 32

-- `(n as f64).sqrt() as i32`: a double holds an `i32` exactly, and its square root, correctly rounded,
-- keeps the whole part.
pub record Sqrt : Type 0 where
  pub sqrt : ℕ → ℕ
  pub floor : (n : ℕ) → n < 2 ^ 31 → (sqrt n * sqrt n ≤ n) × (n < (sqrt n + 1) * (sqrt n + 1))

-- The `k` rounds of the loop from `i` on.
unfoldable pub no_divisor : ℕ → ℕ → ℕ → Bool
no_divisor n i zero = true
no_divisor n i (suc k) = let rest = no_divisor n (i + 1) k in if n % i == 0 then false else rest

module _ (root : Sqrt) where
  unfoldable pub is_prime : ℕ → Bool
  unfolding no_divisor
  is_prime n = if ltb n 2 || leb (2 ^ 31) n then false else no_divisor n 2 (root.sqrt n + 1 - 2)

  -- The `k` rounds of the spawned task from `n` on; a receiver that is gone ends them early.
  unfoldable pub primes_from : ℕ → ℕ → List ℕ
  unfolding is_prime
  primes_from n zero = []
  primes_from n (suc k) = let rest = primes_from (n + 1) k in if is_prime n then n ∷ rest else rest

  unfoldable pub stream_primes : ℕ → List ℕ
  unfolding primes_from
  stream_primes limit = if leb (2 ^ 31) limit then [] else primes_from 2 (limit - 2)

-- `Calculator::add`
unfoldable pub add : ℕ → ℕ → ℕ
add a b = add32 a b

-- The stream gives numbers, or an error, which `?` passes on.
unfoldable pub sum_loop : List (Option ℕ) → ℕ → ℕ → Option (ℕ × ℕ)
sum_loop [] sum count = some (sum, count)
sum_loop (none ∷ rest) sum count = none
sum_loop (some n ∷ rest) sum count = sum_loop rest (add32 sum n) (add32 count 1)

unfoldable pub sum_stream : List (Option ℕ) → Option (ℕ × ℕ)
unfolding sum_loop
sum_stream numbers = sum_loop numbers 0 0
