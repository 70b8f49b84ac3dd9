-- ===== src/Calculator/Sums.antt =====
-- main.rs: what `sum_stream` answers.
use native.Mathlib.Nat.{zero-add}
use macro_service.Prelude.{
  ℕ, ◌+◌, ◌^◌, ◌%◌, ◌<◌, ◌≡◌, refl, Option, none, some, List, [], ◌∷◌, ◌++◌, map, arith, length,
}
use macro_service.Calculator.{add32, sum_loop, sum_stream}

abbrev pub total : List ℕ → ℕ
total [] = 0
total (x ∷ xs) = x + total xs

sum_loop-eq :
    (xs : List ℕ) (s c : ℕ)
    → s < 2 ^ 32
    → c < 2 ^ 32
    → sum_loop (map some xs) s c ≡ some ((s + total xs) % 2 ^ 32, (c + length xs) % 2 ^ 32)
unfolding sum_loop
sum_loop-eq [] s c hs hc = ground arith
sum_loop-eq (x ∷ xs) s c hs hc = ground (arith, sum_loop-eq xs (add32 s x) (add32 c 1))

sum_loop-none :
    (xs : List ℕ) (rest : List (Option ℕ)) (s c : ℕ)
    → sum_loop (map some xs ++ none ∷ rest) s c ≡ none
unfolding sum_loop
sum_loop-none [] rest s c = refl
sum_loop-none (x ∷ xs) rest s c = sum_loop-none xs rest (add32 s x) (add32 c 1)

-- Numbers without an error are summed and counted as their true sum and count, taken into 32 bits
-- once at the end; an error
-- in the stream, wherever it comes, is the answer.
pub sum_stream_lem :
    (xs : List ℕ) (rest : List (Option ℕ))
    → (sum_stream (map some xs) ≡ some (total xs % 2 ^ 32, length xs % 2 ^ 32))
      × (sum_stream (map some xs ++ none ∷ rest) ≡ none)
unfolding sum_stream
sum_stream_lem xs rest = (
  rw (← zero-add (total xs), ← zero-add (length xs))
      (sum_loop-eq xs 0 0 (omega arith) (omega arith)),
  sum_loop-none xs rest 0 0,
)
