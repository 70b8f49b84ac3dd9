-- ===== src/Calculator/Primes.antt =====
-- main.rs: which numbers `stream_primes` sends.
use native.Mathlib.Nat.{mul-mod_right, div-add-mod, mul-le-mul, mul_comm}
use macro_service.Prelude.{
  ℕ, zero, suc, ◌+◌, ◌-◌, ◌*◌, ◌/◌, ◌^◌, ◌%◌, ◌≤◌, ◌<◌, ◌≡◌, ◌≢◌, ◌⊎◌, ◌↔◌, inl, inr, refl, ap, ◌∙◌,
  true, List, [], ◌∷◌, arith, le-or-lt, Bool-cases, le→leb, lt→leb,
}
use macro_service.Calculator.{Sqrt, no_divisor, is_prime, primes_from, stream_primes}

-- A prime has no divisors but 1 and itself.
pub record IsPrime (n : ℕ) : Type 0 where
  pub large : 2 ≤ n
  pub only : (d m : ℕ) → d * m ≡ n → (d ≡ 1) ⊎ (d ≡ n)

no_divisor_sound : (n i k d : ℕ) → no_divisor n i k ≡ true → i ≤ d → d < i + k → n % d ≢ 0
unfolding no_divisor
no_divisor_sound n i zero d h low high e = omega arith
no_divisor_sound n i (suc k) d h low high e = elim (le-or-lt d i) [
  | inl here ↦ let same : d ≡ i = omega arith in let e' = rw same at e in ground arith
  | inr later ↦ no_divisor_sound n (i + 1) k d (ground arith) (omega arith) (omega arith) e
]

no_divisor_complete :
    (n i k : ℕ) → ((d : ℕ) → i ≤ d → d < i + k → n % d ≢ 0) → no_divisor n i k ≡ true
unfolding no_divisor
no_divisor_complete n i zero h = refl
no_divisor_complete n i (suc k) h =
    let rest = no_divisor_complete n (i + 1) k (λ d low high. h d (omega arith) (omega arith)) in
    let here = h i (omega arith) (omega arith) in ground arith

divides : (n d m : ℕ) → d * m ≡ n → n % d ≡ 0
divides n d m e = rw (← e) (mul-mod_right d m)

-- A factor above the root leaves a factor up to the root.
small_factor : (n s d m : ℕ) → n < (s + 1) * (s + 1) → d * m ≡ n → s < d → m ≤ s
small_factor n s d m below e big = elim (le-or-lt m s) [
  | inl small ↦ small
  | inr large ↦
      (let both : (s + 1) * (s + 1) ≤ d * m =
          mul-le-mul {n₁ = s + 1} {m₁ = s + 1} {n₂ = d} {m₂ = m} (omega arith) (omega arith) in
        absurd (omega arith))
]

module _ (root : Sqrt) (n : ℕ) where
  root_lt : 2 ≤ n → n < 2 ^ 31 → root.sqrt n < n
  root_lt large fits = elim (le-or-lt n (root.sqrt n)) [
    | inr small ↦ small
    | inl huge ↦
        (let square : n * n ≤ root.sqrt n * root.sqrt n =
            mul-le-mul {n₁ = n} {m₁ = n} {n₂ = root.sqrt n} {m₂ = root.sqrt n} huge huge in
          let double : 2 * n ≤ n * n =
            mul-le-mul {n₁ = 2} {m₁ = n} {n₂ = n} {m₂ = n} large (omega arith) in
          absurd (omega (arith, (root.floor n fits).0)))
  ]

  -- A factor up to the root is 1, where the loop found none.
  unit_factor :
      2 ≤ n
      → no_divisor n 2 (root.sqrt n + 1 - 2) ≡ true
      → (d m : ℕ) → d * m ≡ n
      → d ≤ root.sqrt n
      → d ≡ 1
  unit_factor large h zero m e small = absurd (grind arith)
  unit_factor large h (suc zero) m e small = refl
  unit_factor large h (suc (suc d)) m e small = absurd (
      no_divisor_sound n 2 (root.sqrt n + 1 - 2) (suc (suc d)) h (omega arith) (omega arith)
        (divides n (suc (suc d)) m e))

  sound :
      2 ≤ n
      → n < 2 ^ 31
      → no_divisor n 2 (root.sqrt n + 1 - 2) ≡ true
      → (d m : ℕ) → d * m ≡ n
      → (d ≡ 1) ⊎ (d ≡ n)
  sound large fits h d m e = elim (le-or-lt d (root.sqrt n)) [
    | inl small ↦ inl (unit_factor large h d m e small)
    | inr big ↦
        (let short = small_factor n (root.sqrt n) d m (root.floor n fits).1 e big in
          let one : m ≡ 1 = unit_factor large h m d (mul_comm m d ∙ e) short in
          inr (omega (arith, rw one at e)))
  ]

  complete : n < 2 ^ 31 → IsPrime n → no_divisor n 2 (root.sqrt n + 1 - 2) ≡ true
  complete fits p = no_divisor_complete n 2 (root.sqrt n + 1 - 2) λ d low high divided.
      elim (p.only d (n / d) (omega (arith, div-add-mod n d))) [
        | inl one ↦ omega arith
        | inr all ↦ omega (arith, root_lt p.large fits)
      ]

  -- The test by trial division up to the root finds exactly the primes among the numbers that are not
  -- negative.
  pub is_prime-IsPrime : (is_prime root n ≡ true) ↔ ((n < 2 ^ 31) × IsPrime n)
  unfolding is_prime
  is_prime-IsPrime = (
    (λ h.
        let large : 2 ≤ n = ground arith in
        let fits : n < 2 ^ 31 = ground arith in
        (fits, record { large = large; only = sound large fits (ground arith) })),
    λ h. let found = complete h.0 h.1 in let large = h.1.large in ground arith,
  )

abbrev pub IsIn : ℕ → List ℕ → Type 0
IsIn x [] = ⊥
IsIn x (y ∷ ys) = (x ≡ y) ⊎ IsIn x ys

-- Each number is above those before it.
abbrev pub IsIncreasing : ℕ → List ℕ → Type 0
IsIncreasing low [] = Unit
IsIncreasing low (x ∷ xs) = (low ≤ x) × IsIncreasing (x + 1) xs

module _ (root : Sqrt) where
  IsIncreasing-le :
      (low low' : ℕ) (xs : List ℕ) → low ≤ low' → IsIncreasing low' xs → IsIncreasing low xs
  IsIncreasing-le low low' [] h s = tt
  IsIncreasing-le low low' (x ∷ xs) h s = (omega arith, s.1)

  primes_from-IsIncreasing : (n k : ℕ) → IsIncreasing n (primes_from root n k)
  unfolding primes_from
  primes_from-IsIncreasing n zero = tt
  primes_from-IsIncreasing n (suc k) = elim (Bool-cases (is_prime root n)) [
    | inl prime ↦ rw prime (omega arith, primes_from-IsIncreasing (n + 1) k)
    | inr other ↦
        rw other (IsIncreasing-le n (n + 1) _ (omega arith) (primes_from-IsIncreasing (n + 1) k))
  ]

  IsIn-primes_from :
      (x n k : ℕ)
      → IsIn x (primes_from root n k) ↔ ((n ≤ x) × (x < n + k) × (is_prime root x ≡ true))
  unfolding primes_from
  IsIn-primes_from x n zero = ((λ h. absurd h), λ h. omega arith)
  IsIn-primes_from x n (suc k) =
      let (into, back) = IsIn-primes_from x (n + 1) k in
      elim (Bool-cases (is_prime root n)) [
        | inl prime ↦ rw prime (
          (λ h. elim h [
            | inl here ↦ (omega arith, omega arith, ap (is_prime root) here ∙ prime)
            | inr later ↦ let (low, high, p) = into later in (omega arith, omega arith, p)
          ]),
          λ h. elim (le-or-lt x n) [
            | inl here ↦ inl (omega arith)
            | inr later ↦ inr (back (omega arith, omega arith, h.2))
          ],
        )
        | inr other ↦ rw other (
          (λ h. let (low, high, p) = into h in (omega arith, omega arith, p)),
          λ h. elim (le-or-lt x n) [
            | inl here ↦
                (let same : x ≡ n = omega arith in
                  let p = h.2 in ground (arith, ap (is_prime root) same))
            | inr later ↦ back (omega arith, omega arith, h.2)
          ],
        )
      ]

  -- The stream holds exactly the primes below the limit, in increasing order, each once; with a
  -- negative limit it is empty.
  pub stream_primes-IsPrime :
      (limit x : ℕ)
      → (IsIn x (stream_primes root limit) ↔ ((limit < 2 ^ 31) × (x < limit) × IsPrime x))
        × IsIncreasing 2 (stream_primes root limit)
  unfolding stream_primes
  stream_primes-IsPrime limit x = elim (le-or-lt (2 ^ 31) limit) [
    | inl negative ↦ rw (le→leb (2 ^ 31) limit negative) (((λ h. absurd h), λ h. omega arith), tt)
    | inr positive ↦ rw (lt→leb (2 ^ 31) limit positive) (
        let (into, back) = IsIn-primes_from x 2 (limit - 2) in
        let (test, found) = is_prime-IsPrime root x in
        (
          (
            (λ h. let (low, high, p) = into h in (positive, omega arith, (test p).1)),
            λ h. back (h.2.large, omega (arith, h.2.large), found (omega arith, h.2)),
          ),
          primes_from-IsIncreasing 2 (limit - 2),
        ))
  ]
