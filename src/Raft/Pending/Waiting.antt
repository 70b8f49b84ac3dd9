-- ===== src/Raft/Pending/Waiting.antt =====
-- pending.rs: who waits, and who is woken.
use macro_service.Prelude.{
  ℕ, ◌≤◌, ◌≡◌, ◌⊎◌, inl, inr, not, Option, none, some, List, [], ◌∷◌, map, arith, leb, ◌==◌,
  if◌then◌else◌, retain, Bool-cases,
}
use macro_service.Raft.Pending.{PendingRequests, register, notify_committed}

-- The notify that waits for an index.
abbrev pub find : ℕ → List (ℕ × ℕ) → Option ℕ
find i [] = none
find i ((j, t) ∷ rs) = if j == i then some t else find i rs

abbrev pub waiting : PendingRequests → ℕ → Option ℕ
waiting p i = find i p.requests

abbrev pub IsIn : ℕ → List ℕ → Type 0
IsIn t [] = ⊥
IsIn t (u ∷ us) = (t ≡ u) ⊎ IsIn t us

find-retain_ne :
    (i j : ℕ) (rs : List (ℕ × ℕ))
    → find j (retain (λ r. not (r.0 == i)) rs) ≡ (if i == j then none else find j rs)
unfolding retain
find-retain_ne i j [] = ground arith
find-retain_ne i j ((k, t) ∷ rs) = ground (arith, find-retain_ne i j rs)

find-retain_above :
    (c j : ℕ) (rs : List (ℕ × ℕ))
    → find j (retain (λ r. not (leb r.0 c)) rs) ≡ (if leb j c then none else find j rs)
unfolding retain
find-retain_above c j [] = ground arith
find-retain_above c j ((k, t) ∷ rs) = ground (arith, find-retain_above c j rs)

-- After a registration the index waits on the new notify, and the others as before.
pub waiting-register :
    (p : PendingRequests) (i t j : ℕ)
    → waiting (register i t p) j ≡ (if i == j then some t else waiting p j)
unfolding register
waiting-register p i t j = ground (arith, find-retain_ne i j p.requests)

-- After a commit nobody waits at or below it, and the others wait on.
pub waiting-notify_committed :
    (p : PendingRequests) (c j : ℕ)
    → waiting (notify_committed c p).0 j ≡ (if leb j c then none else waiting p j)
unfolding notify_committed
waiting-notify_committed p c j = find-retain_above c j p.requests

woken_of :
    (c j t : ℕ) (rs : List (ℕ × ℕ))
    → find j rs ≡ some t
    → j ≤ c
    → IsIn t (map (λ r. r.1) (retain (λ r. leb r.0 c) rs))
unfolding retain
woken_of c j t [] e h = cc
woken_of c j t ((k, u) ∷ rs) e h = elim (Bool-cases (leb k c)) [
  | inl below ↦ rw below (elim (Bool-cases (k == j)) [
    | inl here ↦ inl (ground arith)
    | inr there ↦ inr (woken_of c j t rs (ground arith) h)
  ])
  | inr above ↦ rw above (woken_of c j t rs (ground arith) h)
]

-- Whoever waits at or below a commit is woken by it.
pub woken-notify_committed :
    (p : PendingRequests) (c j t : ℕ)
    → waiting p j ≡ some t
    → j ≤ c
    → IsIn t (notify_committed c p).1
unfolding notify_committed
woken-notify_committed p c j t e h = woken_of c j t p.requests e h
