-- ===== src/Cluster/Memory.antt =====
-- What a node remembers, in memory or on its disk, of the votes it gave.
use macro_service.Prelude.{
  ℕ, ◌≡◌, ◌≢◌, inl, inr, true, some, List, ◌∷◌, arith, sym, Bool-cases, ◌==◌, ==_iff,
}
use macro_service.Raft.State.{PersistentState}
use macro_service.Raft.State.Advances.{Advances, Advances-refl, Advances-trans}
use macro_service.Raft.Node.{Node}
use macro_service.Raft.Messages.{VoteRequest}
use macro_service.Raft.Log.{LogStore}
use macro_service.Cluster.{Grant, has, Run, put}
use macro_service.Cluster.Votes.{has_cons}

abbrev pub ballot : ℕ → ℕ → PersistentState
ballot t c = record { current_term = t; voted_for = some c }

-- A node that has `p` as its term and its vote gave no vote that contradicts it.
abbrev pub Remembers : List Grant → ℕ → PersistentState → Type 0
Remembers g v p = (t c : ℕ) → has g v t c ≡ true → Advances (ballot t c) p

pub Remembers-Advances :
    (g : List Grant) (v : ℕ) (p q : PersistentState)
    → Remembers g v p
    → Advances p q
    → Remembers g v q
Remembers-Advances g v p q h k t c e = Advances-trans _ p q (h t c e) k

-- The vote of the newest state joins the ones given before.
pub Remembers-here :
    (g : List Grant) (v : ℕ) (req : VoteRequest) (log : LogStore) (p : PersistentState)
    → Remembers g v p
    → Advances p (ballot req.term req.candidate_id)
    → Remembers ((v, req, log) ∷ g) v (ballot req.term req.candidate_id)
Remembers-here g v req log p h k t' c' e = elim (has_cons (v, req, log) g v t' c' e) [
  | inl new ↦ rw (sym new.1, sym new.2) (Advances-refl (ballot req.term req.candidate_id))
  | inr old ↦ Remembers-Advances g v p (ballot req.term req.candidate_id) h k t' c' old
]

pub Remembers-elsewhere :
    (g : List Grant) (i v : ℕ) (req : VoteRequest) (log : LogStore) (p : PersistentState)
    → i ≢ v
    → Remembers g v p
    → Remembers ((i, req, log) ∷ g) v p
Remembers-elsewhere g i v req log p other h t' c' e = elim (has_cons (i, req, log) g v t' c' e) [
  | inl new ↦ absurd (other new.0)
  | inr old ↦ h t' c' old
]

-- A vote that agrees with the memory agrees with each vote of its term.
pub Remembers-agrees :
    (g : List Grant) (v t c d : ℕ) (p : PersistentState)
    → Remembers g v p
    → Advances p (ballot t c)
    → has g v t d ≡ true
    → c ≡ d
Remembers-agrees g v t c d p h k e = ground (arith, Advances-trans _ p _ (h t d e) k)

pub put_cases {ℓ} :
    {D : Type 0} (P : ℕ → Node D → Type ℓ) (i : ℕ) (m : Node D) (r : Run D) (v : ℕ)
    → P i m
    → (i ≢ v → P v (r.nodes v))
    → P v ((put i m r).nodes v)
put_cases P i m r v here there = elim (Bool-cases (i == v)) [
  | inl same ↦ rw (same, sym ((==_iff i v).0 same)) here
  | inr other ↦ rw other (there (ground (arith, other)))
]
