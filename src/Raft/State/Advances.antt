-- ===== src/Raft/State/Advances.antt =====
-- state.rs: the term never falls, and a vote is never changed within its term.
use macro_service.Prelude.{ℕ, ◌+◌, ◌<◌, ◌≡◌, refl, ◌⊎◌, inr, Option, none, arith, u64_mod}
use macro_service.Raft.State.{
  PersistentState, RaftState, become_follower, become_candidate, become_leader,
}

-- `q` has a later term than `p`, or the same term and the same vote, if `p` had one.
abbrev pub Advances : PersistentState → PersistentState → Type 0
Advances p q =
    (p.current_term < q.current_term)
    ⊎ ((p.current_term ≡ q.current_term) × ((p.voted_for ≡ none) ⊎ (p.voted_for ≡ q.voted_for)))

pub Advances-refl : (p : PersistentState) → Advances p p
Advances-refl p = inr (refl, inr refl)

pub Advances-trans : (p q r : PersistentState) → Advances p q → Advances q r → Advances p r
Advances-trans p q r h k = ground arith

pub become_follower-Advances :
    (term : ℕ) (leader : Option ℕ) (s : RaftState)
    → Advances s.persistent (become_follower term leader s).persistent
unfolding become_follower
become_follower-Advances term leader s = ground arith

-- Below the largest `u64` an election starts in the next term, with a vote for the node itself.
pub become_candidate-Advances :
    (s : RaftState)
    → s.persistent.current_term + 1 < u64_mod
    → Advances s.persistent (become_candidate s).persistent
unfolding become_candidate
become_candidate-Advances s h = ground arith

pub become_leader-Advances : (s : RaftState) → Advances s.persistent (become_leader s).persistent
unfolding become_leader
become_leader-Advances s = inr (refl, inr refl)
