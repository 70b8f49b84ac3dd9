-- ===== src/Raft/Election/Majority.antt =====
-- election.rs: what the vote loops count, and that two majorities of a cluster meet.
use macro_service.Prelude.{
  ℕ, ◌+◌, ◌≤◌, ◌<◌, ◌≡◌, ◌≢◌, ◌⊎◌, ◌↔◌, inl, inr, refl, true, Option, none, some, List, [], ◌∷◌,
  arith, ◌==◌, if◌then◌else◌, length, String, add64, ap, le-or-lt, lt→ltb, le→ltb, ◌∙◌,
}
use macro_service.Raft.State.{is_leader, majority_of}
use macro_service.Raft.Storage.{Storage}
use macro_service.Raft.Messages.{VoteRequest, VoteResponse}
use macro_service.Raft.Node.{Node}
use macro_service.Raft.Election.{
  Rpc, Peers, granted_by, count_votes, higher_term, votes_received, collect_votes, vote_request,
  undisturbed, save_in_gap, start_real_election, term_of,
}
use native.Mathlib.Nat.{add_assoc}
use native.Mathlib.Decide.{ℕ_discrete}

-- How many peers grant the request.
abbrev pub grants {ℓ} : {Q : Type ℓ} → (String → Q → Option VoteResponse) → Q → Peers → ℕ
grants rpc req [] = 0
grants rpc req ((peer, addr) ∷ peers) = granted_by (rpc addr req) + grants rpc req peers

pub count_votes-eq {ℓ} :
    {Q : Type ℓ} (rpc : String → Q → Option VoteResponse) (req : Q) (peers : Peers) (v : ℕ)
    → count_votes rpc req peers v ≡ v + grants rpc req peers
unfolding count_votes
count_votes-eq rpc req [] v = omega arith
count_votes-eq rpc req ((peer, addr) ∷ peers) v =
    omega (arith, count_votes-eq rpc req peers (v + granted_by (rpc addr req)))

pub granted_by_le : (r : Option VoteResponse) → granted_by r ≤ 1
granted_by_le none = omega arith
granted_by_le (some r) = ground arith

-- A vote is one vote at most.
pub grants-le-length {ℓ} :
    {Q : Type ℓ} (rpc : String → Q → Option VoteResponse) (req : Q) (peers : Peers)
    → grants rpc req peers ≤ length peers
grants-le-length rpc req [] = omega arith
grants-le-length rpc req ((peer, addr) ∷ peers) =
    omega (arith, granted_by_le (rpc addr req), grants-le-length rpc req peers)

-- Some peer answers with a term above the request's.
abbrev pub Behind : Rpc VoteRequest VoteResponse → VoteRequest → Peers → Type 0
Behind rpc req [] = ⊥
Behind rpc req ((peer, addr) ∷ peers) =
    ((a : VoteResponse) × (rpc addr req ≡ some a) × (req.term < a.term)) ⊎ Behind rpc req peers

answer_of :
    (t : ℕ) (o r : Option VoteResponse)
    → o ≡ r
    → t < term_of r
    → (a : VoteResponse) × (o ≡ some a) × (t < a.term)
answer_of t o none e h = absurd (omega arith)
answer_of t o (some a) e h = (a, e, h)

term_of-le :
    (t : ℕ) (o : Option VoteResponse)
    → term_of o ≤ t
    → ¬ ((a : VoteResponse) × (o ≡ some a) × (t < a.term))
term_of-le t o h (a, e, k) = ground (arith, ap term_of e)

-- The loop of the real election stops early exactly where a peer answers with a higher term, and
-- that term is the one it reports; otherwise it counts the grants.
pub collect_votes_lem :
    (rpc : Rpc VoteRequest VoteResponse) (req : VoteRequest) (peers : Peers) (v : ℕ)
    → (((t : ℕ) × (collect_votes rpc req peers v ≡ higher_term t) × (req.term < t))
        × Behind rpc req peers)
      ⊎ ((collect_votes rpc req peers v ≡ votes_received (v + grants rpc req peers))
          × (¬ Behind rpc req peers))
unfolding collect_votes
collect_votes_lem rpc req [] v = inr (ground arith, λ b. b)
collect_votes_lem rpc req ((peer, addr) ∷ peers) v =
    let o = rpc addr req in
    elim (le-or-lt (term_of o) req.term) [
      | inr h ↦
          inl
            ((term_of o, rw (lt→ltb _ _ h, collect_votes), h), inl (answer_of req.term o o refl h))
      | inl h ↦ elim (collect_votes_lem rpc req peers (v + granted_by o)) [
        | inl early ↦
            inl ((early.0.0, rw (le→ltb _ _ h, collect_votes) early.0.1, early.0.2), inr early.1)
        | inr all ↦ inr (
          rw (le→ltb _ _ h, collect_votes)
              (all.0 ∙ ap votes_received (add_assoc v (granted_by o) (grants rpc req peers))),
          λ b. elim b [ inl here ↦ term_of-le req.term o h here | inr later ↦ all.1 later ],
        )
      ]
    ]

-- Two majorities of a cluster of `n` peers and the node itself overlap.
pub majorities_overlap : (n a b : ℕ) → majority_of n ≤ a → majority_of n ≤ b → n + 1 < a + b
majorities_overlap n a b h k = omega arith

abbrev votes_of : ℕ → List ℕ → ℕ
votes_of c [] = 0
votes_of c (v ∷ votes) = (if v == c then 1 else 0) + votes_of c votes

votes_of-add :
    (c d : ℕ) (votes : List ℕ) → c ≢ d → votes_of c votes + votes_of d votes ≤ length votes
votes_of-add c d [] h = omega arith
votes_of-add c d (v ∷ votes) h = ground (arith, votes_of-add c d votes h)

-- Where every node of a cluster of `n` peers and one more gives one vote, two candidates with a
-- majority each are one candidate.
pub one_winner :
    (n c d : ℕ) (votes : List ℕ)
    → length votes ≡ n + 1
    → majority_of n ≤ votes_of c votes
    → majority_of n ≤ votes_of d votes
    → c ≡ d
one_winner n c d votes e h k = elim (ℕ_discrete c d) [
  | yes same ↦ same
  | no other ↦ absurd (omega (arith, votes_of-add c d votes other))
]

module _ {D : Type 0} (storage : Storage D) (rpc : Rpc VoteRequest VoteResponse) (peers : Peers)
    (n : Node D) where
  -- The request that the node sends after its vote for itself.
  abbrev pub own_request : VoteRequest
  own_request = vote_request (add64 n.state.persistent.current_term 1) n.state.node_id n.log

  -- With no other task at work, an election makes the node a leader exactly if no peer answers with
  -- a higher term and the grants, with its own vote, are a majority.
  pub start_real_election-leader :
      (is_leader (start_real_election storage rpc peers undisturbed n).state.role ≡ true) ↔ (
        (¬ Behind rpc own_request peers)
        × (majority_of (length peers) ≤ 1 + grants rpc own_request peers))
  unfolding start_real_election save_in_gap
  start_real_election-leader = elim (collect_votes_lem rpc own_request peers 1) [
    | inl early ↦ ((λ h. ground (arith, early.0.1)), (λ h. absurd (h.0 early.1)))
    | inr all ↦ ((λ h. (all.1, ground (arith, all.0))), (λ h. ground (arith, all.0)))
  ]

  -- With no other task at work, a node that wins an election leads in the next term, with its own
  -- vote.
  pub start_real_election-term :
      is_leader (start_real_election storage rpc peers undisturbed n).state.role ≡ true
      → (start_real_election storage rpc peers undisturbed n).state.persistent ≡ record {
        current_term = add64 n.state.persistent.current_term 1;
        voted_for = some n.state.node_id;
      }
  unfolding start_real_election save_in_gap
  start_real_election-term h = elim (collect_votes_lem rpc own_request peers 1) [
    | inl early ↦ ground (arith, early.0.1)
    | inr all ↦ ground (arith, all.0)
  ]
