-- ===== src/Raft/Election/Wins.antt =====
-- election.rs on both sides of the network: an election whose peers are the voters of this code.
use macro_service.Prelude.{
  ℕ, ◌+◌, ◌≤◌, ◌<◌, ◌≡◌, ◌⊎◌, inl, inr, refl, ap, Bool, true, false, Option, none, some, [], ◌∷◌,
  arith, add64, length, String, if◌then◌else◌, le→ltb, All,
}
use macro_service.Raft.State.{is_leader, majority_of}
use macro_service.Raft.Storage.{Storage}
use macro_service.Raft.Messages.{VoteRequest, VoteResponse}
use macro_service.Raft.Node.{Node, Handled, returns, deadlocks}
use macro_service.Raft.Election.{
  Rpc, Peers, term_of, count_votes, vote_request, undisturbed, save_in_gap, log_is_up_to_date,
  adopt_term, vote_for, handle_pre_vote, handle_request_vote, start_election,
}
use macro_service.Raft.Election.Majority.{
  grants, count_votes-eq, Behind, start_real_election-leader, start_real_election-term,
}

-- A handler that hangs gives no answer.
abbrev answer_of : {D : Type 0} → Handled (Node D) VoteResponse → Option VoteResponse
answer_of (returns m a) = some a
answer_of (deadlocks m) = none

module _ {D : Type 0} (storage : Storage D) (up : String → Bool) (nodes : String → Node D) where
  -- The network to the nodes at the addresses that are up.
  abbrev pub request_votes : Rpc VoteRequest VoteResponse
  request_votes addr req =
      if up addr then answer_of (handle_request_vote storage undisturbed req (nodes addr)) else none

  abbrev pub pre_votes : Rpc VoteRequest VoteResponse
  pre_votes addr req = if up addr then some (handle_pre_vote req (nodes addr)).1 else none

  -- A node that can vote for the candidate: it is behind the term of the request, does not lead, and
  -- its log is not newer.
  pub record IsWilling (req : VoteRequest) (p : ℕ × String) : Type 0 where
    pub behind : (nodes p.1).state.persistent.current_term < req.term
    pub no_leader : is_leader (nodes p.1).state.role ≡ false
    pub up_to_date : log_is_up_to_date req (nodes p.1).log ≡ true

  -- Each peer is down or can vote.
  abbrev pub WillingOrDown : VoteRequest → ℕ × String → Type 0
  WillingOrDown req p = (up p.1 ≡ false) ⊎ IsWilling req p

  abbrev pub count_up : Peers → ℕ
  count_up [] = 0
  count_up ((id, addr) ∷ peers) = (if up addr then 1 else 0) + count_up peers

  willing-pre_vote :
      (req : VoteRequest) (p : ℕ × String)
      → IsWilling req p
      → (handle_pre_vote req (nodes p.1)).1.vote_granted ≡ true
  unfolding handle_pre_vote
  willing-pre_vote req p w = ground (arith, w.behind, w.no_leader, w.up_to_date)

  willing-vote :
      (req : VoteRequest) (p : ℕ × String)
      → IsWilling req p
      → answer_of (handle_request_vote storage undisturbed req (nodes p.1))
        ≡ some (record { term = req.term; vote_granted = true })
  unfolding handle_request_vote adopt_term vote_for save_in_gap
  willing-vote req p w = ground (arith, w.behind, w.up_to_date)

  grants-pre_votes :
      (req : VoteRequest) (peers : Peers)
      → All (WillingOrDown req) peers
      → grants pre_votes req peers ≡ count_up peers
  grants-pre_votes req [] w = refl
  grants-pre_votes req ((id, addr) ∷ peers) (inl down, ws) =
      ground (arith, down, grants-pre_votes req peers ws)
  grants-pre_votes req ((id, addr) ∷ peers) (inr w, ws) =
      ground (arith, willing-pre_vote req (id, addr) w, grants-pre_votes req peers ws)

  grants-request_votes :
      (req : VoteRequest) (peers : Peers)
      → All (WillingOrDown req) peers
      → grants request_votes req peers ≡ count_up peers
  grants-request_votes req [] w = refl
  grants-request_votes req ((id, addr) ∷ peers) (inl down, ws) =
      ground (arith, down, grants-request_votes req peers ws)
  grants-request_votes req ((id, addr) ∷ peers) (inr w, ws) =
      ground (arith, willing-vote req (id, addr) w, grants-request_votes req peers ws)

  term_of-request_votes :
      (req : VoteRequest) (p : ℕ × String)
      → WillingOrDown req p
      → term_of (request_votes p.1 req) ≤ req.term
  term_of-request_votes req p (inl down) = ground (arith, down)
  term_of-request_votes req p (inr w) = ground (arith, willing-vote req p w)

  none_Behind :
      (req : VoteRequest) (peers : Peers)
      → All (WillingOrDown req) peers
      → ¬ Behind request_votes req peers
  none_Behind req [] w b = b
  none_Behind req ((id, addr) ∷ peers) (w, ws) (inr later) = none_Behind req peers ws later
  none_Behind req ((id, addr) ∷ peers) (w, ws) (inl (a, e, h)) =
      omega (arith, ap term_of e, term_of-request_votes req (id, addr) w)

  -- With no other task at work, a node wins its election, in the next term and with its own vote,
  -- where each peer is down or can vote, and those that are up are, with it, a majority.
  pub start_election-leader :
      (peers : Peers) (n : Node D)
      → All
          (WillingOrDown
            (vote_request (add64 n.state.persistent.current_term 1) n.state.node_id n.log))
          peers
      → majority_of (length peers) ≤ 1 + count_up peers
      → let m = start_election storage request_votes peers pre_votes (λ n. n) undisturbed n in
        (is_leader m.state.role ≡ true)
        × (m.state.persistent ≡ record {
          current_term = add64 n.state.persistent.current_term 1;
          voted_for = some n.state.node_id;
        })
  unfolding start_election
  start_election-leader peers n w enough =
      let req = vote_request (add64 n.state.persistent.current_term 1) n.state.node_id n.log in
      let asked : majority_of (length peers) ≤ count_votes pre_votes req peers 1 =
        omega (arith, count_votes-eq pre_votes req peers 1, grants-pre_votes req peers w) in
      let leads =
        (start_real_election-leader storage request_votes peers n).1
          (none_Behind req peers w, omega (arith, grants-request_votes req peers w)) in
      rw (le→ltb _ _ asked) (leads, start_real_election-term storage request_votes peers n leads)
