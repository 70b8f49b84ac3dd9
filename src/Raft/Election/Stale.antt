-- ===== src/Raft/Election/Stale.antt =====
-- election.rs: a win that comes late.
use macro_service.Prelude.{◌+◌, ◌≤◌, ◌≡◌, refl, some, arith, length, inl, inr}
use macro_service.Raft.State.{majority_of, become_candidate, become_leader, leader}
use macro_service.Raft.Storage.{Storage, from_state_and_log}
use macro_service.Raft.Messages.{VoteRequest, VoteResponse}
use macro_service.Raft.Node.{Node, Meanwhile}
use macro_service.Raft.Election.{Rpc, Peers, undisturbed, save_in_gap, start_real_election}
use macro_service.Raft.Election.Majority.{Behind, grants, own_request, collect_votes_lem}

module _ {D : Type 0} (storage : Storage D) (rpc : Rpc VoteRequest VoteResponse) (peers : Peers)
    (n : Node D) (others : Meanwhile D) where
  -- The node as it asks for votes: a candidate that has saved its vote for itself.
  abbrev pub asking : Node D
  asking =
      save_in_gap storage undisturbed
        (from_state_and_log (become_candidate n.state).persistent n.log)
        (record n { state = become_candidate n.state })

  -- A candidate that a majority has granted its vote, without an answer of a newer term, becomes a
  -- leader whatever the other tasks have made of the node while it asked: it leads in the term that they
  -- have left, whatever that is, and also where the vote that they have left there is for another node.
  pub start_real_election_stale :
      ¬ Behind rpc (own_request storage rpc peers n) peers
      → majority_of (length peers) ≤ 1 + grants rpc (own_request storage rpc peers n) peers
      → let s =
          (start_real_election storage rpc peers
            (record undisturbed { asking = others })
            n).state in
        (s.role ≡ leader)
        × (s.persistent ≡ (others asking).state.persistent)
        × (s.leader_id ≡ some (others asking).state.node_id)
  unfolding start_real_election save_in_gap become_leader
  start_real_election_stale ahead enough =
      let m = others asking in
      elim (collect_votes_lem rpc (own_request storage rpc peers n) peers 1) [
        | inl early ↦ absurd (ahead early.1)
        | inr all ↦
            let won : start_real_election storage rpc peers (record undisturbed { asking = others })
                  n
                ≡ record m { state = become_leader m.state } =
              ground (arith, all.0) in
            rw won (refl, refl, refl)
      ]
