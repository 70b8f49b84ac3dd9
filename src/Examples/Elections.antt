-- ===== src/Examples/Elections.antt =====
-- The theorems on votes and elections, at a cluster of three.
use macro_service.Prelude.{◌≡◌, ◌↔◌, refl, true, Option, none, some, [], ◌∷◌, arith, if◌then◌else◌}
use text.Mathlib.Text.{◌==◌}
use macro_service.Raft.State.{follower, is_leader}
use macro_service.Raft.State.Advances.{Advances-refl}
use macro_service.Raft.Storage.{PersistentData}
use macro_service.Raft.Messages.{VoteRequest, VoteResponse}
use macro_service.Raft.Node.{Node, returns, deadlocks}
use macro_service.Raft.Log.{last_term, last_index}
use macro_service.Raft.Election.{
  Rpc, undisturbed, handle_request_vote, start_real_election, log_is_up_to_date, vote_request,
  save_in_gap, collect_votes,
}
use macro_service.Raft.Election.Votes.{KeepsVotes, one_vote_per_term}
use macro_service.Raft.Election.Refusal.{
  Grants, Records, Refused, MayGrant, handle_request_vote-grants, handle_request_vote-deadlocks,
}
use macro_service.Raft.Election.Locks.{waits_for_itself, vote_locks}
use macro_service.Startup.{recover}
use macro_service.Startup.Durable.{vote_durable}
use macro_service.Examples.Disks.{memory}
use macro_service.Examples.Cluster.{
  follower_node, state_of, node_of, leader_log, follower_log, peers,
}

abbrev pub candidate_request : VoteRequest
candidate_request = record { term = 3; candidate_id = 3; last_log_index = 3; last_log_term = 2 }

abbrev stale_candidate : VoteRequest
stale_candidate = record { term = 3; candidate_id = 3; last_log_index = 1; last_log_term = 1 }

-- The voter after it granted the vote.
abbrev pub voter : Node (Option PersistentData)
voter = record (follower_node) {
  state = state_of 2 follower 3 (some 3) none;
  disk = some (record {
    version = 2;
    current_term = 3;
    voted_for = some 3;
    log = follower_log.entries;
    snapshot_last_index = 0;
    snapshot_last_term = 0;
    snapshot_data = none;
  });
}

abbrev pub granted : VoteResponse
granted = record { term = 3; vote_granted = true }

pub grants_first :
    handle_request_vote memory undisturbed candidate_request follower_node ≡ returns voter granted
unfolding handle_request_vote last_term save_in_gap
grants_first = refl

grants_again :
    handle_request_vote memory undisturbed candidate_request voter ≡ returns voter granted
unfolding handle_request_vote last_term save_in_gap
grants_again = refl

vote_durable_example :
    (recover memory 2 (1 ∷ 3 ∷ []) voter.disk).0.persistent
    ≡ record { current_term = 3; voted_for = some 3 }
vote_durable_example =
    vote_durable memory 2 (1 ∷ 3 ∷ []) candidate_request follower_node voter granted (omega arith)
      grants_first refl

keeps_votes : KeepsVotes {D = Option PersistentData} (λ n. n)
keeps_votes = record { at = λ n. Advances-refl n.state.persistent }

one_vote_per_term_example : candidate_request.candidate_id ≡ candidate_request.candidate_id
one_vote_per_term_example =
    one_vote_per_term memory undisturbed undisturbed (λ n. n) candidate_request candidate_request
      follower_node voter voter granted granted
      (record { before_save = keeps_votes; after_save = keeps_votes; asking = keeps_votes })
      keeps_votes refl grants_first refl grants_again refl

handle_request_vote-grants_example :
    (Grants memory undisturbed candidate_request follower_node
      ↔ MayGrant candidate_request follower_node)
    × (Records memory undisturbed candidate_request follower_node
        ↔ MayGrant candidate_request follower_node)
handle_request_vote-grants_example =
    handle_request_vote-grants memory undisturbed candidate_request follower_node

handle_request_vote-deadlocks_example :
    ((waits_for_itself [] (vote_locks stale_candidate follower_node) ≡ true)
      ↔ Refused memory undisturbed stale_candidate follower_node)
    × (((m : Node (Option PersistentData)) × (handle_request_vote memory undisturbed stale_candidate
              follower_node
            ≡ deadlocks m))
        ↔ Refused memory undisturbed stale_candidate follower_node)
handle_request_vote-deadlocks_example =
    handle_request_vote-deadlocks memory undisturbed stale_candidate follower_node

newer_first : log_is_up_to_date (vote_request 3 1 leader_log) leader_log ≡ true
unfolding log_is_up_to_date vote_request last_term last_index
newer_first = refl

newer_second : log_is_up_to_date (vote_request 3 1 leader_log) follower_log ≡ true
unfolding log_is_up_to_date vote_request last_term last_index
newer_second = refl

-- Peer 2 grants, peer 3 does not answer.
abbrev pub network : Rpc VoteRequest VoteResponse
network addr req = if addr == "b:50051" then some granted else none

abbrev pub asker : Node (Option PersistentData)
asker = node_of (state_of 1 follower 2 none none) leader_log

asker_wins :
    is_leader (start_real_election memory network peers undisturbed asker).state.role ≡ true
unfolding start_real_election collect_votes
asker_wins = refl
