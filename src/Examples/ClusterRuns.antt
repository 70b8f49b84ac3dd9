-- ===== src/Examples/ClusterRuns.antt =====
-- A cluster of three: node 1 stands, node 2 votes for it and stops, node 1 wins, node 2 starts again.
use macro_service.Prelude.{
  leb, ℕ, ◌≡◌, refl, inl, inr, Option, none, some, List, [], ◌∷◌, arith, true, if◌then◌else◌,
}
use text.Mathlib.Text.{◌==◌}
use macro_service.Raft.Log.{LogStore, last_term, last_index}
use macro_service.Raft.State.{follower, is_leader}
use macro_service.Raft.Election.Wins.{
  WillingOrDown, request_votes, pre_votes, start_election-leader,
}
use macro_service.Prelude.{String, Bool, All}
use macro_service.Raft.Storage.{PersistentData, from_state_and_log}
use macro_service.Raft.Messages.{VoteRequest, VoteResponse}
use macro_service.Raft.Node.{Node, returns}
use macro_service.Raft.Election.{
  Rpc, undisturbed, start_election, log_is_up_to_date, votes_received, collect_votes, vote_request,
  handle_request_vote, finish_election, save_in_gap,
}
use macro_service.Cluster.{
  own_vote, Run, put, answered, stand, restart, vote, stands, wins, restarts, Reach, begin, later,
}
use macro_service.Cluster.Grants.{IsReliable}
use macro_service.Cluster.Elections.{election_safety, election_restriction}
use macro_service.Cluster.Votes.{Given}
use macro_service.Examples.Cluster.{config, state_of, node_of, peers}
use macro_service.Examples.Disks.{memory}
use macro_service.Examples.Codecs.{small_codec}
use mathlib.Core.List.Permᴰ

abbrev pub no_log : LogStore
no_log = record { entries = []; snapshot_last_index = 0; snapshot_last_term = 0 }

-- Nothing is committed or applied yet.
abbrev pub start : ℕ → Node (Option PersistentData)
start i =
    node_of
      (record (state_of i follower 1 none none) {
        volatile = record { commit_index = 0; last_applied = 0 };
      })
      no_log

abbrev pub req : VoteRequest
req = record { term = 2; candidate_id = 1; last_log_index = 0; last_log_term = 0 }

abbrev pub voter : Node (Option PersistentData)
voter =
    let s = state_of 2 follower 2 (some 1) none in
    let s' = record s { volatile = record { commit_index = 0; last_applied = 0 } } in
    record (node_of s' no_log) {
      disk = some (record {
        version = 2;
        current_term = 2;
        voted_for = some 1;
        log = [];
        snapshot_last_index = 0;
        snapshot_last_term = 0;
        snapshot_data = none;
      });
    }

abbrev pub grant : VoteResponse
grant = record { term = 2; vote_granted = true }

abbrev pub answers : Rpc VoteRequest VoteResponse
answers addr asked = if addr == "b:50051" then some grant else none

abbrev pub members : List ℕ
members = 1 ∷ 2 ∷ 3 ∷ []

pub voted : handle_request_vote memory undisturbed req (start 2) ≡ returns voter grant
unfolding handle_request_vote save_in_gap from_state_and_log last_term last_index
voted = refl

pub counted : collect_votes answers (vote_request 2 1 no_log) peers 1 ≡ votes_received 2
unfolding collect_votes vote_request
counted = refl

pub memory-IsReliable : IsReliable memory
memory-IsReliable = record { saved = λ d disk. refl }

abbrev pub standing : Run (Option PersistentData)
standing = record {
  nodes =
      (put 1 (stand memory (start 1)) (record { nodes = start; grants = []; winners = [] })).nodes;
  grants = (1, own_vote (start 1), no_log) ∷ [];
  winners = [];
}

abbrev pub backed_run : Run (Option PersistentData)
backed_run = answered 2 req no_log grant (put 2 voter standing)

abbrev pub won_run : Run (Option PersistentData)
won_run =
    record (put 1 (finish_election peers (votes_received 2) (backed_run.nodes 1)) backed_run) {
      winners = (2, 1) ∷ [];
    }

abbrev last_run : Run (Option PersistentData)
last_run = put 2 (restart memory config 0 200 (won_run.nodes 2)) won_run

reached : Reach memory small_codec members start last_run
unfolding vote_request
reached =
    later
      (later (later (later begin (stands 1 (omega arith))) (vote 2 req voter grant voted)) (
        wins 1 2 1 2 peers answers no_log (Permᴰ.refl members) refl (inr refl, (inl refl, tt))
          counted (omega arith)))
      (restarts 2 0 200 config)

election_safety_example : ◌≡◌ {A = ℕ} 1 1
election_safety_example =
    election_safety memory members small_codec start last_run 2 1 1 memory-IsReliable reached refl
      refl

-- Nodes 2 and 3.
abbrev other_two : ℕ → Bool
other_two v = leb 2 v

election_restriction_example :
    (v : ℕ) × (r : VoteRequest) × (log : LogStore) × (other_two v ≡ true)
    × Given last_run.grants v r log
    × (r.term ≡ 2)
    × (r.candidate_id ≡ 1)
    × (log_is_up_to_date r log ≡ true)
election_restriction_example =
    election_restriction memory members small_codec start last_run 2 1 other_two memory-IsReliable
      reached refl (omega arith)

abbrev b_is_up : String → Bool
b_is_up addr = addr == "b:50051"

abbrev nodes : String → Node (Option PersistentData)
nodes addr = start 2

willing : All (WillingOrDown memory b_is_up nodes (vote_request 2 1 no_log)) peers
unfolding log_is_up_to_date vote_request last_term last_index
willing =
    (inr (record { behind = omega arith; no_leader = refl; up_to_date = refl }), (inl refl, tt))

start_election-leader_example :
    let m =
      start_election memory
        (request_votes memory b_is_up nodes)
        peers
        (pre_votes memory b_is_up nodes)
        (λ n. n)
        undisturbed
        (start 1) in
    (is_leader m.state.role ≡ true)
    × (m.state.persistent ≡ record { current_term = 2; voted_for = some 1 })
start_election-leader_example =
    start_election-leader memory b_is_up nodes peers (start 1) willing (omega arith)
