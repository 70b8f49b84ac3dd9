-- ===== src/Examples/Runs.antt =====
-- The theorems on transfers, late wins, answers, panics and timers, at a cluster of three.
use macro_service.Prelude.{
  ℕ, ◌<◌, ◌≡◌, ◌≢◌, refl, true, Option, none, some, [], ◌∷◌, arith, String, u64_mod,
}
use macro_service.Raft.Log.{last_index}
use macro_service.Raft.State.{LeaderState, become_candidate, become_follower, follower, leader}
use macro_service.Raft.Storage.{PersistentData}
use macro_service.Raft.Messages.{AppendEntriesResponse}
use macro_service.Raft.Node.{Node, Meanwhile}
use macro_service.Raft.Election.{undisturbed, start_real_election, vote_request}
use macro_service.Raft.Election.Majority.{Behind, own_request}
use macro_service.Raft.Election.Stale.{start_real_election_stale}
use macro_service.Raft.Election.Transfer.{
  TransferGaps, done, transfer_leader, transfer_leader-done, CaughtUp, SteppedDown,
}
use macro_service.Raft.Replication.{term_at}
use macro_service.Raft.Replication.Commit.{update_commit_index}
use macro_service.Raft.Replication.CommitPanic.{update_commit_index-panics}
use macro_service.Raft.Timer.{ElectionTimer}
use macro_service.Examples.Disks.{memory}
use macro_service.Examples.Elections.{network, asker}
use macro_service.Examples.Cluster.{
  leader_node, leader_log, leader_indices, peers, node_of, state_of,
}

-- A newer leader was heard of while the votes came in.
abbrev heard : Meanwhile (Option PersistentData)
heard n = record n { state = become_follower 9 (some 3) n.state }

none_ahead : ¬ Behind network (own_request memory network peers asker) peers
unfolding vote_request
none_ahead b = ground arith

start_real_election_stale_example :
    let s =
      (start_real_election memory network peers
        (record undisturbed { asking = heard })
        asker).state in
    (s.role ≡ leader)
    × (s.persistent ≡ record { current_term = 9; voted_for = none })
    × (s.leader_id ≡ some 1)
unfolding become_follower become_candidate macro_service.Raft.Election.save_in_gap
start_real_election_stale_example =
    start_real_election_stale memory network peers asker heard none_ahead (omega arith)

abbrev no_gaps : TransferGaps (Option PersistentData)
no_gaps = record { before_term = λ n. n; calling = λ n. n; before_last = λ n. n }

abbrev target_answers : String → ℕ → Option ℕ
target_answers addr term = some 3

abbrev stepped : Node (Option PersistentData)
stepped = record leader_node {
  state = record (state_of 1 follower 3 none (some leader_indices)) { leader_id = some 2 };
}

transfers : transfer_leader target_answers no_gaps 2 peers leader_node ≡ done stepped
unfolding transfer_leader last_index
transfers = refl

transfer_leader-done_example :
    (true ≡ true)
    × ((2 ≢ leader_node.state.node_id))
    × CaughtUp target_answers no_gaps 2 peers leader_node
    × SteppedDown target_answers no_gaps 2 stepped
transfer_leader-done_example =
    transfer_leader-done target_answers no_gaps 2 peers leader_node stepped transfers

-- The leader after it removed a peer: two indices are left for the two configured peers.
abbrev short_indices : LeaderState
short_indices = record leader_indices { next_index = 1 ∷ 4 ∷ []; match_index = 0 ∷ 3 ∷ [] }

abbrev shrunk : Node (Option PersistentData)
shrunk = node_of (state_of 1 leader 2 (some 1) (some short_indices)) leader_log

ends_above : 1 < last_index leader_log
unfolding last_index
ends_above = omega arith

ends_below : last_index leader_log < u64_mod
unfolding last_index
ends_below = omega arith

ends_in_term : term_at leader_log (last_index leader_log) ≡ 2
unfolding term_at last_index
ends_in_term = refl

update_commit_index-panics_example :
    update_commit_index peers (λ i. leader_log) (λ n. n) shrunk ≡ none
update_commit_index-panics_example =
    update_commit_index-panics peers (λ i. leader_log) (λ n. n) shrunk short_indices refl refl
      (λ e. cc) (omega arith) ends_above ends_below ends_in_term

abbrev answered : AppendEntriesResponse
answered = record { term = 2; success = true; match_index = 3 }

abbrev timer : ElectionTimer
timer = record { timeout = 0; last_heartbeat = 0; min_timeout_ms = 150; max_timeout_ms = 300 }
