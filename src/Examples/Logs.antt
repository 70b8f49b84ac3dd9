-- ===== src/Examples/Logs.antt =====
-- The theorems on logs and on the replication of entries, at the logs of a leader and a follower.
use macro_service.Prelude.{◌+◌, ◌≤◌, ◌≡◌, ◌≢◌, refl, true, [], ◌∷◌, arith, length}
use macro_service.Raft.Log.{last_index, match_entry, LogEntry}
use macro_service.Raft.Log.Valid.{IsValid}
use macro_service.Raft.Rpc.{append_entries}
use macro_service.Raft.Replication.{Heartbeat, append_request}
use macro_service.Raft.Replication.Commit.{update_commit_index}
use macro_service.Raft.Replication.CommitRule.{
  CommitRaised, Committable, update_commit_index-CommitRaised,
}
use macro_service.Raft.Agreement.{AgreeUpTo, LogMatching}
use macro_service.Raft.Agreement.Accepted.{append_entries_agrees}
use macro_service.Startup.{recover}
use macro_service.Startup.Durable.{append_entries-durable}
use macro_service.Examples.Disks.{memory}
use macro_service.Examples.Cluster.{
  follower_node, leader_node, leader_log, peers, leader_log-IsValid, follower_log-IsValid,
  logs-LogMatching, leader_indices,
}

abbrev pub heartbeat : Heartbeat
heartbeat = record {
  term = 2;
  leader_id = 1;
  commit_index = 1;
  next_indices = 1 ∷ 2 ∷ 4 ∷ [];
  snapshot_last_index = 0;
  snapshot_last_term = 0;
  snapshot_data = [];
  max_entries = 100;
}

accepted :
    (append_entries memory 0 200 (append_request heartbeat leader_log 2) follower_node).1.success
    ≡ true
unfolding append_entries append_request match_entry
accepted = refl

next_in_range : 2 ≤ last_index leader_log + 1
unfolding last_index
next_in_range = omega arith

has_entries : (append_request heartbeat leader_log 2).entries ≢ []
unfolding append_request
has_entries e = cc

append_entries_agrees_example :
    let req = append_request heartbeat leader_log 2 in
    let n = (append_entries memory 0 200 req follower_node).0 in
    IsValid n.log
    × AgreeUpTo leader_log n.log (req.prev_log_index + length req.entries)
    × LogMatching leader_log n.log
append_entries_agrees_example =
    append_entries_agrees memory 0 200 heartbeat leader_log 2 follower_node leader_log-IsValid
      follower_log-IsValid logs-LogMatching (omega arith) next_in_range (omega arith) accepted

append_entries-durable_example :
    let n = (append_entries memory 0 200 (append_request heartbeat leader_log 2) follower_node).0 in
    ((recover memory 2 (1 ∷ 3 ∷ []) n.disk).0.persistent ≡ n.state.persistent)
    × ((recover memory 2 (1 ∷ 3 ∷ []) n.disk).1 ≡ n.log)
append_entries-durable_example =
    append_entries-durable memory 2 (1 ∷ 3 ∷ []) 0 200 (append_request heartbeat leader_log 2)
      follower_node accepted refl

update_commit_index-CommitRaised_example :
    CommitRaised leader_node
      (Committable 2 peers (0 ∷ 3 ∷ 1 ∷ []) (λ i. leader_log))
      1
      (last_index leader_log)
      (update_commit_index peers (λ i. leader_log) (λ n. n) leader_node)
update_commit_index-CommitRaised_example =
    update_commit_index-CommitRaised peers (λ i. leader_log) (λ n. n) leader_node leader_indices
      refl refl (omega arith) (omega arith)

abbrev fourth : LogEntry
fourth = record { term = 2; index = 4; command = [] }
