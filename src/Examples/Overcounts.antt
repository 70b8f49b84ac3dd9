-- ===== src/Examples/Overcounts.antt =====
-- A leader of a cluster of three with an empty log, and a peer with two entries of an older leader.
use macro_service.Prelude.{◌+◌, ◌≡◌, refl, Option, none, some, [], ◌∷◌, arith}
use macro_service.Raft.Log
use macro_service.Raft.Log.{LogStore, last_index, match_entry}
use macro_service.Raft.Log.Valid.{new-IsValid}
use macro_service.Raft.State.{leader, LeaderState}
use macro_service.Raft.Storage.{PersistentData}
use macro_service.Raft.Node.{Node}
use macro_service.Raft.Replication.{Heartbeat, append_request}
use macro_service.Raft.Replication.Commit.{set_commit, update_commit_index}
use macro_service.Raft.Agreement.Answered.{Tracks}
use macro_service.Raft.Agreement.Exchange.{exchange}
use macro_service.Raft.Agreement.Overcount.{Ahead, heartbeat_overcounts}
use macro_service.Kv.Store.{KvCommand, put_command}
use macro_service.Kv.Service.{append_command}
use macro_service.Examples.Cluster.{peers, state_of, node_of, follower_node, follower_log}
use macro_service.Examples.Disks.{memory}
use macro_service.Examples.Codecs.{small_codec}

abbrev put_x : KvCommand
put_x = put_command "x" (7 ∷ [])

-- As a new leader has them.
abbrev indices : LeaderState
indices = record {
  next_index = 1 ∷ 1 ∷ 1 ∷ [];
  match_index = 0 ∷ 0 ∷ 0 ∷ [];
  lease = record { lease_duration = 60; expires_at = none };
}

abbrev new_leader : Node (Option PersistentData)
new_leader =
    node_of
      (record (state_of 1 leader 2 (some 1) (some indices)) {
        volatile = record { commit_index = 0; last_applied = 0 };
      })
      Log.new

abbrev beat : Heartbeat
beat = record {
  term = 2;
  leader_id = 1;
  commit_index = 0;
  next_indices = 1 ∷ 1 ∷ 1 ∷ [];
  snapshot_last_index = 0;
  snapshot_last_term = 0;
  snapshot_data = [];
  max_entries = 10;
}

tracked : Tracks 1 (last_index new_leader.log + 1) 0 2 new_leader.state
unfolding last_index
tracked = record {
  leads = indices;
  here = refl;
  in_term = refl;
  next_index = refl;
  match_index = refl;
}

ahead : Ahead memory small_codec 5 200 2 0 beat new_leader follower_node 0 0 peers
unfolding last_index append_request match_entry
ahead = record {
  leads = refl;
  tracks = tracked;
  valid = new-IsValid;
  low = omega arith;
  whole = refl;
  consistent = refl;
  longer = omega arith;
  room = omega arith;
  place = omega arith;
  few = omega arith;
  indices = (refl, refl);
  committed = omega arith;
}

heartbeat_overcounts_example :
    let (s, f) =
      exchange memory small_codec 5 200 2 1 0 beat new_leader.log
        (new_leader.state, follower_node) in
    let m = (append_command memory small_codec put_x (record (new_leader) { state = s })).0 in
    (f.log ≡ follower_log)
    × (update_commit_index peers (λ _. m.log) (λ k. k) m
        ≡ some (set_commit (last_index new_leader.log + 1) m))
heartbeat_overcounts_example =
    heartbeat_overcounts memory small_codec 5 200 2 0 beat new_leader follower_node 0 0 peers ahead
      put_x
