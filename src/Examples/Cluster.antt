-- ===== src/Examples/Cluster.antt =====
-- A leader and a follower of a cluster of three nodes.
use macro_service.Prelude.{
  ℕ, zero, suc, ◌≡◌, refl, Option, none, some, List, [], ◌∷◌, arith, String,
}
use macro_service.Config.{NodeConfig}
use macro_service.Raft.Log.{LogEntry, LogStore, get}
use macro_service.Raft.Log.Valid.{IsValid}
use macro_service.Raft.Log.Valid.{last_index-eq}
use macro_service.Raft.Log.View.{range_of_get}
use macro_service.Raft.Replication.{entry_term}
use macro_service.Prelude.{ap}
use macro_service.Raft.State.{RaftState, NodeRole, follower, leader, LeaderState}
use macro_service.Raft.Storage.{PersistentData}
use macro_service.Raft.Node.{Node}
use macro_service.Raft.Agreement.{LogMatching, AgreeUpTo}

abbrev pub leader_log : LogStore
leader_log = record {
  entries =
      record { term = 1; index = 1; command = [] }
      ∷ record { term = 2; index = 2; command = [] }
      ∷ record { term = 2; index = 3; command = [] }
      ∷ [];
  snapshot_last_index = 0;
  snapshot_last_term = 0;
}

-- Its second entry is of a leader that lost its office.
abbrev pub follower_log : LogStore
follower_log = record {
  entries =
      record { term = 1; index = 1; command = [] }
      ∷ record { term = 1; index = 2; command = [] }
      ∷ [];
  snapshot_last_index = 0;
  snapshot_last_term = 0;
}

pub leader_log-IsValid : IsValid leader_log
leader_log-IsValid = record { contiguous = (refl, (refl, (refl, tt))); in_range = omega arith }

pub follower_log-IsValid : IsValid follower_log
follower_log-IsValid = record { contiguous = (refl, (refl, tt)); in_range = omega arith }

agree_at_one : AgreeUpTo leader_log follower_log 1
unfolding get
agree_at_one zero l f h = absurd (omega arith)
agree_at_one (suc zero) l f h = refl
agree_at_one (suc (suc j)) l f h = absurd (omega arith)

matching :
    (i : ℕ) (e e' : LogEntry)
    → get leader_log i ≡ some e
    → get follower_log i ≡ some e'
    → e.term ≡ e'.term
    → AgreeUpTo leader_log follower_log i
unfolding get
matching zero e e' l f t = cc
matching (suc zero) e e' l f t = agree_at_one
matching (suc (suc zero)) e e' l f t =
    λ j a b c. absurd (omega (arith, ap entry_term l, ap entry_term f, t))
matching (suc (suc (suc i))) e e' l f t =
    let (low, high) = range_of_get follower_log (suc (suc (suc i))) follower_log-IsValid f in
    λ j a b c. absurd (omega (arith, last_index-eq follower_log follower_log-IsValid))

pub logs-LogMatching : LogMatching leader_log follower_log
logs-LogMatching = record { at = matching }

abbrev pub state_of : ℕ → NodeRole → ℕ → Option ℕ → Option LeaderState → RaftState
state_of id role term voted_for leader_state = record {
  node_id = id;
  role = role;
  persistent = record { current_term = term; voted_for = voted_for };
  volatile = record { commit_index = 1; last_applied = 1 };
  leader_state = leader_state;
  leader_id = none;
  peers = 2 ∷ 3 ∷ [];
}

abbrev pub node_of : RaftState → LogStore → Node (Option PersistentData)
node_of s l = record {
  state = s;
  log = l;
  disk = none;
  timer = record { timeout = 200; last_heartbeat = 0; min_timeout_ms = 150; max_timeout_ms = 300 };
  kv = record { entries = [] };
}

abbrev pub follower_node : Node (Option PersistentData)
follower_node = node_of (state_of 2 follower 2 none none) follower_log

-- Peer 2 has acknowledged all three entries, peer 3 only the first.
abbrev pub leader_indices : LeaderState
leader_indices = record {
  next_index = 1 ∷ 4 ∷ 2 ∷ [];
  match_index = 0 ∷ 3 ∷ 1 ∷ [];
  lease = record { lease_duration = 60; expires_at = none };
}

abbrev pub leader_node : Node (Option PersistentData)
leader_node = node_of (state_of 1 leader 2 (some 1) (some leader_indices)) leader_log

abbrev pub peers : List (ℕ × String)
peers = (2, "b:50051") ∷ (3, "c:50051") ∷ []

-- Of node 2.
abbrev pub config : NodeConfig
config = record {
  node_id = 2;
  client_addr = 50052;
  raft_addr = 60052;
  peers = record { id = 1; raft_addr = [] } ∷ record { id = 3; raft_addr = [] } ∷ [];
  data_dir = [];
  snapshot_threshold = 1000;
  max_entries_per_append = 100;
  metrics_addr = 9092;
}
