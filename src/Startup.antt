-- ===== src/Startup.antt =====
-- server-rust/src/main.rs: how a node starts, from what its storage loads.
pub mod Durable
pub mod MainLoop
pub mod Boot
pub mod Restart
pub mod Progress
pub mod Parts
pub mod Process
use macro_service.Prelude.{ℕ, Option, none, some, List}
use macro_service.Raft.Log
use macro_service.Raft.Log.{LogStore}
use macro_service.Raft.State.{RaftState, new_state}
use macro_service.Raft.Storage.{PersistentData, Storage, to_raft_state, to_log_store}

-- The state and the log of the node; an error of `load` starts afresh, as no data does.
unfoldable pub start_from : ℕ → List ℕ → Option (Option PersistentData) → RaftState × LogStore
unfolding to_raft_state to_log_store new_state
start_from node_id peers (some (some d)) = (to_raft_state d node_id peers, to_log_store d)
start_from node_id peers (some none) = (new_state node_id peers, Log.new)
start_from node_id peers none = (new_state node_id peers, Log.new)

unfoldable pub recover : {D : Type 0} → Storage D → ℕ → List ℕ → D → RaftState × LogStore
unfolding start_from
recover storage node_id peers disk = start_from node_id peers (storage.load disk)
