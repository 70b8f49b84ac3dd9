-- ===== src/Raft/Storage.antt =====
-- server-rust/src/raft/storage.rs: the data on disk, and the file that holds it.
-- The file system (tokio::fs) and the JSON coding (serde_json) are parameters.
pub mod File
use macro_service.Prelude.{ℕ, ◌≡◌, Bool, true, false, Option, none, some, List}
use macro_service.Raft.Log.{LogEntry, LogStore, from_entries}
use macro_service.Raft.State.{PersistentState, RaftState, from_persistent}

pub record PersistentData : Type 0 where
  pub version : ℕ
  pub current_term : ℕ
  pub voted_for : Option ℕ
  pub log : List LogEntry
  pub snapshot_last_index : ℕ
  pub snapshot_last_term : ℕ
  pub snapshot_data : Option (List ℕ)

abbrev pub storage_version : ℕ
storage_version = 2

unfoldable pub from_state_and_log : PersistentState → LogStore → PersistentData
from_state_and_log persistent_state log_store = record {
  version = storage_version;
  current_term = persistent_state.current_term;
  voted_for = persistent_state.voted_for;
  log = log_store.entries;
  snapshot_last_index = log_store.snapshot_last_index;
  snapshot_last_term = log_store.snapshot_last_term;
  snapshot_data = none;
}

unfoldable pub with_snapshot : List ℕ → PersistentData → PersistentData
with_snapshot snapshot_data d = record d { snapshot_data = some snapshot_data }

unfoldable pub to_raft_state : PersistentData → ℕ → List ℕ → RaftState
unfolding from_persistent
to_raft_state d node_id peers = from_persistent node_id peers d.current_term d.voted_for

unfoldable pub to_log_store : PersistentData → LogStore
to_log_store d = record (from_entries d.log) {
  snapshot_last_index = d.snapshot_last_index;
  snapshot_last_term = d.snapshot_last_term;
}

-- What the Raft code asks of a storage: `D` is the state of the disk, `save` answers whether it
-- succeeded, and `load` gives none where `load` of the source returns an error.
pub record Storage (D : Type 0) : Type 0 where
  pub save : PersistentData → D → D × Bool
  pub load : D → Option (Option PersistentData)
  pub load-save_ok :
      (d : PersistentData) (disk : D)
      → (save d disk).1 ≡ true
      → load (save d disk).0 ≡ some (some d)
  pub load-save_err :
      (d : PersistentData) (disk : D) → (save d disk).1 ≡ false → load (save d disk).0 ≡ load disk
