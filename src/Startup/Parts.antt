-- ===== src/Startup/Parts.antt =====
-- What `main` makes of the configuration for the tasks of a node, besides the shared cells: the managers
-- of elections and of replication. `address` writes an address of the configuration as a string.
use macro_service.Prelude.{ℕ, Bool, true, false, Option, some, List, map, String}
use macro_service.Config.{Text, Peer, NodeConfig}
use macro_service.Raft.Election.{Peers}
use macro_service.Raft.Log.{LogStore}
use macro_service.Raft.State.{RaftState}
use macro_service.Raft.Pending.{PendingRequests}
use macro_service.Raft.Storage.{Storage}
use macro_service.Kv.Store.{KvStore}

-- `peers.iter().map(|p| (p.id, p.raft_addr.clone()))`
unfoldable pub addresses : (Text → String) → List Peer → Peers
addresses address peers = map (λ p. (p.id, address p.raft_addr)) peers

pub record Election : Type 0 where
  pub peers : Peers

-- `Election::new`
unfoldable pub new_election : (Text → String) → NodeConfig → Election
unfolding addresses
new_election address config = record { peers = addresses address config.peers }

-- The shared parts that are optional are given or not.
pub record Replication : Type 0 where
  pub peers : Peers
  pub pending_requests : Bool
  pub heartbeat_success_count : ℕ
  pub storage : Bool
  pub snapshot_threshold : ℕ
  pub kv_store : Bool
  pub max_entries_per_append : ℕ

-- `Replication::new`
unfoldable pub new_replication : (Text → String) → NodeConfig → Replication
unfolding addresses
new_replication address config = record {
  peers = addresses address config.peers;
  pending_requests = false;
  heartbeat_success_count = 0;
  storage = false;
  snapshot_threshold = config.snapshot_threshold;
  kv_store = false;
  max_entries_per_append = config.max_entries_per_append;
}

unfoldable pub with_pending_requests : Replication → Replication
with_pending_requests r = record r { pending_requests = true }

unfoldable pub with_storage : Replication → Replication
with_storage r = record r { storage = true }

unfoldable pub with_kv_store : Replication → Replication
with_kv_store r = record r { kv_store = true }

-- The replication as `main` builds it.
unfoldable pub replication_of : (Text → String) → NodeConfig → Replication
unfolding new_replication with_pending_requests with_storage with_kv_store
replication_of address config =
    with_kv_store (with_storage (with_pending_requests (new_replication address config)))

-- `KVServiceImpl`: the store, and the Raft parts where there are any.
pub record KvServiceImpl (D : Type 0) : Type 0 where
  pub store : KvStore
  pub raft_state : Option RaftState
  pub log_store : Option LogStore
  pub pending_requests : Option PendingRequests
  pub storage : Option (Storage D)

-- `KVServiceImpl::new_with_raft`
unfoldable pub new_with_raft :
    {D : Type 0} → KvStore → RaftState → LogStore → PendingRequests → Storage D → KvServiceImpl D
new_with_raft store raft_state log_store pending_requests storage = record {
  store = store;
  raft_state = some raft_state;
  log_store = some log_store;
  pending_requests = some pending_requests;
  storage = some storage;
}
