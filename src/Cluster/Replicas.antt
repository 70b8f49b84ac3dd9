-- ===== src/Cluster/Replicas.antt =====
-- The logs of the nodes of a cluster: the steps of Cluster.antt with the requests that leaders have
-- sent and that may still arrive, in any order and any number of times. Snapshots are left out here: no
-- step takes or installs one.
pub mod History
pub mod Handlers
pub mod Leads
pub mod Mirrors
pub mod Steps
pub mod Proposed
pub mod Elected
pub mod Invariant
pub mod Matching
pub mod Stores
use macro_service.Prelude.{ℕ, ◌+◌, ◌<◌, ◌≡◌, ◌≢◌, ◌⊎◌, List, [], ◌∷◌, ◌++◌, u64_mod}
use macro_service.Raft.Log
use macro_service.Raft.Log.{LogStore, last_index}
use macro_service.Raft.State.{follower, candidate, leader}
use macro_service.Raft.Storage.{Storage}
use macro_service.Raft.Node.{Node}
use macro_service.Raft.Replication
use macro_service.Raft.Replication.{Message, send_heartbeat}
use macro_service.Kv.Store.{KvCodec}
use macro_service.Config.{NodeConfig}
use macro_service.Startup.{recover}
use macro_service.Cluster.{
  Run, Step, vote, stands, wins, appends, installs, proposes, compacts, restarts, others,
}

-- A message that was sent.
abbrev pub Sent : Message → List Message → Type 0
Sent m [] = ⊥
Sent m (x ∷ xs) = (m ≡ x) ⊎ Sent m xs

-- The nodes, with the messages of the heartbeats so far.
pub record Net (D : Type 0) : Type 0 where
  pub run : Run D
  pub sent : List Message

module _ {D : Type 0} where
  -- The log stays, and a node that leads or stands for election did so before in its term.
  pub record Quiet (n m : Node D) : Type 0 where
    pub node_id : m.state.node_id ≡ n.state.node_id
    pub log : m.log ≡ n.log
    pub leads :
        m.state.role ≡ leader
        → (n.state.role ≡ leader)
          × (m.state.persistent.current_term ≡ n.state.persistent.current_term)
    pub waits :
        m.state.role ≡ candidate
        → (n.state.role ≡ candidate)
          × (m.state.persistent.current_term ≡ n.state.persistent.current_term)

module _ {D : Type 0} (storage : Storage D) where
  -- The log that a node would start with from its disk.
  abbrev pub log_of : D → LogStore
  log_of disk = (recover storage 0 [] disk).1

  -- Nodes that start for the first time: each under its own place, with an empty log.
  pub record IsFresh (start : ℕ → Node D) : Type 0 where
    pub node_id : (i : ℕ) → (start i).state.node_id ≡ i
    pub role : (i : ℕ) → (start i).state.role ≡ follower
    pub log : (i : ℕ) → (start i).log ≡ Log.new
    pub disk : (i : ℕ) → log_of (start i).disk ≡ Log.new

  module _ (codec : KvCodec) (members : List ℕ) where
    -- A node wins as the candidate that it still is, an appended request was sent by another node, only
    -- a leader proposes, and a node restarts under its place.
    abbrev pub Allowed : (s : Net D) {t : Run D} → Step storage codec members s.run t → Type 0
    Allowed s (vote i req m a e) = Unit
    Allowed s (stands i room) = Unit
    Allowed s (wins i t c count peers rpc log cluster own backed counted enough) =
        ((s.run.nodes i).state.role ≡ candidate)
        × ((s.run.nodes i).state.persistent.current_term ≡ t)
        × ((s.run.nodes i).state.node_id ≡ c)
    Allowed s (appends i now ms req) =
        Sent (Replication.append_entries req) s.sent × (req.leader_id ≢ i)
    Allowed s (installs i now ms req) = ⊥
    Allowed s (proposes i cmd) =
        ((s.run.nodes i).state.role ≡ leader) × (last_index (s.run.nodes i).log + 1 < u64_mod)
    Allowed s (compacts i) = ⊥
    Allowed s (restarts i now ms config) = config.node_id ≡ i
    Allowed s (others i m a d) = Quiet (s.run.nodes i) m

    pub data Move (s : Net D) : Net D → Type 0 where
      step :
          {t : Run D} (p : Step storage codec members s.run t)
          → Allowed s p
          → Move s (record { run = t; sent = s.sent })
      -- The messages of a heartbeat go out.
      beats :
          (i max_entries : ℕ) (peers : Replication.Peers)
          → Move s (record {
            run = s.run;
            sent =
                (send_heartbeat storage max_entries peers
                  (λ _. (s.run.nodes i).log)
                  (s.run.nodes i)).0
                ++ s.sent;
          })

    -- The runs from nodes that start for the first time.
    pub data Moves (start : ℕ → Node D) : Net D → Type 0 where
      begin :
          Moves start
            (record { run = record { nodes = start; grants = []; winners = [] }; sent = [] })
      later : {s t : Net D} → Moves start s → Move s t → Moves start t
