-- ===== src/Raft/Node.antt =====
-- The cells that server-rust/src/main.rs shares between the Raft components of one node, behind
-- `Arc<RwLock<..>>`. `D` is the state of the disk behind `PersistentStorage`.
use macro_service.Raft.Log.{LogStore}
use macro_service.Raft.State.{RaftState}
use macro_service.Raft.Timer.{ElectionTimer}
use macro_service.Kv.Store.{KvStore}

pub record Node (D : Type 0) : Type 0 where
  pub state : RaftState
  pub log : LogStore
  pub disk : D
  pub timer : ElectionTimer
  pub kv : KvStore

-- What the other tasks of the node do while a handler holds no lock.
abbrev pub Meanwhile : Type 0 → Type 0
Meanwhile D = Node D → Node D

-- How a handler ends: in the state `S`, with its response, or waiting for ever for a lock that it
-- holds itself.
pub data Handled (S : Type 0) (A : Type 0) : Type 0 where
  returns : S → A → Handled S A
  deadlocks : S → Handled S A
