-- ===== src/Raft/Messages.antt =====
-- proto/raft.proto: the requests and responses between the nodes.
use macro_service.Prelude.{ℕ, Bool, List}
use macro_service.Raft.Log.{LogEntry}

pub record VoteRequest : Type 0 where
  pub term : ℕ
  pub candidate_id : ℕ
  pub last_log_index : ℕ
  pub last_log_term : ℕ

pub record VoteResponse : Type 0 where
  pub term : ℕ
  pub vote_granted : Bool

-- `LogEntry` of the protocol has the fields of `LogEntry` of raft/log.rs.
pub record AppendEntriesRequest : Type 0 where
  pub term : ℕ
  pub leader_id : ℕ
  pub prev_log_index : ℕ
  pub prev_log_term : ℕ
  pub entries : List LogEntry
  pub leader_commit : ℕ

pub record AppendEntriesResponse : Type 0 where
  pub term : ℕ
  pub success : Bool
  pub match_index : ℕ

pub record InstallSnapshotRequest : Type 0 where
  pub term : ℕ
  pub leader_id : ℕ
  pub last_included_index : ℕ
  pub last_included_term : ℕ
  pub content : List ℕ

pub record InstallSnapshotResponse : Type 0 where
  pub term : ℕ
