-- ===== src/Examples/Calls.antt =====
-- The calls of the Raft service at a node of the cluster of three.
use macro_service.Prelude.{ℕ, ◌≡◌, refl, Option, none, some, [], ◌∷◌, arith, String, true}
use macro_service.Raft.Log.{get, new_entry}
use macro_service.Raft.Log.Valid.{IsValid}
use macro_service.Raft.State.Advances.{Advances}
use macro_service.Raft.Storage.{PersistentData}
use macro_service.Raft.Messages.{VoteRequest, VoteResponse, AppendEntriesRequest}
use macro_service.Raft.Node.{Node}
use macro_service.Raft.Election.{Rpc}
use macro_service.Raft.Rpc.{append_entries}
use macro_service.Raft.Rpc.Behind.{append_entries-behind}
use macro_service.Raft.Service
use macro_service.Raft.Service.{RaftService, new_service, serve_call}
use macro_service.Raft.Service.Calls.{alone, served, serve_call_keeps}
use macro_service.Examples.Cluster.{peers, leader_node, follower_node}
use macro_service.Examples.Disks.{memory}
use macro_service.Examples.Codecs.{small_codec}

-- The target of a transfer answers in term 2, and nobody votes.
abbrev answers : String → ℕ → Option ℕ
answers addr term = some 2

abbrev silent : Rpc VoteRequest VoteResponse
silent addr asked = none

abbrev leading : RaftService (Option PersistentData)
leading = new_service leader_node

abbrev transferred : RaftService (Option PersistentData)
transferred = served (
    serve_call memory small_codec peers (alone 7 180 silent answers) (Service.transfer_leader 2 2)
      leading)

serve_call_keeps_example :
    Advances leader_node.state.persistent transferred.node.state.persistent
    × (transferred.node.timer ≡ leader_node.timer)
serve_call_keeps_example =
    serve_call_keeps memory small_codec peers 7 180 silent answers (Service.transfer_leader 2 2)
      leading (omega arith)

-- A follower whose log begins behind a snapshot of two entries.
abbrev compacted : Node (Option PersistentData)
compacted = record (follower_node) {
  log = record { entries = []; snapshot_last_index = 2; snapshot_last_term = 1 };
}

abbrev from_start : AppendEntriesRequest
from_start = record {
  term = 2;
  leader_id = 1;
  prev_log_index = 0;
  prev_log_term = 0;
  entries = new_entry 1 1 [] ∷ [];
  leader_commit = 0;
}

append_entries-behind_example :
    let (n, r) = append_entries memory 5 200 from_start compacted in
    (r.success ≡ true)
    × (n.log.entries ≡ new_entry 1 1 [] ∷ [])
    × (n.log.snapshot_last_index ≡ 2)
    × (get n.log 3 ≡ some (new_entry 1 1 []))
    × ¬ (IsValid n.log)
append_entries-behind_example =
    append_entries-behind memory 5 200 from_start compacted (new_entry 1 1 []) [] (omega arith) refl
      refl refl (omega arith)
