-- ===== src/Raft/Agreement/Exchange.antt =====
-- replication.rs and rpc.rs together: a message of a heartbeat to one follower, what the follower
-- does with it, and what the leader does with the answer.
use macro_service.Prelude.{ℕ, zero, suc, Option, none, some}
use macro_service.Raft.Log.{LogStore}
use macro_service.Raft.State.{RaftState}
use macro_service.Raft.Storage.{Storage}
use macro_service.Raft.Node.{Node}
use macro_service.Raft.Rpc
use macro_service.Raft.Replication
use macro_service.Raft.Replication.{
  Heartbeat, Message, message_for, on_append_response, on_snapshot_response,
}
use macro_service.Kv.Store.{KvCodec}
use macro_service.Prelude.{get_elem?}

-- A panic of the task that handles an answer comes, where the two lists of indices are of one length,
-- before it writes anything.
abbrev pub after : RaftState → Option (RaftState × ℕ) → RaftState
after s none = s
after s (some (s', count)) = s'

module _ {D : Type 0} (storage : Storage D) (codec : KvCodec) (now ms majority i count : ℕ)
    (h : Heartbeat) (log : LogStore) where
  -- The follower's handler, and the task of the leader that waits for the answer; `count` is how many
  -- of this heartbeat succeeded before.
  unfoldable pub call : Message → RaftState → Node D → RaftState × Node D
  unfolding Rpc.append_entries Rpc.install_snapshot on_append_response on_snapshot_response
  call (Replication.append_entries req) s f =
      let (f', r) = Rpc.append_entries storage now ms req f in
      (after s (on_append_response now majority i r s count), f')
  call (Replication.install_snapshot req) s f =
      let (f', r) = Rpc.install_snapshot storage now ms codec req f in
      (after s (on_snapshot_response now majority i req.last_included_index r s count), f')
  call Replication.nothing s f = (s, f)

  -- The next index of the peer `i` chooses the message.
  unfoldable pub exchange : RaftState × Node D → RaftState × Node D
  unfolding call message_for
  exchange (s, f) = elim s.leader_state [
    | none ↦ (s, f)
    | some ls ↦ elim (get_elem? ls.next_index i) [
      | none ↦ (s, f)
      | some next_index ↦ call (message_for h log next_index) s f
    ]
  ]

  unfoldable pub rounds : ℕ → RaftState × Node D → RaftState × Node D
  unfolding exchange
  rounds zero p = p
  rounds (suc k) p = rounds k (exchange p)
