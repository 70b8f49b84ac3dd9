-- ===== src/Startup/MainLoop.antt =====
-- main.rs, lines 188-233: one turn of the Raft loop of a node, after its sleep.
use macro_service.Prelude.{ℕ, Bool, true, false, Option, none, some, List, [], if◌then◌else◌}
use macro_service.Raft.Log.{LogStore}
use macro_service.Raft.Messages.{VoteRequest, VoteResponse}
use macro_service.Raft.Node.{Node, Meanwhile}
use macro_service.Raft.State.{is_leader}
use macro_service.Raft.Storage.{Storage}
use macro_service.Raft.Timer.{reset, is_expired, HeartbeatTimer, reset_beat, should_beat}
use macro_service.Raft.Election
use macro_service.Raft.Election.{Rpc, Peers, start_election}
use macro_service.Raft.Pending.{PendingRequests}
use macro_service.Raft.Replication.{Message, send_heartbeat}
use macro_service.Raft.Replication.Commit.{update_commit_index}
use macro_service.Raft.Replication.Apply.{apply_committed_entries}
use macro_service.Raft.Replication.Snapshot.{SnapshotGaps, should_snapshot, create_snapshot}
use macro_service.Kv.Store.{KvCodec}

-- What the loop works on, with what one turn sends and wakes.
pub record Loop (D : Type 0) : Type 0 where
  pub node : Node D
  pub heartbeat : HeartbeatTimer
  pub pending : PendingRequests
  pub sent : List Message
  pub woken : List ℕ

-- What a turn meets: the clock, at its tests and at its resets, the drawn timeout, the network, and
-- the other tasks between its locks.
pub record Turn (D : Type 0) : Type 0 where
  pub now : ℕ
  pub later : ℕ
  pub ms : ℕ
  pub pre_vote_rpc : Rpc VoteRequest VoteResponse
  pub rpc : Rpc VoteRequest VoteResponse
  pub logs_sent : ℕ → LogStore
  pub logs_tried : ℕ → LogStore
  pub after_role : Meanwhile D
  pub after_pre_votes : Meanwhile D
  pub election : Election.Gaps D
  pub after_election : Meanwhile D
  pub before_beat : Meanwhile D
  pub after_beat : Meanwhile D
  pub searching : Meanwhile D
  pub before_apply : Meanwhile D
  pub applying : Meanwhile D
  pub applied : Meanwhile D
  pub before_check : Meanwhile D
  pub before_snapshot : Meanwhile D
  pub snapshot : SnapshotGaps D

module _ {D : Type 0} (storage : Storage D) (codec : KvCodec) (peers : Peers) where
  -- The arm of the followers and candidates.
  unfoldable pub follow : Turn D → Loop D → Loop D
  unfolding start_election is_expired reset
  follow turn s =
      let n = turn.after_role s.node in
      if is_expired turn.now n.timer
      then (let m = turn.after_election (
            start_election storage turn.rpc peers turn.pre_vote_rpc turn.after_pre_votes
              turn.election n) in
          record s { node = record m { timer = reset turn.later turn.ms m.timer } })
      else record s { node = n }

  abbrev pub with_commit : Loop D → Option (Node D) → Option (Loop D)
  with_commit s none = none
  with_commit s (some n) = some (record s { node = n })

  -- A panic of the heartbeat ends the loop.
  abbrev pub after_heartbeat : Turn D → Loop D → List Message × Bool → Option (Loop D)
  after_heartbeat turn s (messages, false) = none
  after_heartbeat turn s (messages, true) =
      with_commit (record s { sent = messages })
        (update_commit_index peers turn.logs_tried turn.searching (turn.after_beat s.node))

  -- The arm of the leader.
  unfoldable pub lead : ℕ → Turn D → Loop D → Option (Loop D)
  unfolding should_beat reset_beat
  lead max_entries turn s =
      let n = turn.after_role s.node in
      if should_beat turn.now s.heartbeat
      then (let m = turn.before_beat n in
          after_heartbeat turn
            (record s { node = m; heartbeat = reset_beat turn.later s.heartbeat })
            (send_heartbeat storage max_entries peers turn.logs_sent m))
      else some (record s { node = n })

  -- The part that all nodes go through: apply, and snapshot where the log is long.
  unfoldable pub settle : ℕ → Turn D → Loop D → Loop D
  unfolding should_snapshot
  settle threshold turn s =
      let (n, pending, woken) =
        apply_committed_entries codec turn.applying turn.applied (turn.before_apply s.node)
          s.pending in
      let m = turn.before_check n in
      let k =
        if should_snapshot threshold m
        then (create_snapshot codec storage turn.snapshot (turn.before_snapshot m)).0
        else m in
      record s { node = k; pending = pending; woken = woken }

  abbrev pub settled : ℕ → Turn D → Option (Loop D) → Option (Loop D)
  settled threshold turn none = none
  settled threshold turn (some s) = some (settle threshold turn s)

  -- `none` is a panic, which ends the task of the loop for good.
  unfoldable pub turn_loop : ℕ → ℕ → Turn D → Loop D → Option (Loop D)
  unfolding follow lead settle
  turn_loop max_entries threshold turn s =
      let start = record s { sent = []; woken = [] } in
      settled threshold turn (
        if is_leader s.node.state.role
        then lead max_entries turn start
        else some (follow turn start))
