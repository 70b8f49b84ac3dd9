-- ===== src/Raft/Service.antt =====
-- rpc.rs: `RaftServiceImpl`, all the calls that the nodes and an administrator make of a node, each
-- with what it does to the election timer before it is handled.
pub mod Handlers
pub mod Calls
use macro_service.Prelude.{ℕ, Bool, Option, none, some, String}
use macro_service.Config.{NodeConfig}
use macro_service.Raft.Storage.{Storage}
use macro_service.Raft.Timer.{reset}
use macro_service.Raft.Messages.{
  VoteRequest, VoteResponse, AppendEntriesRequest, AppendEntriesResponse, InstallSnapshotRequest,
  InstallSnapshotResponse,
}
use macro_service.Raft.Node.{Node, Meanwhile, Handled, returns, deadlocks}
use macro_service.Raft.Election
use macro_service.Raft.Election.{
  Rpc, Peers, handle_request_vote, handle_pre_vote, handle_timeout_now,
}
use macro_service.Raft.Election.Transfer.{TransferGaps, handle_transfer_leader}
use macro_service.Raft.Rpc.{append_entries, install_snapshot}
use macro_service.Raft.Membership
use macro_service.Raft.Membership.{
  Members, Change, changed, refused, panicked, MemberResponse, handle_add_node, handle_remove_node,
}
use macro_service.Kv.Store.{KvCodec}

-- The cells of the node, with the flag of `membership`.
pub record RaftService (D : Type 0) : Type 0 where
  pub node : Node D
  pub changing : Bool

-- `RaftServiceImpl::new`, with the `Membership::new` that `main` gives it.
abbrev pub new_service : {D : Type 0} → Node D → RaftService D
new_service n = record { node = n; changing = (Membership.new_membership n.state n.log).changing }

pub data Call : Type 0 where
  request_vote : VoteRequest → Call
  pre_vote : VoteRequest → Call
  append : AppendEntriesRequest → Call
  install : InstallSnapshotRequest → Call
  transfer_leader : ℕ → ℕ → Call
  timeout_now : ℕ → Call
  add_node : ℕ → ℕ → Call
  remove_node : ℕ → ℕ → Call

-- `TransferLeaderResponse` and `TimeoutNowResponse` have the fields given here.
pub data Reply : Type 0 where
  voted : VoteResponse → Reply
  appended : AppendEntriesResponse → Reply
  installed : InstallSnapshotResponse → Reply
  transferred : ℕ → Bool → Reply
  timed_out : ℕ → Reply
  member : MemberResponse → Reply

-- A call is answered, waits for ever for a lock, or panics at an index out of bounds.
pub data Served (D : Type 0) : Type 0 where
  answers : RaftService D → Reply → Served D
  hangs : RaftService D → Served D
  panics : RaftService D → Served D

-- What a call meets: the clock, the drawn timeout, the network, and the other tasks between its locks.
pub record Around (D : Type 0) : Type 0 where
  pub now : ℕ
  pub ms : ℕ
  pub rpc : Rpc VoteRequest VoteResponse
  pub timeout_rpc : String → ℕ → Option ℕ
  pub after_reset : Meanwhile D
  pub relock : Meanwhile D
  pub election : Election.Gaps D
  pub before_transfer : Meanwhile D
  pub transfer : TransferGaps D
  pub before_change : Members → Members
  pub membership : Membership.Gaps

-- The cells after a change; `kept` is what they are where it was refused.
abbrev pub after_change : Members → Change → Members
after_change kept (changed m) = m
after_change kept (refused r) = kept
after_change kept (panicked m) = m

module _ {D : Type 0} where
  abbrev pub members_of : RaftService D → Members
  members_of s = record { state = s.node.state; log = s.node.log; changing = s.changing }

  abbrev pub with_members : Members → RaftService D → RaftService D
  with_members m s = record {
    node = record s.node { state = m.state; log = m.log };
    changing = m.changing;
  }

  -- The first lines of the calls that reset the election timer.
  unfoldable pub restart_timer : Around D → RaftService D → RaftService D
  unfolding reset
  restart_timer around s = record s {
    node = record s.node { timer = reset around.now around.ms s.node.timer };
  }

  abbrev pub vote_served : RaftService D → Handled (Node D) VoteResponse → Served D
  vote_served s (returns n a) = answers (record s { node = n }) (voted a)
  vote_served s (deadlocks n) = hangs (record s { node = n })

  abbrev pub transfer_served : RaftService D → Option (Node D × ℕ × Bool) → Served D
  transfer_served s none = panics s
  transfer_served s (some (n, term, success)) =
      answers (record s { node = n }) (transferred term success)

  abbrev pub change_served : Members → RaftService D → Option MemberResponse × Change → Served D
  change_served kept s (some r, c) = answers (with_members (after_change kept c) s) (member r)
  change_served kept s (none, c) = panics (with_members (after_change kept c) s)

  module _ (storage : Storage D) (codec : KvCodec) (peers : Peers) where
    unfoldable pub serve_request_vote : Around D → VoteRequest → RaftService D → Served D
    unfolding restart_timer handle_request_vote
    serve_request_vote around req s =
        let t = restart_timer around s in
        vote_served t (handle_request_vote storage around.election req (around.after_reset t.node))

    -- A pre-vote leaves the election timer alone.
    unfoldable pub serve_pre_vote : VoteRequest → RaftService D → Served D
    unfolding handle_pre_vote
    serve_pre_vote req s =
        let (n, a) = handle_pre_vote req s.node in answers (record s { node = n }) (voted a)

    unfoldable pub serve_transfer_leader : Around D → ℕ → ℕ → RaftService D → Served D
    unfolding handle_transfer_leader
    serve_transfer_leader around term target_id s =
        transfer_served (record s { node = around.before_transfer s.node })
          (handle_transfer_leader around.timeout_rpc around.transfer target_id
            around.before_transfer peers term s.node)

    unfoldable pub serve_timeout_now : Around D → ℕ → RaftService D → Served D
    unfolding restart_timer handle_timeout_now
    serve_timeout_now around term s =
        let t = restart_timer around s in
        let (n, answer) =
          handle_timeout_now storage around.rpc peers around.relock around.election term
            (around.after_reset t.node) in
        answers (record s { node = n }) (timed_out answer)

    unfoldable pub serve_add_node : Around D → ℕ → ℕ → RaftService D → Served D
    unfolding handle_add_node
    serve_add_node around term node_id s =
        change_served (around.before_change (members_of s)) s
          (handle_add_node around.before_change around.membership term node_id (members_of s))

    unfoldable pub serve_remove_node : Around D → ℕ → ℕ → RaftService D → Served D
    unfolding handle_remove_node
    serve_remove_node around term node_id s =
        change_served (around.before_change (members_of s)) s
          (handle_remove_node around.before_change around.membership term node_id (members_of s))

    -- `append_entries` and `install_snapshot` reset the timer themselves.
    unfoldable pub serve_call : Around D → Call → RaftService D → Served D
    unfolding serve_request_vote serve_pre_vote append_entries install_snapshot
        serve_transfer_leader serve_timeout_now serve_add_node serve_remove_node
    serve_call around (request_vote req) s = serve_request_vote around req s
    serve_call around (pre_vote req) s = serve_pre_vote req s
    serve_call around (append req) s =
        let (n, a) = append_entries storage around.now around.ms req s.node in
        answers (record s { node = n }) (appended a)
    serve_call around (install req) s =
        let (n, a) = install_snapshot storage around.now around.ms codec req s.node in
        answers (record s { node = n }) (installed a)
    serve_call around (transfer_leader term target_id) s =
        serve_transfer_leader around term target_id s
    serve_call around (timeout_now term) s = serve_timeout_now around term s
    serve_call around (add_node term node_id) s = serve_add_node around term node_id s
    serve_call around (remove_node term node_id) s = serve_remove_node around term node_id s
