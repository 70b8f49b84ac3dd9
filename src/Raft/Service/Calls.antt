-- ===== src/Raft/Service/Calls.antt =====
-- rpc.rs: what all the calls of the service keep, where no other task runs during them.
use macro_service.Prelude.{
  ℕ, ◌+◌, ◌<◌, ◌≡◌, refl, Bool, true, false, Option, String, u64_mod, if◌then◌else◌, inl, inr,
  Bool-cases, ltb,
}
use macro_service.Raft.State.Advances.{Advances, Advances-refl}
use macro_service.Raft.Storage.{Storage}
use macro_service.Raft.Timer.{reset}
use macro_service.Raft.Messages.{VoteRequest, VoteResponse}
use macro_service.Raft.Node.{Node, Handled, returns, deadlocks}
use macro_service.Raft.Election
use macro_service.Raft.Election.{
  Rpc, Peers, handle_request_vote, handle_pre_vote, handle_timeout_now,
}
use macro_service.Raft.Election.Transfer
use macro_service.Raft.Election.Transfer.{Transfer, done, failed, handle_transfer_leader}
use macro_service.Raft.Rpc.Terms.{append_entries_terms, install_snapshot_terms}
use macro_service.Raft.Membership
use macro_service.Raft.Membership.{
  Members, Change, changed, refused, MemberResponse, handle_add_node, handle_remove_node,
  response_of,
}
use macro_service.Raft.Service.{
  RaftService, Call, request_vote, pre_vote, append, install, transfer_leader, timeout_now,
  add_node, remove_node, Served, answers, hangs, panics, Around, serve_call, serve_request_vote,
  serve_pre_vote, serve_transfer_leader, serve_timeout_now, serve_add_node, serve_remove_node,
  restart_timer, vote_served, transfer_served, change_served, members_of,
}
use macro_service.Raft.Service.Handlers.{
  Steady, Steady-refl, node_of, handle_pre_vote-node, quiet, after_transfer, changed_state,
  transfer_leader-Steady, handle_request_vote-Steady, handle_timeout_now-Steady,
  add_node-persistent, remove_node-persistent,
}
use macro_service.Kv.Store.{KvCodec}

-- The calls of another node that acts as a leader or as a candidate.
abbrev pub restarts_timer : Call → Bool
restarts_timer (request_vote req) = true
restarts_timer (append req) = true
restarts_timer (install req) = true
restarts_timer (timeout_now term) = true
restarts_timer _ = false

module _ {D : Type 0} where
  abbrev pub served : Served D → RaftService D
  served (answers s r) = s
  served (hangs s) = s
  served (panics s) = s

  -- No other task runs.
  abbrev pub alone : ℕ → ℕ → Rpc VoteRequest VoteResponse → (String → ℕ → Option ℕ) → Around D
  alone now ms rpc timeout_rpc = record {
    now = now;
    ms = ms;
    rpc = rpc;
    timeout_rpc = timeout_rpc;
    after_reset = λ n. n;
    relock = λ n. n;
    election = Election.undisturbed;
    before_transfer = λ n. n;
    transfer = quiet;
    before_change = λ m. m;
    membership = Membership.undisturbed;
  }

  abbrev Serves : Node D → Served D → Type 0
  Serves n r = Steady n (served r).node

  vote_served-Steady :
      (s : RaftService D) (h : Handled (Node D) VoteResponse)
      → Steady s.node (node_of h)
      → Serves s.node (vote_served s h)
  vote_served-Steady s (returns n a) h = h
  vote_served-Steady s (deadlocks n) h = h

  module _ (timeout_rpc : String → ℕ → Option ℕ) (target_id : ℕ) where
    answer-Steady :
        (s : RaftService D) (current_term : ℕ) (t : Transfer D)
        → Steady s.node (after_transfer s.node t)
        → Serves s.node
            (transfer_served s (Transfer.answer timeout_rpc quiet target_id current_term t))
    answer-Steady s current_term (done n) h = h
    answer-Steady s current_term (failed e n) h = h
    answer-Steady s current_term Transfer.panicked h = h

    transfer-Steady :
        (peers : Peers) (term : ℕ) (s : RaftService D)
        → Serves s.node (
            transfer_served s
              (handle_transfer_leader timeout_rpc quiet target_id (λ n. n) peers term s.node))
    unfolding handle_transfer_leader
    transfer-Steady peers term s =
        let t = s.node.state.persistent.current_term in
        elim (Bool-cases (ltb term t)) [
          | inl stale ↦ rw stale (Steady-refl s.node)
          | inr current ↦ rw current (
              answer-Steady s t (Transfer.transfer_leader timeout_rpc quiet target_id peers s.node)
                (transfer_leader-Steady timeout_rpc target_id peers s.node))
        ]

  change-Steady :
      (s : RaftService D) (term : ℕ) (c : Change)
      → (changed_state (members_of s) c).persistent ≡ s.node.state.persistent
      → Serves s.node (change_served (members_of s) s (response_of term c, c))
  change-Steady s term (changed m) e = record {
    advances = rw e (Advances-refl s.node.state.persistent);
    timer = refl;
  }
  change-Steady s term (refused r) e = Steady-refl s.node
  change-Steady s term (Membership.panicked m) e = record {
    advances = rw e (Advances-refl s.node.state.persistent);
    timer = refl;
  }

  add-Steady :
      (term node_id : ℕ) (s : RaftService D)
      → Serves s.node (
          change_served
            (members_of s)
            s
            (handle_add_node (λ m. m) Membership.undisturbed term node_id (members_of s)))
  unfolding handle_add_node
  add-Steady term node_id s =
      let t = s.node.state.persistent.current_term in
      elim (Bool-cases (ltb term t)) [
        | inl stale ↦ rw stale (Steady-refl s.node)
        | inr current ↦ rw current (
            change-Steady s t (Membership.add_node Membership.undisturbed node_id (members_of s))
              (add_node-persistent node_id (members_of s)))
      ]

  remove-Steady :
      (term node_id : ℕ) (s : RaftService D)
      → Serves s.node (
          change_served
            (members_of s)
            s
            (handle_remove_node (λ m. m) Membership.undisturbed term node_id (members_of s)))
  unfolding handle_remove_node
  remove-Steady term node_id s =
      let t = s.node.state.persistent.current_term in
      elim (Bool-cases (ltb term t)) [
        | inl stale ↦ rw stale (Steady-refl s.node)
        | inr current ↦ rw current (
            change-Steady s t (Membership.remove_node Membership.undisturbed node_id (members_of s))
              (remove_node-persistent node_id (members_of s)))
      ]

  module _ (storage : Storage D) (codec : KvCodec) (peers : Peers) where
    -- The node with its election timer as the call leaves it.
    abbrev ticked : ℕ → ℕ → Call → Node D → Node D
    ticked now ms call n = record n {
      timer = if restarts_timer call then reset now ms n.timer else n.timer;
    }

    serve_call-Steady :
        (now ms : ℕ) (rpc : Rpc VoteRequest VoteResponse) (timeout_rpc : String → ℕ → Option ℕ)
        (call : Call) (s : RaftService D)
        → s.node.state.persistent.current_term + 1 < u64_mod
        → Serves
            (ticked now ms call s.node)
            (serve_call storage codec peers (alone now ms rpc timeout_rpc) call s)
    unfolding serve_call serve_request_vote serve_pre_vote serve_transfer_leader serve_timeout_now
        serve_add_node serve_remove_node restart_timer
    serve_call-Steady now ms rpc timeout_rpc (request_vote req) s room =
        let t = restart_timer (alone now ms rpc timeout_rpc) s in
        vote_served-Steady t (handle_request_vote storage Election.undisturbed req t.node)
          (handle_request_vote-Steady storage req t.node)
    serve_call-Steady now ms rpc timeout_rpc (pre_vote req) s room =
        rw (handle_pre_vote-node req s.node) (Steady-refl s.node)
    serve_call-Steady now ms rpc timeout_rpc (append req) s room =
        let (terms, timer) = append_entries_terms storage now ms req s.node in
        record { advances = terms; timer = timer }
    serve_call-Steady now ms rpc timeout_rpc (install req) s room =
        let (terms, timer) = install_snapshot_terms storage now ms codec req s.node in
        record { advances = terms; timer = timer }
    serve_call-Steady now ms rpc timeout_rpc (transfer_leader term target_id) s room =
        transfer-Steady timeout_rpc target_id peers term s
    serve_call-Steady now ms rpc timeout_rpc (timeout_now term) s room =
        let t = restart_timer (alone now ms rpc timeout_rpc) s in
        handle_timeout_now-Steady storage rpc peers term t.node room
    serve_call-Steady now ms rpc timeout_rpc (add_node term node_id) s room =
        add-Steady term node_id s
    serve_call-Steady now ms rpc timeout_rpc (remove_node term node_id) s room =
        remove-Steady term node_id s

    -- No call of the service, run with no other task of the node at work and in a term that is not the
    -- last of a `u64`, lets the term of the node fall, or changes a vote given in its term, also where
    -- the call hangs or panics; and the election timer starts again at `append_entries`,
    -- `install_snapshot`, `request_vote` and `timeout_now`, refused ones included, and runs on at every
    -- other call.
    pub serve_call_keeps :
        (now ms : ℕ) (rpc : Rpc VoteRequest VoteResponse) (timeout_rpc : String → ℕ → Option ℕ)
        (call : Call) (s : RaftService D)
        → s.node.state.persistent.current_term + 1 < u64_mod
        → let t = served (serve_call storage codec peers (alone now ms rpc timeout_rpc) call s) in
          Advances s.node.state.persistent t.node.state.persistent
          × (t.node.timer
              ≡ (if restarts_timer call then reset now ms s.node.timer else s.node.timer))
    serve_call_keeps now ms rpc timeout_rpc call s room =
        let h = serve_call-Steady now ms rpc timeout_rpc call s room in (h.advances, h.timer)
