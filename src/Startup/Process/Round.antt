-- ===== src/Startup/Process/Round.antt =====
-- main.rs: what a turn of the loop, with no other task at work, does to the term and the vote.
use macro_service.Prelude.{
  ℕ, ◌+◌, ◌<◌, ◌≡◌, refl, ◌∙◌, Bool, true, false, Option, none, some, List, [], arith, u64_mod, leb,
  ltb, length, inl, inr, Bool-cases, Option-cases, add64, ◌-◌,
}
use macro_service.Raft.Log.{LogStore, last_index}
use macro_service.Raft.State.{is_leader, majority_of, become_candidate}
use macro_service.Raft.State.Advances.{
  Advances, Advances-refl, Advances-trans, become_follower-Advances, become_candidate-Advances,
  become_leader-Advances,
}
use macro_service.Raft.Storage.{Storage}
use macro_service.Raft.Messages.{VoteRequest, VoteResponse}
use macro_service.Raft.Node.{Node}
use macro_service.Raft.Timer.{is_expired, should_beat, reset_beat}
use macro_service.Raft.Election.{
  Rpc, Peers, Tally, higher_term, votes_received, undisturbed, save_in_gap, finish_election,
  start_real_election, start_election, count_votes, vote_request,
}
use macro_service.Raft.Replication.{Message, send_heartbeat}
use macro_service.Raft.Replication.Commit.{
  CommitResult, keep, commit_at, panics, finish_commit, find_commit, update_commit_index,
}
use macro_service.Raft.Replication.Apply.{apply_committed_entries}
use macro_service.Raft.Replication.Snapshot
use macro_service.Raft.Replication.Snapshot.{should_snapshot, create_snapshot}
use macro_service.Raft.Pending.{PendingRequests}
use macro_service.Kv.Store.{KvCodec}
use macro_service.Startup.MainLoop.{
  Loop, with_commit, after_heartbeat, settled, follow, lead, settle, turn_loop,
}
use macro_service.Startup.Process.{Outside, solo}

module _ {D : Type 0} where
  abbrev pub Moves : Node D → Node D → Type 0
  Moves n m = Advances n.state.persistent m.state.persistent

  finish_election-Moves :
      (peers : Peers) (tally : Tally) (n : Node D) → Moves n (finish_election peers tally n)
  unfolding finish_election
  finish_election-Moves peers (higher_term term) n = become_follower-Advances term none n.state
  finish_election-Moves peers (votes_received votes) n =
      elim (Bool-cases (leb (majority_of (length peers)) votes)) [
        | inl enough ↦ rw enough (become_leader-Advances n.state)
        | inr too_few ↦ rw too_few (Advances-refl n.state.persistent)
      ]

  -- Where it gives a node, that has the same term and vote.
  abbrev SamePersistent : Node D → Option (Node D) → Type 0
  SamePersistent n none = Unit
  SamePersistent n (some m) = m.state.persistent ≡ n.state.persistent

  finish_commit-SamePersistent :
      (r : CommitResult) (n : Node D) → SamePersistent n (finish_commit (λ k. k) r n)
  finish_commit-SamePersistent keep n = refl
  finish_commit-SamePersistent (commit_at i) n = refl
  finish_commit-SamePersistent panics n = tt

  update_commit_index-SamePersistent :
      (peers : Peers) (logs : ℕ → LogStore) (n : Node D)
      → SamePersistent n (update_commit_index peers logs (λ k. k) n)
  unfolding update_commit_index
  update_commit_index-SamePersistent peers logs n = elim (Bool-cases (is_leader n.state.role)) [
    | inr other ↦ rw other refl
    | inl leads ↦ elim (Option-cases n.state.leader_state) [
      | inl off ↦ simp (leads, off) refl
      | inr (ls, on) ↦
          simp (leads, on)
            (finish_commit-SamePersistent
              (find_commit n.state.persistent.current_term peers ls.match_index logs
                (add64 n.state.volatile.commit_index 1)
                (last_index n.log + 1 - add64 n.state.volatile.commit_index 1))
              n)
    ]
  ]

  apply-persistent :
      (codec : KvCodec) (n : Node D) (p : PendingRequests)
      → (apply_committed_entries codec (λ m. m) (λ m. m) n p).0.state.persistent
        ≡ n.state.persistent
  unfolding apply_committed_entries
  apply-persistent codec n p = ground arith

  module _ (storage : Storage D) (codec : KvCodec) where
    create_snapshot-persistent :
        (n : Node D)
        → (create_snapshot codec storage Snapshot.undisturbed n).0.state.persistent
          ≡ n.state.persistent
    unfolding create_snapshot
    create_snapshot-persistent n = ground arith

    start_real_election-Moves :
        (rpc : Rpc VoteRequest VoteResponse) (peers : Peers) (n : Node D)
        → n.state.persistent.current_term + 1 < u64_mod
        → Moves n (start_real_election storage rpc peers undisturbed n)
    unfolding start_real_election save_in_gap
    start_real_election-Moves rpc peers n room =
        Advances-trans n.state.persistent (become_candidate n.state).persistent _
          (become_candidate-Advances n.state room) (finish_election-Moves peers _ _)

    start_election-Moves :
        (rpc pre_vote_rpc : Rpc VoteRequest VoteResponse) (peers : Peers) (n : Node D)
        → n.state.persistent.current_term + 1 < u64_mod
        → Moves n (start_election storage rpc peers pre_vote_rpc (λ m. m) undisturbed n)
    unfolding start_election
    start_election-Moves rpc pre_vote_rpc peers n room =
        let req = vote_request (add64 n.state.persistent.current_term 1) n.state.node_id n.log in
        elim (Bool-cases
          (ltb (count_votes pre_vote_rpc req peers 1) (majority_of (length peers)))) [
            | inl few ↦ rw few (Advances-refl n.state.persistent)
            | inr enough ↦ rw enough (start_real_election-Moves rpc peers n room)
          ]

    module _ (peers : Peers) (outside : Outside) (n : Node D) where
      follow-Moves :
          (s : Loop D)
          → s.node.state.persistent.current_term + 1 < u64_mod
          → Moves s.node (follow storage codec peers (solo outside n) s).node
      unfolding follow
      follow-Moves s room = elim (Bool-cases (is_expired outside.now s.node.timer)) [
        | inl expired ↦
            rw expired (start_election-Moves outside.rpc outside.pre_vote_rpc peers s.node room)
        | inr early ↦ rw early (Advances-refl s.node.state.persistent)
      ]

      settle-persistent :
          (threshold : ℕ) (s : Loop D)
          → (settle storage codec peers threshold (solo outside n) s).node.state.persistent
            ≡ s.node.state.persistent
      unfolding settle
      settle-persistent threshold s =
          let m = (apply_committed_entries codec (λ m. m) (λ m. m) s.node s.pending).0 in
          elim (Bool-cases (should_snapshot threshold m)) [
            | inl long ↦
                rw long (create_snapshot-persistent m ∙ apply-persistent codec s.node s.pending)
            | inr short ↦ rw short (apply-persistent codec s.node s.pending)
          ]

      -- Where the turn goes on, the node has moved on.
      abbrev pub MovesIn : Node D → Option (Loop D) → Type 0
      MovesIn m none = Unit
      MovesIn m (some s) = Moves m s.node

      with_commit-MovesIn :
          (s : Loop D) (m : Node D) (o : Option (Node D))
          → SamePersistent m o
          → MovesIn m (with_commit storage codec peers s o)
      with_commit-MovesIn s m none h = tt
      with_commit-MovesIn s m (some k) h = rw h (Advances-refl m.state.persistent)

      after_heartbeat-MovesIn :
          (s : Loop D) (sent : List Message × Bool)
          → MovesIn s.node (after_heartbeat storage codec peers (solo outside n) s sent)
      after_heartbeat-MovesIn s (messages, false) = tt
      after_heartbeat-MovesIn s (messages, true) =
          with_commit-MovesIn (record s { sent = messages }) s.node _
            (update_commit_index-SamePersistent peers (λ i. n.log) s.node)

      lead-MovesIn :
          (max_entries : ℕ) (s : Loop D)
          → MovesIn s.node (lead storage codec peers max_entries (solo outside n) s)
      unfolding lead
      lead-MovesIn max_entries s = elim (Bool-cases (should_beat outside.now s.heartbeat)) [
        | inr early ↦ rw early (Advances-refl s.node.state.persistent)
        | inl due ↦ rw due (
            after_heartbeat-MovesIn (record s { heartbeat = reset_beat outside.later s.heartbeat })
              (send_heartbeat storage max_entries peers (λ i. n.log) s.node))
      ]

      settled-MovesIn :
          (threshold : ℕ) (m : Node D) (o : Option (Loop D))
          → MovesIn m o
          → MovesIn m (settled storage codec peers threshold (solo outside n) o)
      settled-MovesIn threshold m none h = tt
      settled-MovesIn threshold m (some s) h = rw (settle-persistent threshold s) h

      pub turn_loop-MovesIn :
          (max_entries threshold : ℕ) (s : Loop D)
          → s.node.state.persistent.current_term + 1 < u64_mod
          → MovesIn s.node (turn_loop storage codec peers max_entries threshold (solo outside n) s)
      unfolding turn_loop
      turn_loop-MovesIn max_entries threshold s room =
          let start = record s { sent = []; woken = [] } in
          elim (Bool-cases (is_leader s.node.state.role)) [
            | inl leads ↦ rw leads (
                settled-MovesIn threshold s.node
                  (lead storage codec peers max_entries (solo outside n) start)
                  (lead-MovesIn max_entries start))
            | inr other ↦ rw other (
                settled-MovesIn threshold s.node
                  (some (follow storage codec peers (solo outside n) start))
                  (follow-Moves start room))
          ]
