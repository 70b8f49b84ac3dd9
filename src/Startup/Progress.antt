-- ===== src/Startup/Progress.antt =====
-- main.rs over replication.rs: what a turn of a leader's loop brings, with no other task at work.
pub mod Applied
use macro_service.Prelude.{
  ℕ, ◌+◌, ◌-◌, ◌≤◌, ◌<◌, ◌≡◌, refl, ap, true, some, [], ◌∷◌, arith, u64_mod, add64, length,
  get_elem?-some, inl, inr, lt→leb, Bool-cases,
}
use macro_service.Raft.Log.{LogStore, last_index}
use macro_service.Raft.Messages.{VoteRequest, VoteResponse}
use macro_service.Raft.State.{LeaderState, is_leader}
use macro_service.Raft.Node.{Node}
use macro_service.Raft.Storage.{Storage}
use macro_service.Raft.Timer.{should_beat, reset_beat}
use macro_service.Raft.Election
use macro_service.Raft.Election.{Rpc, Peers}
use macro_service.Raft.Pending.{PendingRequests, notify_committed}
use macro_service.Raft.Replication.{Heartbeat, messages, send_heartbeat, heartbeat_of}
use macro_service.Raft.Replication.Commit.{set_commit}
use macro_service.Raft.Replication.CommitRule.{
  Committable, CommitRaised-high, update_commit_index-CommitRaised,
}
use macro_service.Raft.Replication.Apply.{apply_range, set_applied, apply_committed_entries}
use macro_service.Raft.Replication.Snapshot
use macro_service.Raft.Replication.Snapshot.{create_snapshot}
use macro_service.Kv.Store.{KvCodec}
use macro_service.Startup.MainLoop.{Loop, Turn, lead, settle, turn_loop}

-- A heartbeat with an index for every peer does not panic.
messages-completed :
    (h : Heartbeat) (logs : ℕ → LogStore) (peers : Peers) (i : ℕ)
    → i + length peers < length h.next_indices
    → (messages h logs peers i).1 ≡ true
unfolding messages
messages-completed h logs [] i fits = refl
messages-completed h logs (p ∷ peers) i fits =
    let (next, found) = get_elem?-some h.next_indices (i + 1) (omega arith) in
    ground (arith, found, messages-completed h logs peers (i + 1))

module _ {D : Type 0} (storage : Storage D) (codec : KvCodec) (peers : Peers) where
  create_snapshot-state :
      (n : Node D)
      → ((create_snapshot codec storage Snapshot.undisturbed n).0.state ≡ n.state)
        × ((create_snapshot codec storage Snapshot.undisturbed n).0.kv ≡ n.kv)
  unfolding create_snapshot
  create_snapshot-state n = (ground arith, ground arith)

  send_heartbeat-completed :
      (max_entries : ℕ) (n : Node D) (ls : LeaderState)
      → is_leader n.state.role ≡ true
      → n.state.leader_state ≡ some ls
      → length peers < length ls.next_index
      → (send_heartbeat storage max_entries peers (λ i. n.log) n).1 ≡ true
  unfolding send_heartbeat
  send_heartbeat-completed max_entries n ls leads here fits =
      simp (leads, here)
        (messages-completed (heartbeat_of storage max_entries ls.next_index n) (λ i. n.log) peers 0
          (unfold heartbeat_of in omega arith))

  -- A turn in which no other task runs, at the time `now`, with the log `log`.
  abbrev pub quiet : ℕ → ℕ → Rpc VoteRequest VoteResponse → LogStore → Turn D
  quiet now ms rpc log = record {
    now = now;
    later = now;
    ms = ms;
    pre_vote_rpc = rpc;
    rpc = rpc;
    logs_sent = λ i. log;
    logs_tried = λ i. log;
    after_role = λ n. n;
    after_pre_votes = λ n. n;
    election = Election.undisturbed;
    after_election = λ n. n;
    before_beat = λ n. n;
    after_beat = λ n. n;
    searching = λ n. n;
    before_apply = λ n. n;
    applying = λ n. n;
    applied = λ n. n;
    before_check = λ n. n;
    before_snapshot = λ n. n;
    snapshot = Snapshot.undisturbed;
  }

  apply_all-eq :
      (n : Node D) (p : PendingRequests)
      → n.state.volatile.last_applied < n.state.volatile.commit_index
      → n.state.volatile.commit_index + 1 < u64_mod
      → apply_committed_entries codec (λ m. m) (λ m. m) n p ≡ (
        set_applied codec n.state.volatile.commit_index (record n {
          kv =
              apply_range codec n.log
                (n.state.volatile.last_applied + 1)
                (n.state.volatile.commit_index - n.state.volatile.last_applied)
                n.kv;
        }),
        (notify_committed n.state.volatile.commit_index p).0,
        (notify_committed n.state.volatile.commit_index p).1,
      )
  unfolding apply_committed_entries
  apply_all-eq n p behind room =
      let rounds : n.state.volatile.commit_index + 1 - add64 n.state.volatile.last_applied 1
          ≡ n.state.volatile.commit_index - n.state.volatile.last_applied =
        omega arith in
      let next : add64 n.state.volatile.last_applied 1 ≡ n.state.volatile.last_applied + 1 =
        omega arith in
      rw (lt→leb n.state.volatile.commit_index n.state.volatile.last_applied behind, rounds, next)
        refl

  settle-applies :
      (threshold now ms : ℕ) (rpc : Rpc VoteRequest VoteResponse) (log : LogStore) (s : Loop D)
      → s.node.state.volatile.last_applied < s.node.state.volatile.commit_index
      → s.node.state.volatile.commit_index + 1 < u64_mod
      → let s' = settle storage codec peers threshold (quiet now ms rpc log) s in
        (s'.node.state.volatile ≡ record {
          commit_index = s.node.state.volatile.commit_index;
          last_applied = s.node.state.volatile.commit_index;
        })
        × (s'.node.kv
            ≡ apply_range codec s.node.log
                (s.node.state.volatile.last_applied + 1)
                (s.node.state.volatile.commit_index - s.node.state.volatile.last_applied)
                s.node.kv)
        × (s'.woken ≡ (notify_committed s.node.state.volatile.commit_index s.pending).1)
  unfolding settle
  settle-applies threshold now ms rpc log s behind room =
      let all = apply_all-eq s.node s.pending behind room in
      let n = s.node in
      let a = n.state.volatile.last_applied in
      let c = n.state.volatile.commit_index in
      let m =
        set_applied codec c (record n { kv = apply_range codec n.log (a + 1) (c - a) n.kv }) in
      let (state, kv) = create_snapshot-state m in
      elim (Bool-cases (Snapshot.should_snapshot threshold m)) [
        | inl long ↦ rw (all, long) (ap (λ r. r.volatile) state, kv, refl)
        | inr short ↦ rw (all, short) (refl, refl, refl)
      ]

  module _ (max_entries now ms : ℕ) (rpc : Rpc VoteRequest VoteResponse) (s : Loop D) where
    abbrev turn : Turn D
    turn = quiet now ms rpc s.node.log

    -- The loop after the leader's arm.
    abbrev led : Loop D
    led = record s {
      node = set_commit (last_index s.node.log) s.node;
      heartbeat = reset_beat now s.heartbeat;
      sent = (send_heartbeat storage max_entries peers (λ i. s.node.log) s.node).0;
    }

    lead-commits :
        (ls : LeaderState)
        → is_leader s.node.state.role ≡ true
        → s.node.state.leader_state ≡ some ls
        → should_beat now s.heartbeat ≡ true
        → length peers < length ls.next_index
        → length peers < length ls.match_index
        → s.node.state.volatile.commit_index < last_index s.node.log
        → last_index s.node.log < u64_mod
        → Committable s.node.state.persistent.current_term peers ls.match_index
            (λ i. s.node.log)
            (last_index s.node.log)
        → lead storage codec peers max_entries turn s ≡ some led
    unfolding lead
    lead-commits ls leads here due nexts matches behind room rule =
        let n = s.node in
        let top = last_index n.log in
        let sends = send_heartbeat-completed max_entries n ls leads here nexts in
        let commits =
          CommitRaised-high n
            (Committable n.state.persistent.current_term peers ls.match_index (λ i. n.log))
            n.state.volatile.commit_index top _
            (update_commit_index-CommitRaised peers (λ i. n.log) (λ m. m) n ls leads here matches
              (omega arith))
            behind rule in
        ground (arith, sends, commits)

  module _ (max_entries threshold now ms : ℕ) (rpc : Rpc VoteRequest VoteResponse)
      (s : Loop D) where
    pub turn_loop_lem :
        (ls : LeaderState)
        → is_leader s.node.state.role ≡ true
        → s.node.state.leader_state ≡ some ls
        → should_beat now s.heartbeat ≡ true
        → length peers < length ls.next_index
        → length peers < length ls.match_index
        → s.node.state.volatile.last_applied ≤ s.node.state.volatile.commit_index
        → s.node.state.volatile.commit_index < last_index s.node.log
        → last_index s.node.log + 1 < u64_mod
        → Committable s.node.state.persistent.current_term peers ls.match_index
            (λ i. s.node.log)
            (last_index s.node.log)
        → (s' : Loop D) × (turn_loop storage codec peers max_entries threshold
              (quiet now ms rpc s.node.log)
              s
            ≡ some s')
          × (s'.node.state.volatile.commit_index ≡ last_index s.node.log)
          × (s'.node.state.volatile.last_applied ≡ last_index s.node.log)
          × (s'.node.kv
              ≡ apply_range codec s.node.log
                  (s.node.state.volatile.last_applied + 1)
                  (last_index s.node.log - s.node.state.volatile.last_applied)
                  s.node.kv)
          × (s'.woken ≡ (notify_committed (last_index s.node.log) s.pending).1)
    unfolding turn_loop
    turn_loop_lem ls leads here due nexts matches applied_low behind room rule =
        let start = record s { sent = []; woken = [] } in
        let leads' =
          lead-commits max_entries now ms rpc start ls leads here due nexts matches behind
            (omega arith) rule in
        let after = led max_entries now ms rpc start in
        let (volatile, kv, wakes) =
          settle-applies threshold now ms rpc s.node.log after (omega arith) room in
        (
          settle storage codec peers threshold (quiet now ms rpc s.node.log) after,
          rw (leads, leads') refl,
          ap (λ v. v.commit_index) volatile,
          ap (λ v. v.last_applied) volatile,
          kv,
          wakes,
        )
