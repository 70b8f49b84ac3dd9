-- ===== src/Cluster/Replicas/Handlers.antt =====
-- What the handlers do to the logs of a node, in memory and on the disk.
use macro_service.Prelude.{
  ℕ, ◌+◌, ◌≤◌, ◌<◌, ◌≡◌, ◌≢◌, ◌⊎◌, inl, inr, refl, sym, ◌∙◌, true, Option, none, some, List, arith,
  u64_mod, le-or-lt, lt→ltb, le→ltb, Bool-cases, le→leb, length, map, [],
}
use macro_service.Raft.Log.{LogStore, last_index, match_entry}
use macro_service.Raft.State.{
  RaftState, follower, candidate, leader, majority_of, become_leader, become_candidate,
}
use macro_service.Raft.Storage.{PersistentData, Storage, from_state_and_log}
use macro_service.Raft.Timer.{ElectionTimer, reset}
use macro_service.Raft.Messages.{VoteRequest, VoteResponse, AppendEntriesRequest}
use macro_service.Raft.Node.{Node, Handled, returns, deadlocks}
use macro_service.Raft.Election.{
  Peers, undisturbed, save_in_gap, finish_election, votes_received, handle_request_vote, adopt_term,
  vote_for, grants_vote,
}
use macro_service.Raft.Rpc.{append_entries, follow_leader, follow_commit, store_entries}
use macro_service.Config.{NodeConfig}
use macro_service.Startup.{recover, start_from}
use macro_service.Startup.Boot.{boot}
use macro_service.Startup.Durable.{recover-save}
use macro_service.Cluster.{stand, restart}
use macro_service.Cluster.Grants.{IsReliable}
use macro_service.Cluster.Replicas.{Quiet, log_of}

module _ {D : Type 0} where
  pub Quiet-refl : (n : Node D) → Quiet n n
  Quiet-refl n = record {
    node_id = refl;
    log = refl;
    leads = λ h. (h, refl);
    waits = λ h. (h, refl);
  }

  follow_leader-Quiet :
      (term id : ℕ) (n : Node D) (timer : ElectionTimer)
      → Quiet n (record n { state = follow_leader term id n.state; timer = timer })
  unfolding follow_leader
  follow_leader-Quiet term id n timer = record {
    node_id = ground arith;
    log = refl;
    leads = λ h. ground arith;
    waits = λ h. ground arith;
  }

module _ {D : Type 0} (storage : Storage D) where
  -- The node is quiet, and its disk keeps its log or gets the one in memory.
  pub record Calm (n m : Node D) : Type 0 where
    pub quiet : Quiet n m
    pub disk : (log_of storage m.disk ≡ log_of storage n.disk) ⊎ (log_of storage m.disk ≡ n.log)

  start_from-log :
      (node_id : ℕ) (peers : List ℕ) (o : Option (Option PersistentData))
      → (start_from node_id peers o).1 ≡ (start_from 0 [] o).1
  unfolding start_from
  start_from-log node_id peers (some (some d)) = refl
  start_from-log node_id peers (some none) = refl
  start_from-log node_id peers none = refl

  pub restart-log :
      (config : NodeConfig) (now ms : ℕ) (n : Node D)
      → (restart storage config now ms n).log ≡ log_of storage n.disk
  unfolding restart boot recover
  restart-log config now ms n =
      start_from-log config.node_id (map (λ p. p.id) config.peers) (storage.load n.disk)

  start_from-state :
      (node_id : ℕ) (peers : List ℕ) (o : Option (Option PersistentData))
      → ((start_from node_id peers o).0.role ≡ follower)
        × ((start_from node_id peers o).0.node_id ≡ node_id)
  unfolding start_from
  start_from-state node_id peers (some (some d)) = (refl, refl)
  start_from-state node_id peers (some none) = (refl, refl)
  start_from-state node_id peers none = (refl, refl)

  pub restart-state :
      (config : NodeConfig) (now ms : ℕ) (n : Node D)
      → ((restart storage config now ms n).state.role ≡ follower)
        × ((restart storage config now ms n).state.node_id ≡ config.node_id)
  unfolding restart boot recover
  restart-state config now ms n =
      start_from-state config.node_id (map (λ p. p.id) config.peers) (storage.load n.disk)

  module _ (reliable : IsReliable storage) where
    pub log_of-save :
        (s : RaftState) (l : LogStore) (disk : D)
        → log_of storage (storage.save (from_state_and_log s.persistent l) disk).0 ≡ l
    log_of-save s l disk = (recover-save storage 0 [] s.persistent l disk (reliable.saved _ disk)).1

    abbrev pub Votes : Node D → Handled (Node D) VoteResponse → Type 0
    Votes n (returns m a) = Calm n m
    Votes n (deadlocks m) = Unit

    granted_quiet :
        (req : VoteRequest) (n : Node D) (d : D)
        → n.state.persistent.current_term ≤ req.term
        → Quiet n
            (record n { state = vote_for req.candidate_id (adopt_term req.term n.state); disk = d })
    unfolding vote_for adopt_term
    granted_quiet req n d le = record {
      node_id = ground arith;
      log = refl;
      leads = λ h. ground arith;
      waits = λ h. ground arith;
    }

    pub handle_request_vote-Votes :
        (req : VoteRequest) (n : Node D) → Votes n (handle_request_vote storage undisturbed req n)
    unfolding handle_request_vote save_in_gap
    handle_request_vote-Votes req n =
        let t = n.state.persistent.current_term in
        let s = adopt_term req.term n.state in
        elim (le-or-lt t req.term) [
          | inr stale ↦
              rw (lt→ltb req.term t stale) (record { quiet = Quiet-refl n; disk = inl refl })
          | inl current ↦ elim (Bool-cases (grants_vote req s n.log)) [
            | inr refuses ↦ rw (le→ltb req.term t current, refuses) tt
            | inl granted ↦
                rw (le→ltb req.term t current, granted)
                  (record {
                    quiet = granted_quiet req n _ current;
                    disk = inr (log_of-save (vote_for req.candidate_id s) n.log n.disk);
                  })
          ]
        ]

    -- An accepted request: what is stored, and what a leader knows that accepts it.
    pub record Stored (req : AppendEntriesRequest) (n m : Node D) : Type 0 where
      pub consistent : match_entry n.log req.prev_log_index req.prev_log_term ≡ true
      pub node_id : m.state.node_id ≡ n.state.node_id
      pub log : m.log ≡ store_entries req.entries n.log
      pub disk : log_of storage m.disk ≡ m.log
      pub leads :
          m.state.role ≡ leader
          → (n.state.role ≡ leader) × (n.state.persistent.current_term ≡ req.term)
      pub waits : m.state.role ≢ candidate

    follow_commit-role :
        (leader_commit match_index : ℕ) (s : RaftState)
        → ((follow_commit leader_commit match_index s).role ≡ s.role)
          × ((follow_commit leader_commit match_index s).node_id ≡ s.node_id)
    unfolding follow_commit
    follow_commit-role leader_commit match_index s = (ground arith, ground arith)

    follow_leader-node_id :
        (term id : ℕ) (s : RaftState) → (follow_leader term id s).node_id ≡ s.node_id
    unfolding follow_leader
    follow_leader-node_id term id s = ground arith

    follow_leader-leads :
        (term id : ℕ) (s : RaftState)
        → s.persistent.current_term ≤ term
        → (follow_leader term id s).role ≡ leader
        → (s.role ≡ leader) × (s.persistent.current_term ≡ term)
    unfolding follow_leader
    follow_leader-leads term id s le h = ground arith

    follow_leader-waits : (term id : ℕ) (s : RaftState) → (follow_leader term id s).role ≢ candidate
    unfolding follow_leader
    follow_leader-waits term id s h = ground arith

    pub append_entries-Stored :
        (now ms : ℕ) (req : AppendEntriesRequest) (n : Node D)
        → Calm n (append_entries storage now ms req n).0
          ⊎ Stored req n (append_entries storage now ms req n).0
    unfolding append_entries
    append_entries-Stored now ms req n =
        let t = n.state.persistent.current_term in
        let s = follow_leader req.term req.leader_id n.state in
        elim (le-or-lt t req.term) [
          | inr stale ↦ rw (lt→ltb req.term t stale) (
              inl (record {
                quiet = record {
                  node_id = refl;
                  log = refl;
                  leads = λ h. (h, refl);
                  waits = λ h. (h, refl);
                };
                disk = inl refl;
              }))
          | inl current ↦
              elim (Bool-cases (match_entry n.log req.prev_log_index req.prev_log_term)) [
                | inr other ↦
                    rw (le→ltb req.term t current, other)
                      (inl (record {
                        quiet = follow_leader-Quiet req.term req.leader_id n (reset now ms n.timer);
                        disk = inl refl;
                      }))
                | inl same ↦
                    let log = store_entries req.entries n.log in
                    let (role, id) = follow_commit-role req.leader_commit (last_index log) s in
                    rw (le→ltb req.term t current, same)
                      (inr (record {
                        consistent = same;
                        node_id = id ∙ follow_leader-node_id req.term req.leader_id n.state;
                        log = refl;
                        disk =
                            log_of-save (follow_commit req.leader_commit (last_index log) s) log
                              n.disk;
                        leads = λ h.
                            follow_leader-leads req.term req.leader_id n.state current
                              (sym role ∙ h);
                        waits =
                            λ h. follow_leader-waits req.term req.leader_id n.state (sym role ∙ h);
                      }))
              ]
        ]

    -- A node that stands for election.
    pub stand_lem :
        (n : Node D)
        → n.state.persistent.current_term + 1 < u64_mod
        → ((stand storage n).state.role ≡ candidate)
          × ((stand storage n).state.node_id ≡ n.state.node_id)
          × ((stand storage n).state.persistent.current_term ≡ n.state.persistent.current_term + 1)
          × ((stand storage n).log ≡ n.log)
          × (log_of storage (stand storage n).disk ≡ n.log)
    unfolding stand save_in_gap become_candidate
    stand_lem n room =
        (refl, refl, omega arith, refl, log_of-save (become_candidate n.state) n.log n.disk)

    -- A node that wins an election.
    pub finish_election_lem :
        (peers : Peers) (count : ℕ) (n : Node D)
        → majority_of (length peers) ≤ count
        → finish_election peers (votes_received count) n
          ≡ record n { state = become_leader n.state }
    unfolding finish_election
    finish_election_lem peers count n enough = rw (le→leb _ count enough) refl
