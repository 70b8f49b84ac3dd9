-- ===== src/Cluster/Grants.antt =====
-- What each handler does to the term and the vote of its node, in memory and on the disk.
use macro_service.Prelude.{
  ℕ, ◌+◌, ◌<◌, ◌≡◌, ◌⊎◌, inl, inr, refl, ap, ◌∙◌, true, false, some, List, [], map, arith, length,
  u64_mod, leb, le-or-lt, lt→ltb, le→ltb, none, false, Option, Bool-cases,
}
use macro_service.Raft.State.{PersistentState, become_candidate, majority_of}
use macro_service.Raft.State.Advances.{
  Advances, Advances-refl, Advances-trans, become_candidate-Advances, become_leader-Advances,
}
use macro_service.Raft.Storage.{PersistentData, Storage, from_state_and_log}
use macro_service.Raft.Messages.{VoteRequest, VoteResponse}
use macro_service.Raft.Node.{Node, Handled, returns, deadlocks}
use macro_service.Raft.Election.{
  log_is_up_to_date, vote_request, Peers, votes_received, finish_election, undisturbed, save_in_gap,
  handle_request_vote, adopt_term, grants_vote,
}
use macro_service.Raft.Election.Votes.{granted_state, adopt_term-Advances, vote_for-Advances}
use macro_service.Config.{NodeConfig}
use macro_service.Startup.Boot.{boot}
use macro_service.Startup.{recover, start_from}
use macro_service.Cluster.{own_vote, stand, restart}

module _ {D : Type 0} (storage : Storage D) where
  -- The term and the vote that a node would start with from its disk.
  abbrev pub disk_of : D → PersistentState
  disk_of disk = (recover storage 0 [] disk).0.persistent

  -- A save always succeeds.
  pub record IsReliable : Type 0 where
    pub saved : (d : PersistentData) (disk : D) → (storage.save d disk).1 ≡ true

  -- A handler keeps the term and the vote or goes on to a newer term; and it leaves the disk, or
  -- leaves on it what it has in memory.
  pub record IsSafe (n m : Node D) : Type 0 where
    pub advances : Advances n.state.persistent m.state.persistent
    pub disk : (disk_of m.disk ≡ disk_of n.disk) ⊎ (disk_of m.disk ≡ m.state.persistent)

  -- The answer to a request for a vote: a grant is in memory and on the disk before it is sent.
  abbrev pub Answered : VoteRequest → Node D → Handled (Node D) VoteResponse → Type 0
  Answered req n (deadlocks m) = Unit
  Answered req n (returns m a) =
      ((a.vote_granted ≡ false) × (m ≡ n))
      ⊎ ((a.vote_granted ≡ true)
          × Advances n.state.persistent m.state.persistent
          × (m.state.persistent
              ≡ record { current_term = req.term; voted_for = some req.candidate_id })
          × (disk_of m.disk ≡ m.state.persistent)
          × (log_is_up_to_date req n.log ≡ true))

  start_from-persistent :
      (node_id : ℕ) (peers : List ℕ) (o : Option (Option PersistentData))
      → (start_from node_id peers o).0.persistent ≡ (start_from 0 [] o).0.persistent
  unfolding start_from
  start_from-persistent node_id peers (some (some d)) = refl
  start_from-persistent node_id peers (some none) = refl
  start_from-persistent node_id peers none = refl

  started :
      (d : PersistentData)
      → (start_from 0 [] (some (some d))).0.persistent
        ≡ record { current_term = d.current_term; voted_for = d.voted_for }
  unfolding start_from
  started d = refl

  module _ (reliable : IsReliable) where
    pub disk_of-save :
        (d : PersistentData) (disk : D)
        → disk_of (storage.save d disk).0
          ≡ record { current_term = d.current_term; voted_for = d.voted_for }
    unfolding recover
    disk_of-save d disk =
        ap (λ o. (start_from 0 [] o).0.persistent)
          (storage.load-save_ok d disk (reliable.saved d disk))
        ∙ started d

    pub stand-disk :
        (n : Node D) → disk_of (stand storage n).disk ≡ (stand storage n).state.persistent
    unfolding stand save_in_gap from_state_and_log
    stand-disk n = disk_of-save _ n.disk

    pub handle_request_vote-Answered :
        (req : VoteRequest) (n : Node D)
        → Answered req n (handle_request_vote storage undisturbed req n)
    unfolding handle_request_vote save_in_gap from_state_and_log
    handle_request_vote-Answered req n =
        let t = n.state.persistent.current_term in
        let s = adopt_term req.term n.state in
        elim (le-or-lt t req.term) [
          | inr stale ↦ rw (lt→ltb req.term t stale) (inl (refl, refl))
          | inl current ↦ elim (Bool-cases (grants_vote req s n.log)) [
            | inr refused ↦ rw (le→ltb req.term t current, refused) tt
            | inl granted ↦
                rw (le→ltb req.term t current, granted)
                  (inr (
                    refl,
                    Advances-trans _ _ _ (adopt_term-Advances req.term n.state)
                        (vote_for-Advances req.candidate_id s (ground (arith, granted))),
                    granted_state req n.state current,
                    disk_of-save _ n.disk,
                    ground (arith, granted),
                  ))
          ]
        ]

  pub stand-persistent :
      (n : Node D)
      → (stand storage n).state.persistent
        ≡ record { current_term = (own_vote n).term; voted_for = some (own_vote n).candidate_id }
  unfolding stand save_in_gap become_candidate vote_request
  stand-persistent n = refl

  -- A log is not newer than itself.
  pub own_vote_up_to_date : (n : Node D) → log_is_up_to_date (own_vote n) n.log ≡ true
  unfolding log_is_up_to_date vote_request
  own_vote_up_to_date n = ground arith

  pub stand-Advances :
      (n : Node D)
      → n.state.persistent.current_term + 1 < u64_mod
      → Advances n.state.persistent (stand storage n).state.persistent
  unfolding stand save_in_gap
  stand-Advances n room = become_candidate-Advances n.state room

  pub finish_election-IsSafe :
      (peers : Peers) (count : ℕ) (n : Node D)
      → IsSafe n (finish_election peers (votes_received count) n)
  unfolding finish_election
  finish_election-IsSafe peers count n =
      elim (Bool-cases (leb (majority_of (length peers)) count)) [
        | inl enough ↦
            rw enough (record { advances = become_leader-Advances n.state; disk = inl refl })
        | inr too_few ↦
            rw too_few (record { advances = Advances-refl n.state.persistent; disk = inl refl })
      ]

  pub restart-disk :
      (config : NodeConfig) (now ms : ℕ) (n : Node D)
      → (restart storage config now ms n).disk ≡ n.disk
  unfolding restart boot
  restart-disk config now ms n = refl

  -- A node starts again with the term and the vote on its disk.
  pub restart-persistent :
      (config : NodeConfig) (now ms : ℕ) (n : Node D)
      → (restart storage config now ms n).state.persistent ≡ disk_of n.disk
  unfolding restart boot
  restart-persistent config now ms n =
      start_from-persistent config.node_id (map (λ p. p.id) config.peers) (storage.load n.disk)
