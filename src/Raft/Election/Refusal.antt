-- ===== src/Raft/Election/Refusal.antt =====
-- election.rs: how `handle_request_vote` ends.
use macro_service.Prelude.{
  ◌≤◌, ◌<◌, ◌≡◌, ◌↔◌, ◌⊎◌, inl, inr, none, some, true, false, not, ◌&&◌, ltb, [], sym, ◌∙◌, arith,
  refl, Bool-cases,
}
use macro_service.Raft.Log.{last_term, last_index}
use macro_service.Raft.State.{RaftState}
use macro_service.Raft.Storage.{Storage, from_state_and_log}
use macro_service.Raft.Messages.{VoteRequest, VoteResponse}
use macro_service.Raft.Node.{Node, returns, deadlocks}
use macro_service.Raft.Election.{
  may_vote_for, adopt_term, Gaps, handle_request_vote, vote_for, save_in_gap, vote_reply,
  grants_vote,
}
use macro_service.Raft.Election.Locks.{waits_for_itself, vote_locks}
use macro_service.Raft.Election.UpToDate.{
  AtLeastAsNew, log_is_up_to_date_sound, log_is_up_to_date_complete,
}

module _ {D : Type 0} (req : VoteRequest) (n : Node D) where
  -- The voter has no vote for another candidate in the term of the request.
  abbrev pub HasVote : Type 0
  HasVote =
      (n.state.persistent.current_term < req.term)
      ⊎ ((n.state.persistent.voted_for ≡ none)
          ⊎ (n.state.persistent.voted_for ≡ some req.candidate_id))

  -- The rule of Raft for a vote: the candidate's term is not behind, the voter gave no vote to another
  -- candidate in that term, and the candidate's log is at least as new as its own.
  abbrev pub MayGrant : Type 0
  MayGrant =
      (n.state.persistent.current_term ≤ req.term)
      × HasVote
      × AtLeastAsNew req.last_log_term req.last_log_index (last_term n.log) (last_index n.log)

  may_vote_for-HasVote :
      may_vote_for (adopt_term req.term n.state).persistent.voted_for req.candidate_id ≡ true
      → HasVote
  unfolding adopt_term
  may_vote_for-HasVote h = ground arith

  HasVote-may_vote_for :
      HasVote
      → may_vote_for (adopt_term req.term n.state).persistent.voted_for req.candidate_id ≡ true
  unfolding adopt_term
  HasVote-may_vote_for h = ground arith

  voted_persistent :
      n.state.persistent.current_term ≤ req.term
      → (vote_for req.candidate_id (adopt_term req.term n.state)).persistent
        ≡ record { current_term = req.term; voted_for = some req.candidate_id }
  unfolding adopt_term vote_for
  voted_persistent le = ground arith

module _ {D : Type 0} (storage : Storage D) (gaps : Gaps D) (req : VoteRequest) (n : Node D) where
  -- The node as it answers, where `s` is the state that it saves first.
  abbrev pub saving : RaftState → Node D
  saving s =
      save_in_gap storage gaps (from_state_and_log s.persistent n.log) (record n { state = s })

  -- The handler ends with a vote.
  abbrev pub Grants : Type 0
  Grants =
      (m : Node D) × (a : VoteResponse) × (handle_request_vote storage gaps req n ≡ returns m a)
      × (a.vote_granted ≡ true)

  -- The handler ends with a vote, and has written the term and the vote to the state and to the disk.
  abbrev pub Records : Type 0
  Records =
      (s : RaftState) × (a : VoteResponse) × (handle_request_vote storage gaps req n
        ≡ returns (saving s) a)
      × (a.vote_granted ≡ true)
      × (s.persistent ≡ record { current_term = req.term; voted_for = some req.candidate_id })

  -- Whatever the other tasks do, a request is answered with a vote exactly if the rule of Raft allows
  -- the vote, and exactly then with a vote that stands, with the term of the request, in the state and in
  -- what was saved before the answer.
  pub handle_request_vote-grants : (Grants ↔ MayGrant req n) × (Records ↔ MayGrant req n)
  unfolding handle_request_vote
  handle_request_vote-grants =
      let rule : Grants → MayGrant req n = λ h. (
        ground arith,
        may_vote_for-HasVote req n (ground arith),
        log_is_up_to_date_sound req n.log (ground arith),
      ) in
      let records : MayGrant req n → Records = λ h.
        let newer = log_is_up_to_date_complete req n.log h.2 in
        let free = HasVote-may_vote_for req n h.1 in
        let s = vote_for req.candidate_id (adopt_term req.term n.state) in
        (s, vote_reply (saving s) true, ground arith, refl, voted_persistent req n h.0) in
      (
        (rule, λ h. let r = records h in (saving r.0, r.1, r.2, r.3)),
        ((λ r. rule (saving r.0, r.1, r.2, r.3)), records),
      )

  -- The locks of the handler end in a wait for itself where the request is not behind and is refused.
  vote_locks-waits : waits_for_itself [] (vote_locks req n) ≡ (
      not (ltb req.term n.state.persistent.current_term)
      && not (grants_vote req (adopt_term req.term n.state) n.log))
  unfolding vote_locks
  vote_locks-waits =
      let current_term = n.state.persistent.current_term in
      elim (Bool-cases (ltb req.term current_term)) [
        | inl stale ↦ rw stale refl
        | inr current ↦ elim (Bool-cases (ltb current_term req.term)) [
          | inl newer ↦ elim (Bool-cases (grants_vote req (adopt_term req.term n.state) n.log)) [
            | inl granted ↦ rw (current, newer, granted) refl
            | inr refused ↦ rw (current, newer, refused) refl
          ]
          | inr same ↦ elim (Bool-cases (grants_vote req (adopt_term req.term n.state) n.log)) [
            | inl granted ↦ rw (current, same, granted) refl
            | inr refused ↦ rw (current, same, refused) refl
          ]
        ]
      ]

  -- The request is not behind the term of the node, and the rule of Raft refuses the vote.
  abbrev pub Refused : Type 0
  Refused = (n.state.persistent.current_term ≤ req.term) × (¬ MayGrant req n)

  refused_grants_vote : Refused → grants_vote req (adopt_term req.term n.state) n.log ≡ false
  refused_grants_vote h = elim (Bool-cases (grants_vote req (adopt_term req.term n.state) n.log)) [
    | inl granted ↦ absurd (
        h.1 (
          h.0,
          may_vote_for-HasVote req n (ground arith),
          log_is_up_to_date_sound req n.log (ground arith),
        ))
    | inr refused ↦ refused
  ]

  grants_vote-Refused :
      ltb req.term n.state.persistent.current_term ≡ false
      → grants_vote req (adopt_term req.term n.state) n.log ≡ false
      → Refused
  grants_vote-Refused current refused = (
    ground arith,
    λ g.
        let newer = log_is_up_to_date_complete req n.log g.2 in
        let free = HasVote-may_vote_for req n g.1 in ground arith,
  )

  -- Whatever the other tasks do, the handler comes to a lock that it keeps from itself, and waits for
  -- ever, exactly if the request is not behind the node's term and the rule of Raft refuses the vote.
  pub handle_request_vote-deadlocks :
      ((waits_for_itself [] (vote_locks req n) ≡ true) ↔ Refused)
      × (((m : Node D) × (handle_request_vote storage gaps req n ≡ deadlocks m)) ↔ Refused)
  unfolding handle_request_vote
  handle_request_vote-deadlocks = (
    (
      (λ h. let e = sym vote_locks-waits ∙ h in grants_vote-Refused (ground arith) (ground arith)),
      λ h. let refused = refused_grants_vote h in vote_locks-waits ∙ ground arith,
    ),
    (
      (λ h. grants_vote-Refused (ground arith) (ground arith)),
      λ h.
          let refused = refused_grants_vote h in
          (record n { state = adopt_term req.term n.state }, ground arith),
    ),
  )
