-- ===== src/Raft/Service/Handlers.antt =====
-- election.rs and membership.rs: what the handlers that run by themselves do to the term, to the vote
-- and to the election timer.
use macro_service.Prelude.{
  ℕ, ◌+◌, ◌<◌, ◌≡◌, refl, Option, none, some, List, arith, u64_mod, leb, ltb, le-or-lt, inl, inr,
  lt→ltb, le→ltb, Bool-cases, Option-cases, String, length, get_elem?, not, ◌==◌, ◌∙◌,
}
use macro_service.Raft.Log.{last_index}
use macro_service.Raft.State.{
  RaftState, LeaderState, majority_of, become_follower, become_candidate, is_leader,
}
use macro_service.Raft.State.Advances.{
  Advances, Advances-refl, Advances-trans, become_follower-Advances, become_candidate-Advances,
  become_leader-Advances,
}
use macro_service.Raft.Storage.{Storage}
use macro_service.Raft.Messages.{VoteRequest, VoteResponse}
use macro_service.Raft.Node.{Node, Handled, returns, deadlocks}
use macro_service.Raft.Election.{
  Rpc, Peers, undisturbed, save_in_gap, finish_election, votes_received, handle_request_vote,
  handle_pre_vote, handle_timeout_now, adopt_term, grants_vote,
}
use macro_service.Raft.Election.Votes.{adopt_term-Advances, vote_for-Advances}
use macro_service.Raft.Election.Transfer.{
  Transfer, done, failed, panicked, TransferGaps, step_down, call_target, transfer_to,
  transfer_leader, find_peer,
}
use macro_service.Raft.Membership
use macro_service.Raft.Membership.{
  Members, Change, changed, refused, panicked, remove_at, position, shrink, drop_node,
  finish_change, with_indices, mark, push_node, add_node, remove_node,
}

module _ {D : Type 0} where
  -- The vote stays or the term grows, and the election timer runs on.
  pub record Steady (n m : Node D) : Type 0 where
    pub advances : Advances n.state.persistent m.state.persistent
    pub timer : m.timer ≡ n.timer

  pub Steady-refl : (n : Node D) → Steady n n
  Steady-refl n = record { advances = Advances-refl n.state.persistent; timer = refl }

  pub Steady-trans : (n m k : Node D) → Steady n m → Steady m k → Steady n k
  Steady-trans n m k h g = record {
    advances = Advances-trans _ m.state.persistent _ h.advances g.advances;
    timer = g.timer ∙ h.timer;
  }

  pub of_state :
      (s : RaftState) (n : Node D)
      → Advances n.state.persistent s.persistent
      → Steady n (record n { state = s })
  of_state s n h = record { advances = h; timer = refl }

  abbrev pub node_of : {A : Type 0} → Handled (Node D) A → Node D
  node_of (returns n a) = n
  node_of (deadlocks n) = n

  pub handle_pre_vote-node : (req : VoteRequest) (n : Node D) → (handle_pre_vote req n).0 ≡ n
  unfolding handle_pre_vote
  handle_pre_vote-node req n = ground arith

  abbrev pub quiet : TransferGaps D
  quiet = record { before_term = λ n. n; calling = λ n. n; before_last = λ n. n }

  -- The node after a transfer; `n` is what it is where the transfer panics.
  abbrev pub after_transfer : Node D → Transfer D → Node D
  after_transfer n (done m) = m
  after_transfer n (failed e m) = m
  after_transfer n panicked = n

  module _ (timeout_now : String → ℕ → Option ℕ) (target_id : ℕ) where
    step_down-Steady :
        (current_term : ℕ) (answer : Option ℕ) (n : Node D)
        → Steady n (after_transfer n (step_down timeout_now quiet target_id current_term answer n))
    unfolding step_down
    step_down-Steady current_term none n = Steady-refl n
    step_down-Steady current_term (some term) n = elim (Bool-cases (ltb current_term term)) [
      | inl newer ↦
          let s = become_follower term (some target_id) n.state in
          rw newer (
            of_state (become_follower current_term (some target_id) s) n (
              Advances-trans n.state.persistent s.persistent _
                (become_follower-Advances term (some target_id) n.state)
                (become_follower-Advances current_term (some target_id) s)))
      | inr known ↦
          rw known (of_state _ n (become_follower-Advances current_term (some target_id) n.state))
    ]

    call_target-Steady :
        (addr : String) (match_index : Option ℕ) (last : ℕ) (n : Node D)
        → Steady n
            (after_transfer n (call_target timeout_now quiet target_id addr match_index last n))
    unfolding call_target
    call_target-Steady addr none last n = Steady-refl n
    call_target-Steady addr (some match_index) last n = elim (Bool-cases (ltb match_index last)) [
      | inl behind ↦ rw behind (Steady-refl n)
      | inr ready ↦ rw ready (
          step_down-Steady n.state.persistent.current_term
            (timeout_now addr n.state.persistent.current_term) n)
    ]

    transfer_to-Steady :
        (peer : Option (ℕ × String)) (ls : Option LeaderState) (n : Node D)
        → Steady n (after_transfer n (transfer_to timeout_now quiet target_id peer ls n))
    unfolding transfer_to
    transfer_to-Steady none ls n = Steady-refl n
    transfer_to-Steady (some (i, addr)) none n = Steady-refl n
    transfer_to-Steady (some (i, addr)) (some ls) n =
        call_target-Steady addr (get_elem? ls.match_index (i + 1)) (last_index n.log) n

    pub transfer_leader-Steady :
        (peers : Peers) (n : Node D)
        → Steady n (after_transfer n (transfer_leader timeout_now quiet target_id peers n))
    unfolding transfer_leader
    transfer_leader-Steady peers n = elim (Bool-cases (not (is_leader n.state.role))) [
      | inl other ↦ rw other (Steady-refl n)
      | inr leads ↦ elim (Bool-cases (target_id == n.state.node_id)) [
        | inl itself ↦ rw (leads, itself) (Steady-refl n)
        | inr peer ↦
            rw (leads, peer)
              (transfer_to-Steady (find_peer target_id 0 peers) n.state.leader_state n)
      ]
    ]

  module _ (storage : Storage D) where
    pub handle_request_vote-Steady :
        (req : VoteRequest) (n : Node D)
        → Steady n (node_of (handle_request_vote storage undisturbed req n))
    unfolding handle_request_vote save_in_gap
    handle_request_vote-Steady req n =
        let t = n.state.persistent.current_term in
        let s = adopt_term req.term n.state in
        let adopted = adopt_term-Advances req.term n.state in
        elim (le-or-lt t req.term) [
          | inr stale ↦ rw (lt→ltb req.term t stale) (Steady-refl n)
          | inl current ↦ elim (Bool-cases (grants_vote req s n.log)) [
            | inr refuses ↦ rw (le→ltb req.term t current, refuses) (of_state s n adopted)
            | inl granted ↦
                rw (le→ltb req.term t current, granted)
                  (record {
                    advances =
                        Advances-trans _ s.persistent _ adopted
                          (vote_for-Advances req.candidate_id s (ground (arith, granted)));
                    timer = refl;
                  })
          ]
        ]

    finish_election-Steady :
        (peers : Peers) (votes : ℕ) (n : Node D)
        → Steady n (finish_election peers (votes_received votes) n)
    unfolding finish_election
    finish_election-Steady peers votes n =
        elim (Bool-cases (leb (majority_of (length peers)) votes)) [
          | inl enough ↦ rw enough (of_state _ n (become_leader-Advances n.state))
          | inr too_few ↦ rw too_few (Steady-refl n)
        ]

    save-Steady :
        (n : Node D)
        → (n.state.persistent.current_term + 1 < u64_mod)
        → (d : _)
        → Steady n
            (save_in_gap storage undisturbed d (record n { state = become_candidate n.state }))
    unfolding save_in_gap
    save-Steady n room d = record {
      advances = become_candidate-Advances n.state room;
      timer = refl;
    }

    pub handle_timeout_now-Steady :
        (rpc : Rpc VoteRequest VoteResponse) (peers : Peers) (term : ℕ) (n : Node D)
        → n.state.persistent.current_term + 1 < u64_mod
        → Steady n (handle_timeout_now storage rpc peers (λ m. m) undisturbed term n).0
    unfolding handle_timeout_now
    handle_timeout_now-Steady rpc peers term n room =
        elim (le-or-lt n.state.persistent.current_term term) [
          | inr stale ↦ rw (lt→ltb term _ stale) (Steady-refl n)
          | inl current ↦
              rw (le→ltb term _ current)
                (Steady-trans n _ _ (save-Steady n room _) (finish_election-Steady peers _ _))
        ]

-- The state after a change of the members; `m` is what it is where the change was refused.
abbrev pub changed_state : Members → Change → RaftState
changed_state m (changed m') = m'.state
changed_state m (refused r) = m.state
changed_state m (panicked m') = m'.state

pub add_node-persistent :
    (node_id : ℕ) (m : Members)
    → (changed_state m (add_node Membership.undisturbed node_id m)).persistent ≡ m.state.persistent
unfolding add_node push_node
add_node-persistent node_id m = ground arith

indices-persistent :
    (m k : Members) (ls : LeaderState) (nexts : List ℕ) (o : Option (List ℕ))
    → (changed_state k
        (finish_change Membership.undisturbed (with_indices m ls nexts o))).persistent
      ≡ m.state.persistent
indices-persistent m k ls nexts none = refl
indices-persistent m k ls nexts (some matches) = refl

shrink-persistent :
    (peer_idx : ℕ) (m k : Members) (ls : Option LeaderState)
    → (changed_state k (finish_change Membership.undisturbed (shrink peer_idx m ls))).persistent
      ≡ m.state.persistent
shrink-persistent peer_idx m k none = refl
shrink-persistent peer_idx m k (some ls) =
    elim (Option-cases (remove_at ls.next_index (peer_idx + 1))) [
      | inl outside ↦ rw (outside, changed_state, finish_change) refl
      | inr (nexts, inside) ↦
          rw (inside, changed_state, finish_change)
            (indices-persistent m k ls nexts (remove_at ls.match_index (peer_idx + 1)))
    ]

drop_node-persistent :
    (peer_idx : ℕ) (m k : Members)
    → (changed_state k (finish_change Membership.undisturbed (drop_node peer_idx m))).persistent
      ≡ m.state.persistent
unfolding drop_node
drop_node-persistent peer_idx m k = elim (Option-cases (remove_at m.state.peers peer_idx)) [
  | inl outside ↦ rw (outside, changed_state, finish_change) refl
  | inr (peers, inside) ↦
      let m' : Members = record m { state = record m.state { peers = peers } } in
      rw (inside, changed_state, finish_change)
        (shrink-persistent peer_idx m' k m.state.leader_state)
]

pub remove_node-persistent :
    (node_id : ℕ) (m : Members)
    → (changed_state m (remove_node Membership.undisturbed node_id m)).persistent
      ≡ m.state.persistent
unfolding remove_node
remove_node-persistent node_id m = elim (Option-cases (position node_id m.state.peers)) [
  | inl absent ↦ ground (arith, absent)
  | inr (peer_idx, here) ↦ ground (arith, here, drop_node-persistent peer_idx (mark m) m)
]
