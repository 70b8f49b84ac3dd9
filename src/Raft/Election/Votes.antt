-- ===== src/Raft/Election/Votes.antt =====
-- election.rs: a node gives at most one vote in a term.
use macro_service.Prelude.{ℕ, ◌≤◌, ◌≡◌, true, some, arith}
use macro_service.Raft.State.{RaftState}
use macro_service.Raft.State.Advances.{Advances, Advances-trans}
use macro_service.Raft.Storage.{PersistentData, Storage, from_state_and_log}
use macro_service.Raft.Messages.{VoteRequest, VoteResponse}
use macro_service.Raft.Node.{Node, Meanwhile, returns}
use macro_service.Raft.Election.{
  may_vote_for, adopt_term, vote_for, Gaps, save_in_gap, handle_request_vote,
}

pub adopt_term-Advances :
    (term : ℕ) (s : RaftState) → Advances s.persistent (adopt_term term s).persistent
unfolding adopt_term
adopt_term-Advances term s = ground arith

pub vote_for-Advances :
    (c : ℕ) (s : RaftState)
    → may_vote_for s.persistent.voted_for c ≡ true
    → Advances s.persistent (vote_for c s).persistent
unfolding vote_for
vote_for-Advances c s h = ground arith

module _ {D : Type 0} where
  -- The other tasks keep the terms and the votes.
  pub record KeepsVotes (f : Meanwhile D) : Type 0 where
    pub at : (n : Node D) → Advances n.state.persistent (f n).state.persistent

  pub record GapsKeepVotes (gaps : Gaps D) : Type 0 where
    pub before_save : KeepsVotes gaps.before_save
    pub after_save : KeepsVotes gaps.after_save
    pub asking : KeepsVotes gaps.asking

  pub save_in_gap-Advances :
      (storage : Storage D) (gaps : Gaps D) (d : PersistentData) (n : Node D)
      → GapsKeepVotes gaps
      → Advances n.state.persistent (save_in_gap storage gaps d n).state.persistent
  unfolding save_in_gap
  save_in_gap-Advances storage gaps d n g =
      let m = gaps.before_save n in
      Advances-trans _ _ _ (g.before_save.at n)
        (g.after_save.at (record m { disk = (storage.save d m.disk).0 }))

-- The term and the vote under the lock, where the vote is granted.
pub granted_state :
    (req : VoteRequest) (s : RaftState)
    → s.persistent.current_term ≤ req.term
    → (vote_for req.candidate_id (adopt_term req.term s)).persistent
      ≡ record { current_term = req.term; voted_for = some req.candidate_id }
unfolding vote_for adopt_term
granted_state req s h = ground arith

module _ {D : Type 0} (storage : Storage D) where
  -- A vote is granted in the term of the request, and later states remember it.
  pub granted-Advances :
      (gaps : Gaps D) (req : VoteRequest) (n m : Node D) (a : VoteResponse)
      → GapsKeepVotes gaps
      → handle_request_vote storage gaps req n ≡ returns m a
      → a.vote_granted ≡ true
      → Advances
          (record { current_term = req.term; voted_for = some req.candidate_id })
          m.state.persistent
  unfolding handle_request_vote
  granted-Advances gaps req n m a g h t =
      let s = vote_for req.candidate_id (adopt_term req.term n.state) in
      ground (
        arith,
        save_in_gap-Advances storage gaps (from_state_and_log s.persistent n.log)
            (record n { state = s }) g,
      )

  -- A voter whose term and vote are known grants a request of that term only to the same candidate.
  pub granted_again :
      (gaps : Gaps D) (req : VoteRequest) (n m : Node D) (a : VoteResponse) (c : ℕ)
      → Advances (record { current_term = req.term; voted_for = some c }) n.state.persistent
      → handle_request_vote storage gaps req n ≡ returns m a
      → a.vote_granted ≡ true
      → c ≡ req.candidate_id
  unfolding handle_request_vote
  granted_again gaps req n m a c known h t = ground arith

  -- Whatever the other tasks do in between, two requests of one term that are both granted name one
  -- candidate, if those tasks keep terms and votes.
  pub one_vote_per_term :
      (gaps gaps' : Gaps D) (between : Meanwhile D) (req req' : VoteRequest) (n m m' : Node D)
      (a a' : VoteResponse)
      → GapsKeepVotes gaps
      → KeepsVotes between
      → req.term ≡ req'.term
      → handle_request_vote storage gaps req n ≡ returns m a
      → a.vote_granted ≡ true
      → handle_request_vote storage gaps' req' (between m) ≡ returns m' a'
      → a'.vote_granted ≡ true
      → req.candidate_id ≡ req'.candidate_id
  one_vote_per_term gaps gaps' between req req' n m m' a a' g b e h t h' t' =
      granted_again gaps' req' (between m) m' a' req.candidate_id
        (Advances-trans _ _ _ (rw e at (granted-Advances gaps req n m a g h t)) (b.at m)) h' t'
