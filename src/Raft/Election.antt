-- ===== src/Raft/Election.antt =====
-- server-rust/src/raft/election.rs. Where a handler holds no lock the other tasks of the node may
-- run: what they do is an argument of the type `Meanwhile`.
pub mod Votes
pub mod UpToDate
pub mod Majority
pub mod Locks
pub mod Refusal
pub mod Stale
pub mod Transfer
pub mod Wins
use macro_service.Prelude.{
  ℕ, ◌+◌, Bool, true, false, ◌&&◌, not, Option, none, some, List, [], ◌∷◌, ltb, leb, ◌==◌,
  if◌then◌else◌, length, add64, String,
}
use macro_service.Raft.Log.{LogStore, last_index, last_term}
use macro_service.Raft.State.{
  RaftState, follower, is_leader, become_follower, become_candidate, become_leader, majority_of,
}
use macro_service.Raft.Storage.{PersistentData, Storage, from_state_and_log}
use macro_service.Raft.Messages.{VoteRequest, VoteResponse}
use macro_service.Raft.Node.{Node, Meanwhile, Handled, returns, deadlocks}

-- The candidate's last entry against the voter's.
unfoldable pub log_is_up_to_date : VoteRequest → LogStore → Bool
log_is_up_to_date req l =
    if ltb (last_term l) req.last_log_term
    then true
    else if req.last_log_term == last_term l
    then leb (last_index l) req.last_log_index
    else false

abbrev pub may_vote_for : Option ℕ → ℕ → Bool
may_vote_for none candidate_id = true
may_vote_for (some voted) candidate_id = voted == candidate_id

-- The higher term of a request: `leader_id` is left alone.
unfoldable pub adopt_term : ℕ → RaftState → RaftState
adopt_term term s =
    if ltb s.persistent.current_term term
    then record s { persistent = record { current_term = term; voted_for = none }; role = follower }
    else s

unfoldable pub vote_for : ℕ → RaftState → RaftState
vote_for candidate_id s = record s {
  persistent = record s.persistent { voted_for = some candidate_id };
}

abbrev pub grants_vote : VoteRequest → RaftState → LogStore → Bool
grants_vote req s l =
    may_vote_for s.persistent.voted_for req.candidate_id && log_is_up_to_date req l

-- The reply reads the term again, under a lock of its own.
abbrev pub vote_reply : {D : Type 0} → Node D → Bool → VoteResponse
vote_reply n granted = record { term = n.state.persistent.current_term; vote_granted = granted }

-- The answer of a peer: `none` where the connection or the call failed. An `Rpc` is the network.
abbrev pub Rpc : Type 0 → Type 0 → Type 0
Rpc Q A = String → Q → Option A

-- The addresses of `Election.peers`, with the identifiers.
abbrev pub Peers : Type 0
Peers = List (ℕ × String)

abbrev pub granted_by : Option VoteResponse → ℕ
granted_by none = 0
granted_by (some r) = if r.vote_granted then 1 else 0

-- The vote loops of `start_election` and `handle_timeout_now`, which read only `vote_granted`.
unfoldable pub count_votes {ℓ} :
    {Q : Type ℓ} → (String → Q → Option VoteResponse) → Q → Peers → ℕ → ℕ
count_votes rpc req [] votes = votes
count_votes rpc req ((peer, addr) ∷ peers) votes =
    count_votes rpc req peers (votes + granted_by (rpc addr req))

pub data Tally : Type 0 where
  higher_term : ℕ → Tally
  votes_received : ℕ → Tally

abbrev pub term_of : Option VoteResponse → ℕ
term_of none = 0
term_of (some r) = r.term

-- The vote loop of `start_real_election`, which stops at a response of a higher term.
unfoldable pub collect_votes : Rpc VoteRequest VoteResponse → VoteRequest → Peers → ℕ → Tally
collect_votes rpc req [] votes = votes_received votes
collect_votes rpc req ((peer, addr) ∷ peers) votes =
    let answer = rpc addr req in
    let rest = collect_votes rpc req peers (votes + granted_by answer) in
    if ltb req.term (term_of answer) then higher_term (term_of answer) else rest

unfoldable pub vote_request : ℕ → ℕ → LogStore → VoteRequest
vote_request term candidate_id l = record {
  term = term;
  candidate_id = candidate_id;
  last_log_index = last_index l;
  last_log_term = last_term l;
}

-- The other tasks, at the awaits of an election: before and after its save, and while it asks.
pub record Gaps (D : Type 0) : Type 0 where
  pub before_save : Meanwhile D
  pub after_save : Meanwhile D
  pub asking : Meanwhile D

-- No other task runs.
abbrev pub undisturbed : {D : Type 0} → Gaps D
undisturbed = record { before_save = λ n. n; after_save = λ n. n; asking = λ n. n }

unfoldable pub finish_election : {D : Type 0} → Peers → Tally → Node D → Node D
unfolding become_follower become_leader
finish_election peers (higher_term term) n = record n { state = become_follower term none n.state }
finish_election peers (votes_received votes) n =
    if leb (majority_of (length peers)) votes then record n { state = become_leader n.state } else n

module _ {D : Type 0} where
  -- The state is locked throughout; `PreVoteRequest` and `PreVoteResponse` have the fields of
  -- `VoteRequest` and `VoteResponse`.
  unfoldable pub handle_pre_vote : VoteRequest → Node D → Node D × VoteResponse
  unfolding log_is_up_to_date
  handle_pre_vote req n =
      let current_term = n.state.persistent.current_term in
      let refusal : VoteResponse = record { term = current_term; vote_granted = false } in
      if ltb req.term current_term
      then (n, refusal)
      else if is_leader n.state.role
      then (n, refusal)
      else if not (log_is_up_to_date req n.log)
      then (n, refusal)
      else (n, record { term = current_term; vote_granted = true })

module _ {D : Type 0} (storage : Storage D) where
  unfoldable pub save_in_gap : Gaps D → PersistentData → Node D → Node D
  save_in_gap gaps d n =
      let m = gaps.before_save n in gaps.after_save (record m { disk = (storage.save d m.disk).0 })

  -- A refusal in the current or a newer term keeps the write lock on the state, and then waits for
  -- the read lock on it.
  unfoldable pub handle_request_vote : Gaps D → VoteRequest → Node D → Handled (Node D) VoteResponse
  unfolding adopt_term vote_for log_is_up_to_date from_state_and_log
  handle_request_vote gaps req n =
      let current_term = n.state.persistent.current_term in
      if ltb req.term current_term
      then returns n (record { term = current_term; vote_granted = false })
      else (let s = adopt_term req.term n.state in
          if grants_vote req s n.log
          then (let s' = vote_for req.candidate_id s in
              let m =
                save_in_gap gaps (from_state_and_log s'.persistent n.log)
                  (record n { state = s' }) in
              returns m (vote_reply m true))
          else deadlocks (record n { state = s }))

  module _ (rpc : Rpc VoteRequest VoteResponse) (peers : Peers) where
    unfoldable pub start_real_election : Gaps D → Node D → Node D
    unfolding become_candidate from_state_and_log vote_request finish_election
    start_real_election gaps n =
        let s = become_candidate n.state in
        let d = from_state_and_log s.persistent n.log in
        let m = save_in_gap gaps d (record n { state = s }) in
        let req = vote_request s.persistent.current_term s.node_id m.log in
        finish_election peers (collect_votes rpc req peers 1) (gaps.asking m)

    -- `pre_vote_rpc` asks for the pre-votes, and `before` is what runs while they come in.
    unfoldable pub start_election :
        Rpc VoteRequest VoteResponse → Meanwhile D → Gaps D → Node D → Node D
    unfolding start_real_election
    start_election pre_vote_rpc before gaps n =
        let next_term = add64 n.state.persistent.current_term 1 in
        let req = vote_request next_term n.state.node_id n.log in
        let pre_votes = count_votes pre_vote_rpc req peers 1 in
        let m = before n in
        if ltb pre_votes (majority_of (length peers)) then m else start_real_election gaps m

    -- `relock` is what runs between the two locks on the state.
    unfoldable pub handle_timeout_now : Meanwhile D → Gaps D → ℕ → Node D → Node D × ℕ
    unfolding become_candidate become_leader from_state_and_log vote_request finish_election
    handle_timeout_now relock gaps term n =
        let current_term = n.state.persistent.current_term in
        if ltb term current_term
        then (n, current_term)
        else (let m = relock (record n { state = become_candidate n.state }) in
            let p = m.state.persistent in
            let k = save_in_gap gaps (from_state_and_log p m.log) m in
            let req = vote_request p.current_term n.state.node_id k.log in
            let votes = count_votes rpc req peers 1 in
            (finish_election peers (votes_received votes) (gaps.asking k), p.current_term))
