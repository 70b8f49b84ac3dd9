-- ===== src/Raft/Election/UpToDate.antt =====
-- election.rs: the comparison of logs, and the pre-vote that rests on it.
use macro_service.Prelude.{ℕ, ◌≤◌, ◌<◌, ◌≡◌, ◌⊎◌, ◌↔◌, true, false, arith}
use macro_service.Raft.Log.{LogStore, last_index, last_term}
use macro_service.Raft.State.{is_leader}
use macro_service.Raft.Messages.{VoteRequest}
use macro_service.Raft.Node.{Node}
use macro_service.Raft.Election.{log_is_up_to_date, vote_request, handle_pre_vote}

-- The order of Raft on the last entries: by term, then by index.
abbrev pub AtLeastAsNew : ℕ → ℕ → ℕ → ℕ → Type 0
AtLeastAsNew term index term' index' = (term' < term) ⊎ ((term' ≡ term) × (index' ≤ index))

pub log_is_up_to_date_sound :
    (req : VoteRequest) (l : LogStore)
    → log_is_up_to_date req l ≡ true
    → AtLeastAsNew req.last_log_term req.last_log_index (last_term l) (last_index l)
unfolding log_is_up_to_date
log_is_up_to_date_sound req l h = ground arith

pub log_is_up_to_date_complete :
    (req : VoteRequest) (l : LogStore)
    → AtLeastAsNew req.last_log_term req.last_log_index (last_term l) (last_index l)
    → log_is_up_to_date req l ≡ true
unfolding log_is_up_to_date
log_is_up_to_date_complete req l h = ground arith

-- Of two logs at least one may be voted for by the owner of the other, whatever the terms of the
-- requests.
pub log_is_up_to_date_total :
    (l m : LogStore) (term c term' c' : ℕ)
    → (log_is_up_to_date (vote_request term c l) m ≡ true)
      ⊎ (log_is_up_to_date (vote_request term' c' m) l ≡ true)
unfolding log_is_up_to_date vote_request
log_is_up_to_date_total l m term c term' c' = ground arith

-- The comparison is transitive.
pub log_is_up_to_date_trans :
    (k l m : LogStore) (term c : ℕ)
    → log_is_up_to_date (vote_request term c k) l ≡ true
    → log_is_up_to_date (vote_request term c l) m ≡ true
    → log_is_up_to_date (vote_request term c k) m ≡ true
unfolding log_is_up_to_date vote_request
log_is_up_to_date_trans k l m term c h h' = ground arith

module _ {D : Type 0} where
  -- A pre-vote changes nothing on the node and answers with its term. It is granted exactly if the
  -- proposed term is not behind, the node is not a leader, and the candidate's log is at least as
  -- new as its own.
  pub handle_pre_vote_lem :
      (req : VoteRequest) (n : Node D)
      → ((handle_pre_vote req n).0 ≡ n)
        × ((handle_pre_vote req n).1.term ≡ n.state.persistent.current_term)
        × (((handle_pre_vote req n).1.vote_granted ≡ true) ↔ (
            (n.state.persistent.current_term ≤ req.term)
            × (is_leader n.state.role ≡ false)
            × AtLeastAsNew req.last_log_term req.last_log_index
                (last_term n.log)
                (last_index n.log)))
  unfolding handle_pre_vote
  handle_pre_vote_lem req n = (ground arith, ground arith, (λ h. ground arith, λ h. ground arith))
