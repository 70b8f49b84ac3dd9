-- ===== src/Raft/State.antt =====
-- server-rust/src/raft/state.rs: the state of a node. The fields behind `Arc<RwLock<..>>` are plain
-- fields here: each method of this file holds every lock that it takes until it has used it.
pub mod Advances
use macro_service.Prelude.{
  ℕ, ◌+◌, ◌/◌, Bool, true, false, Option, none, some, List, add64, ltb, if◌then◌else◌, length,
  replicate, String,
}

pub data NodeRole : Type 0 where
  follower candidate leader : NodeRole

-- The derived `==` against one role.
abbrev pub is_leader : NodeRole → Bool
is_leader leader = true
is_leader _ = false

abbrev pub is_candidate : NodeRole → Bool
is_candidate candidate = true
is_candidate _ = false

-- `Display` of a role.
abbrev pub display : NodeRole → String
display follower = "Follower"
display candidate = "Candidate"
display leader = "Leader"

pub record PersistentState : Type 0 where
  pub current_term : ℕ
  pub voted_for : Option ℕ

pub record VolatileState : Type 0 where
  pub commit_index : ℕ
  pub last_applied : ℕ

-- Times are milliseconds on a clock of the node; `Instant::now()` is the argument `now`.
pub record LeaseManager : Type 0 where
  pub lease_duration : ℕ
  pub expires_at : Option ℕ

-- `LeaseManager::new`
unfoldable pub new_lease : ℕ → LeaseManager
new_lease lease_duration_ms = record { lease_duration = lease_duration_ms; expires_at = none }

unfoldable pub renew : ℕ → LeaseManager → LeaseManager
renew now lease = record lease { expires_at = some (now + lease.lease_duration) }

unfoldable pub lease_is_valid : ℕ → LeaseManager → Bool
lease_is_valid now lease = elim lease.expires_at [ some expires ↦ ltb now expires | none ↦ false ]

unfoldable pub invalidate : LeaseManager → LeaseManager
invalidate lease = record lease { expires_at = none }

pub record LeaderState : Type 0 where
  pub next_index : List ℕ
  pub match_index : List ℕ
  pub lease : LeaseManager

pub record RaftState : Type 0 where
  pub node_id : ℕ
  pub role : NodeRole
  pub persistent : PersistentState
  pub volatile : VolatileState
  pub leader_state : Option LeaderState
  pub leader_id : Option ℕ
  pub peers : List ℕ

unfoldable pub from_persistent : ℕ → List ℕ → ℕ → Option ℕ → RaftState
from_persistent node_id peers current_term voted_for = record {
  node_id = node_id;
  role = follower;
  persistent = record { current_term = current_term; voted_for = voted_for };
  volatile = record { commit_index = 0; last_applied = 0 };
  leader_state = none;
  leader_id = none;
  peers = peers;
}

-- `RaftState::new`
unfoldable pub new_state : ℕ → List ℕ → RaftState
new_state node_id peers = record {
  node_id = node_id;
  role = follower;
  persistent = record { current_term = 0; voted_for = none };
  volatile = record { commit_index = 0; last_applied = 0 };
  leader_state = none;
  leader_id = none;
  peers = peers;
}

-- `(n + 1) / 2 + 1`, which the election and the replication compute from their own peer lists.
abbrev pub majority_of : ℕ → ℕ
majority_of peers = (peers + 1) / 2 + 1

unfoldable pub majority : RaftState → ℕ
majority s = majority_of (length s.peers)

unfoldable pub become_follower : ℕ → Option ℕ → RaftState → RaftState
become_follower term leader_id s = record s {
  persistent =
      if ltb s.persistent.current_term term
      then record { current_term = term; voted_for = none }
      else s.persistent;
  role = follower;
  leader_id = leader_id;
}

unfoldable pub become_candidate : RaftState → RaftState
become_candidate s = record s {
  persistent = record {
    current_term = add64 s.persistent.current_term 1;
    voted_for = some s.node_id;
  };
  role = candidate;
  leader_id = none;
}

unfoldable pub become_leader : RaftState → RaftState
unfolding new_lease
become_leader s = record s {
  role = leader;
  leader_state = some (record {
    next_index = replicate (length s.peers + 1) 1;
    match_index = replicate (length s.peers + 1) 0;
    lease = new_lease 60;
  });
  leader_id = some s.node_id;
}
