-- ===== src/Cluster.antt =====
-- The nodes of a cluster together: each step runs one handler of election.rs, rpc.rs or main.rs on one
-- node, with no other task of that node at work, and the steps of the nodes come in any order. A
-- message is lost where its step never comes, and doubled where it comes twice.
pub mod Grants
pub mod Logs
pub mod Votes
pub mod Memory
pub mod Invariant
pub mod Elections
pub mod Replicas
use macro_service.Prelude.{
  ℕ, ◌+◌, ◌≤◌, ◌<◌, ◌≡◌, ◌⊎◌, Bool, true, false, ◌&&◌, ◌||◌, Option, none, some, List, [], ◌∷◌, map,
  ◌==◌, if◌then◌else◌, u64_mod, add64, length,
}
use macro_service.Raft.Log.{LogStore}
use macro_service.Raft.State.{RaftState, become_candidate, become_leader, majority_of}
use macro_service.Raft.State.Advances.{Advances}
use macro_service.Raft.Storage.{PersistentData, Storage, from_state_and_log}
use macro_service.Raft.Messages.{
  VoteRequest, VoteResponse, AppendEntriesRequest, InstallSnapshotRequest,
}
use macro_service.Raft.Node.{Node, returns}
use macro_service.Raft.Election.{
  Rpc, Peers, undisturbed, save_in_gap, granted_by, votes_received, collect_votes, vote_request,
  finish_election, handle_request_vote,
}
use macro_service.Raft.Rpc.{append_entries, install_snapshot}
use macro_service.Raft.Replication.Snapshot
use macro_service.Raft.Replication.Snapshot.{create_snapshot}
use macro_service.Kv.Store.{KvCodec, KvCommand}
use macro_service.Kv.Service.{append_command}
use macro_service.Config.{NodeConfig}
use macro_service.Startup.Boot.{boot}
use mathlib.Core.List.{Permᴰ}

-- A voter, the request that it granted, and its log at that time.
abbrev pub Grant : Type 0
Grant = ℕ × VoteRequest × LogStore

abbrev pub has : List Grant → ℕ → ℕ → ℕ → Bool
has [] voter term candidate = false
has ((v, req, log) ∷ grants) voter term candidate =
    (v == voter && req.term == term && req.candidate_id == candidate)
    || has grants voter term candidate

-- How many of the members granted the candidate their vote in the term.
abbrev pub votes : List Grant → ℕ → ℕ → List ℕ → ℕ
votes grants term candidate [] = 0
votes grants term candidate (v ∷ members) =
    (if has grants v term candidate then 1 else 0) + votes grants term candidate members

-- The nodes, by their place in the cluster, with the votes given and the elections won so far: a term
-- and the candidate that won it.
pub record Run (D : Type 0) : Type 0 where
  pub nodes : ℕ → Node D
  pub grants : List Grant
  pub winners : List (ℕ × ℕ)

abbrev pub has_won : List (ℕ × ℕ) → ℕ → ℕ → Bool
has_won [] term candidate = false
has_won ((t, c) ∷ winners) term candidate =
    (t == term && c == candidate) || has_won winners term candidate

-- The place of the node and those of its peers, in any order, are the members.
abbrev pub IsClusterOf : List ℕ → ℕ → List ℕ → Type 0
IsClusterOf members i ids = Permᴰ (i ∷ ids) members

-- A vote that is counted was given.
abbrev pub Backed : List Grant → Rpc VoteRequest VoteResponse → VoteRequest → Peers → Type 0
Backed grants rpc req [] = Unit
Backed grants rpc req ((id, addr) ∷ peers) =
    ((granted_by (rpc addr req) ≡ 0) ⊎ (has grants id req.term req.candidate_id ≡ true))
    × Backed grants rpc req peers

module _ {D : Type 0} where
  abbrev pub put : ℕ → Node D → Run D → Run D
  put i m r = record r { nodes = λ j. if i == j then m else r.nodes j }

  abbrev pub answered : ℕ → VoteRequest → LogStore → VoteResponse → Run D → Run D
  answered i req log a r = record r {
    grants = if a.vote_granted then (i, req, log) ∷ r.grants else r.grants;
  }

  -- The request of a node that stands for election, which it grants itself.
  abbrev pub own_vote : Node D → VoteRequest
  own_vote n = vote_request (add64 n.state.persistent.current_term 1) n.state.node_id n.log

module _ {D : Type 0} (storage : Storage D) where
  -- A node that stands for election, as `start_real_election` and `handle_timeout_now` begin.
  unfoldable pub stand : Node D → Node D
  unfolding become_candidate from_state_and_log save_in_gap
  stand n =
      let s = become_candidate n.state in
      save_in_gap storage undisturbed (from_state_and_log s.persistent n.log)
        (record n { state = s })

  -- A node that stopped and starts again from its disk.
  unfoldable pub restart : NodeConfig → ℕ → ℕ → Node D → Node D
  unfolding boot
  restart config now ms n = (boot storage config now ms n.disk).node

module _ {D : Type 0} (storage : Storage D) (codec : KvCodec) (members : List ℕ) where
  pub data Step (r : Run D) : Run D → Type 0 where
    vote :
        (i : ℕ) (req : VoteRequest) (m : Node D) (a : VoteResponse)
        → handle_request_vote storage undisturbed req (r.nodes i) ≡ returns m a
        → Step r (answered i req (r.nodes i).log a (put i m r))
    stands :
        (i : ℕ)
        → (r.nodes i).state.persistent.current_term + 1 < u64_mod
        → Step r (record (put i (stand storage (r.nodes i)) r) {
          grants = (i, own_vote (r.nodes i), (r.nodes i).log) ∷ r.grants;
        })
    -- The end of an election in `term`, in whatever state the node is by then.
    wins :
        (i term candidate count : ℕ) (peers : Peers) (rpc : Rpc VoteRequest VoteResponse)
        (log : LogStore)
        → IsClusterOf members i (map (λ p. p.0) peers)
        → has r.grants i term candidate ≡ true
        → Backed r.grants rpc (vote_request term candidate log) peers
        → collect_votes rpc (vote_request term candidate log) peers 1 ≡ votes_received count
        → majority_of (length peers) ≤ count
        → Step r (record (put i (finish_election peers (votes_received count) (r.nodes i)) r) {
          winners = (term, candidate) ∷ r.winners;
        })
    appends :
        (i now ms : ℕ) (req : AppendEntriesRequest)
        → Step r (put i (append_entries storage now ms req (r.nodes i)).0 r)
    installs :
        (i now ms : ℕ) (req : InstallSnapshotRequest)
        → Step r (put i (install_snapshot storage now ms codec req (r.nodes i)).0 r)
    proposes :
        (i : ℕ) (cmd : KvCommand)
        → Step r (put i (append_command storage codec cmd (r.nodes i)).0 r)
    compacts :
        (i : ℕ)
        → Step r (put i (create_snapshot codec storage Snapshot.undisturbed (r.nodes i)).0 r)
    restarts :
        (i now ms : ℕ) (config : NodeConfig)
        → Step r (put i (restart storage config now ms (r.nodes i)) r)
    -- All that writes nothing to the disk, and no vote into the state.
    others :
        (i : ℕ) (m : Node D)
        → Advances (r.nodes i).state.persistent m.state.persistent
        → m.disk ≡ (r.nodes i).disk
        → Step r (put i m r)

  -- The runs from nodes as they may be when nothing was voted yet.
  pub data Reach (start : ℕ → Node D) : Run D → Type 0 where
    begin : Reach start (record { nodes = start; grants = []; winners = [] })
    later : {r t : Run D} → Reach start r → Step r t → Reach start t
