-- ===== src/Raft/Replication/Commit.antt =====
-- replication.rs: `update_commit_index`. The log is read anew for each index that is tried: `logs n`
-- is the log when the index `n` is.
use macro_service.Prelude.{
  ℕ, zero, suc, ◌+◌, ◌-◌, not, Option, none, some, List, [], ◌∷◌, add64, leb, ◌==◌, if◌then◌else◌,
  length, get_elem?,
}
use macro_service.Raft.Log.{LogStore, last_index}
use macro_service.Raft.State.{is_leader, majority_of}
use macro_service.Raft.Node.{Node, Meanwhile}
use macro_service.Raft.Replication.{Peers, term_at}

-- The count of the inner loop from the `i`-th peer on; `none` is the panic of `match_indices[i + 1]`.
unfoldable pub count_acks : Peers → ℕ → List ℕ → ℕ → ℕ → Option ℕ
count_acks [] i match_indices n count = some count
count_acks (peer ∷ peers) i match_indices n count = elim (get_elem? match_indices (i + 1)) [
  | none ↦ none
  | some match_index ↦
      count_acks peers (i + 1) match_indices n (if leb n match_index then count + 1 else count)
]

pub data CommitResult : Type 0 where
  keep : CommitResult
  commit_at : ℕ → CommitResult
  panics : CommitResult

-- What the loop does at an index of the current term, once the acknowledgements are counted.
abbrev pub decide : ℕ → ℕ → Option ℕ → CommitResult → CommitResult
decide majority n none rest = panics
decide majority n (some count) rest = if leb majority count then commit_at n else rest

-- The loop over `start .. start + k`, from its end down.
unfoldable pub find_commit : ℕ → Peers → List ℕ → (ℕ → LogStore) → ℕ → ℕ → CommitResult
unfolding count_acks term_at
find_commit current_term peers match_indices logs start zero = keep
find_commit current_term peers match_indices logs start (suc k) =
    let n = start + k in
    let rest = find_commit current_term peers match_indices logs start k in
    if not (term_at (logs n) n == current_term)
    then rest
    else decide (majority_of (length peers)) n (count_acks peers 0 match_indices n 1) rest

abbrev pub set_commit : {D : Type 0} → ℕ → Node D → Node D
set_commit index n = record n {
  state = record n.state { volatile = record n.state.volatile { commit_index = index } };
}

abbrev pub finish_commit : {D : Type 0} → Meanwhile D → CommitResult → Node D → Option (Node D)
finish_commit relock keep n = some (relock n)
finish_commit relock (commit_at index) n = some (set_commit index (relock n))
finish_commit relock panics n = none

-- `relock` is what the other tasks do during the loop, up to the write of the new commit index.
unfoldable pub update_commit_index :
    {D : Type 0} → Peers → (ℕ → LogStore) → Meanwhile D → Node D → Option (Node D)
unfolding find_commit
update_commit_index peers logs relock n =
    if not (is_leader n.state.role) then some n else elim n.state.leader_state [
      | none ↦ some n
      | some ls ↦
          (let start = add64 n.state.volatile.commit_index 1 in
            finish_commit relock
              (find_commit n.state.persistent.current_term peers ls.match_index logs start
                (last_index n.log + 1 - start))
              n)
    ]
