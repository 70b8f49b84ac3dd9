-- ===== src/Raft/Replication/CommitPanic.antt =====
-- replication.rs: `update_commit_index` with fewer match indices than peers, as after a removal.
use macro_service.Prelude.{
  ℕ, suc, ◌+◌, ◌-◌, ◌≤◌, ◌<◌, ◌≡◌, ◌≢◌, true, none, some, [], arith, add64, u64_mod, length, ap,
}
use macro_service.Raft.Log.{LogStore, last_index}
use macro_service.Raft.State.{LeaderState, is_leader}
use macro_service.Raft.Node.{Node, Meanwhile}
use macro_service.Raft.Replication.{Peers, term_at}
use macro_service.Raft.Replication.Commit.{find_commit, panics, update_commit_index, finish_commit}
use macro_service.Raft.Replication.CommitRule.{count_acks-none}

module _ {D : Type 0} (peers : Peers) (logs : ℕ → LogStore) (relock : Meanwhile D)
    (n : Node D) where
  find_commit-panics :
      (ls : LeaderState) (start k j last term : ℕ)
      → k ≡ suc j
      → start + j ≡ last
      → peers ≢ []
      → length ls.match_index ≤ length peers
      → term_at (logs last) last ≡ term
      → find_commit term peers ls.match_index logs start k ≡ panics
  unfolding find_commit
  find_commit-panics ls start k j last term e at_last ne few t =
      let fails = count_acks-none peers 0 ls.match_index last 1 ne (omega arith) in
      rw (e, at_last) (ground (arith, fails))

  -- A leader that has peers, and no more match indices than peers panics as soon as its log ends, above the
  -- commit index, with an entry of its term.
  pub update_commit_index-panics :
      (ls : LeaderState)
      → is_leader n.state.role ≡ true
      → n.state.leader_state ≡ some ls
      → peers ≢ []
      → length ls.match_index ≤ length peers
      → n.state.volatile.commit_index < last_index n.log
      → last_index n.log < u64_mod
      → term_at (logs (last_index n.log)) (last_index n.log) ≡ n.state.persistent.current_term
      → update_commit_index peers logs relock n ≡ none
  unfolding update_commit_index
  update_commit_index-panics ls lead here ne few behind room term =
      let c = n.state.volatile.commit_index in
      let start = add64 c 1 in
      simp (lead, here)
        (ap (λ r. finish_commit relock r n)
          (find_commit-panics ls start (last_index n.log + 1 - start) (last_index n.log - c - 1)
            (last_index n.log) n.state.persistent.current_term (omega arith) (omega arith) ne few
            term))
