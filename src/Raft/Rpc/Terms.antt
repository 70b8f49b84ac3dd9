-- ===== src/Raft/Rpc/Terms.antt =====
-- rpc.rs: what `append_entries` and `install_snapshot` do to the term, to the vote and to the timer.
use macro_service.Prelude.{ℕ, ◌≡◌, refl, arith, le-or-lt, inl, inr, lt→ltb, le→ltb, Bool-cases}
use macro_service.Raft.Log.{match_entry}
use macro_service.Raft.State.{RaftState}
use macro_service.Raft.State.Advances.{Advances, Advances-refl}
use macro_service.Raft.Storage.{Storage}
use macro_service.Raft.Timer.{reset}
use macro_service.Raft.Messages.{AppendEntriesRequest, InstallSnapshotRequest}
use macro_service.Raft.Node.{Node}
use macro_service.Raft.Rpc.{
  follow_commit, follow_leader, follow_snapshot, append_entries, accept_snapshot, install_snapshot,
}
use macro_service.Kv.Store
use macro_service.Kv.Store.{KvStore, KvCodec, Outcome, restore}

pub follow_leader-Advances :
    (term id : ℕ) (s : RaftState) → Advances s.persistent (follow_leader term id s).persistent
unfolding follow_leader
follow_leader-Advances term id s = ground arith

pub follow_commit-persistent :
    (leader_commit match_index : ℕ) (s : RaftState)
    → (follow_commit leader_commit match_index s).persistent ≡ s.persistent
unfolding follow_commit
follow_commit-persistent leader_commit match_index s = ground arith

module _ {D : Type 0} (storage : Storage D) (now ms : ℕ) where
  -- The term and the vote advance, and the timer was reset.
  abbrev Followed : Node D → Node D → Type 0
  Followed n m = Advances n.state.persistent m.state.persistent × (m.timer ≡ reset now ms n.timer)

  pub append_entries_terms :
      (req : AppendEntriesRequest) (n : Node D) → Followed n (append_entries storage now ms req n).0
  unfolding append_entries
  append_entries_terms req n =
      let t = n.state.persistent.current_term in
      let follows = follow_leader-Advances req.term req.leader_id n.state in
      elim (le-or-lt t req.term) [
        | inr stale ↦ rw (lt→ltb req.term t stale) (Advances-refl n.state.persistent, refl)
        | inl current ↦ elim (Bool-cases (match_entry n.log req.prev_log_index req.prev_log_term)) [
          | inr other ↦ rw (le→ltb req.term t current, other) (follows, refl)
          | inl same ↦
              rw (le→ltb req.term t current, same)
                (
                  rw
                      (follow_commit-persistent req.leader_commit _
                        (follow_leader req.term req.leader_id n.state))
                      follows,
                  refl,
                )
        ]
      ]

  accept_snapshot_terms :
      (codec : KvCodec) (req : InstallSnapshotRequest) (current_term : ℕ) (s : RaftState)
      (n m : Node D) (o : KvStore × Outcome)
      → Advances n.state.persistent s.persistent
      → m.timer ≡ reset now ms n.timer
      → Followed n (accept_snapshot storage now ms codec req current_term s m o).0
  unfolding accept_snapshot follow_snapshot
  accept_snapshot_terms codec req current_term s n m (kv, Store.failed_to_deserialize) h e = (h, e)
  accept_snapshot_terms codec req current_term s n m (kv, Store.ok) h e = (h, e)

  pub install_snapshot_terms :
      (codec : KvCodec) (req : InstallSnapshotRequest) (n : Node D)
      → Followed n (install_snapshot storage now ms codec req n).0
  unfolding install_snapshot
  install_snapshot_terms codec req n =
      let t = n.state.persistent.current_term in
      let follows = follow_leader-Advances req.term req.leader_id n.state in
      elim (le-or-lt t req.term) [
        | inr stale ↦ rw (lt→ltb req.term t stale) (Advances-refl n.state.persistent, refl)
        | inl current ↦ elim (le-or-lt req.last_included_index n.log.snapshot_last_index) [
          | inl old ↦ rw (le→ltb req.term t current, le→ltb _ _ old) (follows, refl)
          | inr newer ↦
              rw (le→ltb req.term t current, lt→ltb _ _ newer)
                (accept_snapshot_terms codec req t (follow_leader req.term req.leader_id n.state) n
                  (record n { timer = reset now ms n.timer }) (restore codec req.content n.kv)
                  follows refl)
        ]
      ]
