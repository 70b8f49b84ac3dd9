-- ===== src/Cluster/Logs.antt =====
-- The handlers of the log do not touch the votes.
use macro_service.Prelude.{
  ℕ, inl, inr, refl, le-or-lt, lt→ltb, le→ltb, le→leb, lt→leb, ◌==◌, Bool-cases,
}
use macro_service.Raft.State.{RaftState}
use macro_service.Raft.State.Advances.{Advances, Advances-refl}
use macro_service.Raft.Log.{match_entry}
use macro_service.Raft.Storage.{Storage, from_state_and_log, with_snapshot}
use macro_service.Raft.Messages.{AppendEntriesRequest, InstallSnapshotRequest}
use macro_service.Raft.Node.{Node}
use macro_service.Raft.Rpc.{
  follow_leader, follow_snapshot, append_entries, install_snapshot, accept_snapshot,
}
use macro_service.Raft.Replication.Snapshot
use macro_service.Raft.Replication.Snapshot.{create_snapshot, take_snapshot}
use macro_service.Raft.Rpc.Terms.{follow_leader-Advances, follow_commit-persistent}
use macro_service.Kv.Store
use macro_service.Kv.Store.{KvStore, KvCodec, KvCommand, Outcome, restore}
use macro_service.Raft.Timer.{reset}
use macro_service.Kv.Service.{append_command}
use macro_service.Cluster.Grants.{disk_of-save, IsReliable, IsSafe}

module _ {D : Type 0} (storage : Storage D) (reliable : IsReliable storage) where
  pub append_entries-IsSafe :
      (now ms : ℕ) (req : AppendEntriesRequest) (n : Node D)
      → IsSafe storage n (append_entries storage now ms req n).0
  unfolding append_entries
  append_entries-IsSafe now ms req n =
      let t = n.state.persistent.current_term in
      let follows = follow_leader-Advances req.term req.leader_id n.state in
      elim (le-or-lt t req.term) [
        | inr stale ↦
            rw (lt→ltb req.term t stale)
              (record { advances = Advances-refl n.state.persistent; disk = inl refl })
        | inl current ↦ elim (Bool-cases (match_entry n.log req.prev_log_index req.prev_log_term)) [
          | inr other ↦
              rw (le→ltb req.term t current, other) (record { advances = follows; disk = inl refl })
          | inl same ↦
              rw (le→ltb req.term t current, same)
                (record {
                  advances =
                      rw
                        (follow_commit-persistent req.leader_commit _
                          (follow_leader req.term req.leader_id n.state))
                        follows;
                  disk = inr (disk_of-save storage reliable _ n.disk);
                })
        ]
      ]

  pub append_command-IsSafe :
      (codec : KvCodec) (cmd : KvCommand) (n : Node D)
      → IsSafe storage n (append_command storage codec cmd n).0
  unfolding append_command from_state_and_log
  append_command-IsSafe codec cmd n = record {
    advances = Advances-refl n.state.persistent;
    disk = inr (disk_of-save storage reliable _ n.disk);
  }

  pub accept_snapshot-IsSafe :
      (now ms : ℕ) (codec : KvCodec) (req : InstallSnapshotRequest) (current_term : ℕ)
      (s : RaftState) (n : Node D) (o : KvStore × Outcome)
      → Advances n.state.persistent s.persistent
      → IsSafe storage n (accept_snapshot storage now ms codec req current_term s n o).0
  unfolding accept_snapshot from_state_and_log with_snapshot follow_snapshot
  accept_snapshot-IsSafe now ms codec req current_term s n (kv, Store.failed_to_deserialize) h =
      record { advances = h; disk = inl refl }
  accept_snapshot-IsSafe now ms codec req current_term s n (kv, Store.ok) h = record {
    advances = h;
    disk = inr (disk_of-save storage reliable _ n.disk);
  }

  pub install_snapshot-IsSafe :
      (now ms : ℕ) (codec : KvCodec) (req : InstallSnapshotRequest) (n : Node D)
      → IsSafe storage n (install_snapshot storage now ms codec req n).0
  unfolding install_snapshot
  install_snapshot-IsSafe now ms codec req n =
      let t = n.state.persistent.current_term in
      let follows = follow_leader-Advances req.term req.leader_id n.state in
      elim (le-or-lt t req.term) [
        | inr stale ↦
            rw (lt→ltb req.term t stale)
              (record { advances = Advances-refl n.state.persistent; disk = inl refl })
        | inl current ↦ elim (le-or-lt req.last_included_index n.log.snapshot_last_index) [
          | inl old ↦
              rw (le→ltb req.term t current, le→ltb _ _ old)
                (record { advances = follows; disk = inl refl })
          | inr newer ↦
              let kept =
                accept_snapshot-IsSafe now ms codec req t
                  (follow_leader req.term req.leader_id n.state)
                  (record n { timer = reset now ms n.timer }) (restore codec req.content n.kv)
                  follows in
              rw (le→ltb req.term t current, lt→ltb _ _ newer)
                (record { advances = kept.advances; disk = kept.disk })
        ]
      ]

  pub create_snapshot-IsSafe :
      (codec : KvCodec) (n : Node D)
      → IsSafe storage n (create_snapshot codec storage Snapshot.undisturbed n).0
  unfolding create_snapshot take_snapshot from_state_and_log with_snapshot
  create_snapshot-IsSafe codec n =
      let idle : IsSafe storage n n = record {
        advances = Advances-refl n.state.persistent;
        disk = inl refl;
      } in
      let c = n.state.volatile.commit_index in
      elim (Bool-cases (c == 0)) [
        | inl none_committed ↦ rw none_committed idle
        | inr some_committed ↦ elim (le-or-lt c n.log.snapshot_last_index) [
          | inl old ↦ rw (some_committed, le→leb _ _ old) idle
          | inr newer ↦
              rw (some_committed, lt→leb _ _ newer)
                (record {
                  advances = Advances-refl n.state.persistent;
                  disk = inr (disk_of-save storage reliable _ n.disk);
                })
        ]
      ]
