-- ===== src/Raft/Replication/Snapshot.antt =====
-- replication.rs: `should_snapshot` and `create_snapshot`.
use macro_service.Prelude.{ℕ, Bool, leb, ◌==◌, if◌then◌else◌}
use macro_service.Raft.Log
use macro_service.Raft.Log.{LogStore, apply_snapshot}
use macro_service.Raft.Storage.{Storage, from_state_and_log, with_snapshot}
use macro_service.Raft.Node.{Node, Meanwhile}
use macro_service.Raft.Replication.{term_at}
use macro_service.Kv.Store.{KvCodec, snapshot}

-- `should_snapshot` of `Replication`.
unfoldable pub should_snapshot : {D : Type 0} → ℕ → Node D → Bool
should_snapshot snapshot_threshold n = Log.should_snapshot n.log snapshot_threshold

-- The other tasks, between the locks that `create_snapshot` takes one after the other.
pub record SnapshotGaps (D : Type 0) : Type 0 where
  pub before_term : Meanwhile D
  pub before_check : Meanwhile D
  pub before_copy : Meanwhile D
  pub before_truncate : Meanwhile D
  pub before_save : Meanwhile D

abbrev pub undisturbed : {D : Type 0} → SnapshotGaps D
undisturbed = record {
  before_term = λ n. n;
  before_check = λ n. n;
  before_copy = λ n. n;
  before_truncate = λ n. n;
  before_save = λ n. n;
}

pub data SnapshotResult : Type 0 where
  ok failed_to_persist : SnapshotResult

module _ {D : Type 0} (codec : KvCodec) (storage : Storage D) where
  -- Steps 4 and 5: the log forgets the entries, and the rest is saved with the snapshot. A storage is
  -- always there in the server.
  unfoldable pub take_snapshot : SnapshotGaps D → ℕ → ℕ → Node D → Node D × SnapshotResult
  unfolding apply_snapshot from_state_and_log with_snapshot snapshot
  take_snapshot gaps commit_index snapshot_term n =
      let snapshot_data = snapshot codec n.kv in
      let m = gaps.before_truncate n in
      let k =
        gaps.before_save (record m { log = apply_snapshot m.log commit_index snapshot_term }) in
      let d = with_snapshot snapshot_data (from_state_and_log k.state.persistent k.log) in
      let (disk, saved) = storage.save d k.disk in
      (record k { disk = disk }, if saved then ok else failed_to_persist)

  unfoldable pub create_snapshot : SnapshotGaps D → Node D → Node D × SnapshotResult
  unfolding take_snapshot term_at
  create_snapshot gaps n =
      let commit_index = n.state.volatile.commit_index in
      if commit_index == 0
      then (n, ok)
      else (let m = gaps.before_term n in
          let snapshot_term = term_at m.log commit_index in
          let k = gaps.before_check m in
          if leb commit_index k.log.snapshot_last_index
          then (k, ok)
          else take_snapshot gaps commit_index snapshot_term (gaps.before_copy k))
