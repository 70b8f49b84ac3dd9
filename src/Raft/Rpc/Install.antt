-- ===== src/Raft/Rpc/Install.antt =====
-- rpc.rs: what `install_snapshot` brings to a follower.
use macro_service.Prelude.{
  ℕ, ◌≤◌, ◌<◌, ◌≡◌, refl, none, some, List, arith, u64_mod, leb, if◌then◌else◌, String,
}
use macro_service.Raft.Log.{get, apply_snapshot}
use macro_service.Raft.Log.Valid.{IsValid, apply_snapshot-IsValid}
use macro_service.Raft.Log.View.{get-apply_snapshot}
use macro_service.Raft.Storage.{Storage}
use macro_service.Raft.Messages.{InstallSnapshotRequest}
use macro_service.Raft.Node.{Node}
use macro_service.Raft.Rpc.{install_snapshot, follow_leader, follow_snapshot}
use macro_service.Kv.Store
use macro_service.Kv.Store.{KvStore, KvCodec, Outcome, restore, snapshot}
use macro_service.Kv.Store.Commands.{restore-snapshot}

module _ {D : Type 0} (storage : Storage D) (now ms : ℕ) (codec : KvCodec) where
  installed :
      (req : InstallSnapshotRequest) (n : Node D)
      → n.state.persistent.current_term ≤ req.term
      → n.log.snapshot_last_index < req.last_included_index
      → (restore codec req.content n.kv).1 ≡ Store.ok
      → ((install_snapshot storage now ms codec req n).0.log
          ≡ apply_snapshot n.log req.last_included_index req.last_included_term)
        × ((install_snapshot storage now ms codec req n).0.kv ≡ (restore codec req.content n.kv).0)
        × ((install_snapshot storage now ms codec req n).0.state
            ≡ follow_snapshot req.last_included_index
                (follow_leader req.term req.leader_id n.state))
  unfolding install_snapshot
  installed req n term low done = (ground arith, ground arith, ground arith)

  -- A newer snapshot in a current term whose data is the copy of a store `kv`, of which serde made
  -- `bytes`: the follower's store answers every key as `kv` does, its log starts behind the snapshot
  -- and keeps the later entries, and it has applied and committed the snapshot's index at least.
  pub install_snapshot_lem :
      (req : InstallSnapshotRequest) (n : Node D) (kv : KvStore) (bytes : List ℕ)
      → IsValid n.log
      → n.state.persistent.current_term ≤ req.term
      → n.log.snapshot_last_index < req.last_included_index
      → req.last_included_index < u64_mod
      → codec.map_to_vec kv.entries ≡ some bytes
      → req.content ≡ snapshot codec kv
      → let n' = (install_snapshot storage now ms codec req n).0 in
        ((k : String) → Store.get n'.kv k ≡ Store.get kv k)
        × IsValid n'.log
        × (n'.log.snapshot_last_index ≡ req.last_included_index)
        × (n'.log.snapshot_last_term ≡ req.last_included_term)
        × ((i : ℕ) → get n'.log i ≡ (if leb i req.last_included_index then none else get n.log i))
        × (n'.state.volatile.last_applied ≡ req.last_included_index)
        × (req.last_included_index ≤ n'.state.volatile.commit_index)
        × (n.state.volatile.commit_index ≤ n'.state.volatile.commit_index)
        × (n'.state.persistent.current_term ≡ req.term)
  install_snapshot_lem req n kv bytes v term low room e content =
      let same = restore-snapshot codec kv n.kv bytes e in
      let done : (restore codec req.content n.kv).1 ≡ Store.ok = rw content same.0 in
      let (log, store, state) = installed req n term low done in
      rw (log, store, state)
        (unfold apply_snapshot follow_snapshot follow_leader in
          (
            rw content same.1,
            apply_snapshot-IsValid n.log _ _ v (omega arith) room,
            refl,
            refl,
            λ i. get-apply_snapshot n.log _ _ i v (omega arith),
            refl,
            omega arith,
            ground arith,
            ground arith,
          ))
