-- ===== src/Raft/Replication/Compaction.antt =====
-- replication.rs: what a snapshot keeps.
use macro_service.Prelude.{
  ℕ, ◌≤◌, ◌<◌, ◌≡◌, refl, true, none, some, arith, u64_mod, leb, if◌then◌else◌,
}
use macro_service.Raft.Log.{LogStore, last_index, get, apply_snapshot}
use macro_service.Raft.Log.Valid.{IsValid, apply_snapshot-IsValid}
use macro_service.Raft.Log.View.{get-apply_snapshot, last_index-apply_snapshot}
use macro_service.Raft.Storage.{
  PersistentData, Storage, from_state_and_log, with_snapshot, to_log_store,
}
use macro_service.Raft.Node.{Node}
use macro_service.Raft.Replication.{term_at}
use macro_service.Raft.Replication.Snapshot.{undisturbed, ok, failed_to_persist, create_snapshot}
use macro_service.Kv.Store.{KvCodec, snapshot}

module _ {D : Type 0} (codec : KvCodec) (storage : Storage D) (n : Node D) where
  abbrev compacted : LogStore
  compacted =
      apply_snapshot n.log n.state.volatile.commit_index
        (term_at n.log n.state.volatile.commit_index)

  abbrev snapshot_file : PersistentData
  snapshot_file =
      with_snapshot (snapshot codec n.kv) (from_state_and_log n.state.persistent compacted)

  -- Where there is something to compact, `create_snapshot` is its last two steps.
  create_snapshot-eq :
      n.log.snapshot_last_index < n.state.volatile.commit_index
      → create_snapshot codec storage undisturbed n ≡ (
        record n { log = compacted; disk = (storage.save snapshot_file n.disk).0 },
        (if (storage.save snapshot_file n.disk).1 then ok else failed_to_persist),
      )
  unfolding create_snapshot
  create_snapshot-eq low = ground arith

  pub create_snapshot_boundary :
      n.log.snapshot_last_index < n.state.volatile.commit_index
      → (create_snapshot codec storage undisturbed n).0.log.snapshot_last_index
        ≡ n.state.volatile.commit_index
  unfolding apply_snapshot
  create_snapshot_boundary low = rw (create_snapshot-eq low) refl

  -- On a valid log whose boundary lies below the commit index, and whose end does not, a snapshot,
  -- with no other task at work, replaces the entries up to the commit index by a boundary with that
  -- index and its term. It keeps the later entries, the last index, the state and the store; the log
  -- stays valid.
  pub create_snapshot_keeps :
      IsValid n.log
      → n.log.snapshot_last_index < n.state.volatile.commit_index
      → n.state.volatile.commit_index ≤ last_index n.log
      → n.state.volatile.commit_index < u64_mod
      → let n' = (create_snapshot codec storage undisturbed n).0 in
        IsValid n'.log
        × (n'.log.snapshot_last_index ≡ n.state.volatile.commit_index)
        × (n'.log.snapshot_last_term ≡ term_at n.log n.state.volatile.commit_index)
        × (last_index n'.log ≡ last_index n.log)
        × ((i : ℕ)
            → get n'.log i ≡ (if leb i n.state.volatile.commit_index then none else get n.log i))
        × (n'.state ≡ n.state)
        × (n'.kv ≡ n.kv)
  unfolding apply_snapshot
  create_snapshot_keeps v low high room =
      let c = n.state.volatile.commit_index in
      let t = term_at n.log c in
      rw (create_snapshot-eq low) (
        unfold apply_snapshot in
        (
          apply_snapshot-IsValid n.log c t v (omega arith) room,
          refl,
          refl,
          omega (arith, last_index-apply_snapshot n.log c t v (omega arith) room),
          λ i. get-apply_snapshot n.log c t i v (omega arith),
          refl,
          refl,
        ))

  -- A snapshot above the boundary of the log, with no other task at work, that reports no error is
  -- on the disk, with the copy of the store, the log that is left, and the term.
  pub create_snapshot-saved :
      n.log.snapshot_last_index < n.state.volatile.commit_index
      → (create_snapshot codec storage undisturbed n).1 ≡ ok
      → (d : PersistentData) × (storage.load (create_snapshot codec storage undisturbed n).0.disk
          ≡ some (some d))
        × (d.snapshot_data ≡ some (snapshot codec n.kv))
        × (to_log_store d ≡ (create_snapshot codec storage undisturbed n).0.log)
        × (d.current_term ≡ n.state.persistent.current_term)
  unfolding from_state_and_log with_snapshot to_log_store
  create_snapshot-saved low won =
      let saved : (storage.save snapshot_file n.disk).1 ≡ true =
        ground (arith, create_snapshot-eq low) in
      (
        snapshot_file,
        rw (create_snapshot-eq low) (storage.load-save_ok snapshot_file n.disk saved),
        refl,
        rw (create_snapshot-eq low) refl,
        refl,
      )
