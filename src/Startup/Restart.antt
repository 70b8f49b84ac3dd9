-- ===== src/Startup/Restart.antt =====
-- main.rs over replication.rs: what a node that took a snapshot has after a restart.
use macro_service.Prelude.{
  ℕ, zero, suc, ◌+◌, ◌-◌, ◌≤◌, ◌<◌, ◌≡◌, refl, ap, ◌∙◌, some, arith, le→leb, lt→leb, u64_mod, add64,
}
use macro_service.Config.{NodeConfig}
use macro_service.Raft.Log.{LogStore, get}
use macro_service.Raft.Node.{Node}
use macro_service.Raft.Storage.{Storage, PersistentData, to_log_store}
use macro_service.Raft.Pending.{PendingRequests}
use macro_service.Raft.Replication.Commit.{set_commit}
use macro_service.Raft.Replication.Apply.{apply_range, apply_committed_entries}
use macro_service.Raft.Replication.Snapshot.{undisturbed, ok, create_snapshot}
use macro_service.Raft.Replication.Compaction.{create_snapshot-saved, create_snapshot_boundary}
use macro_service.Kv.Store.{KvStore, KvCodec, new_store}
use macro_service.Startup.{start_from}
use macro_service.Startup.Boot.{boot}

-- Where the log has no entries there is nothing to apply.
apply_range_none :
    (codec : KvCodec) (log : LogStore) (i k : ℕ) (kv : KvStore)
    → i + k ≤ log.snapshot_last_index + 1
    → apply_range codec log i k kv ≡ kv
unfolding apply_range get
apply_range_none codec log i zero kv h = refl
apply_range_none codec log i (suc k) kv h =
    rw (le→leb i log.snapshot_last_index (omega arith))
      (apply_range_none codec log (i + 1) k kv (omega arith))

-- Nothing is applied up to the boundary of the log.
replay_none :
    {D : Type 0} (codec : KvCodec) (c : ℕ) (m : Node D) (p : PendingRequests)
    → m.state.volatile.last_applied ≡ 0
    → m.log.snapshot_last_index ≡ c
    → 0 < c
    → c + 1 < u64_mod
    → (apply_committed_entries codec (λ n. n) (λ n. n) (set_commit c m) p).0.kv ≡ m.kv
unfolding apply_committed_entries
replay_none codec c m p none_applied boundary some_committed room =
    let start : add64 m.state.volatile.last_applied 1 ≡ 1 = omega arith in
    let rounds : c + 1 - 1 ≡ c = omega arith in
    rw (lt→leb c m.state.volatile.last_applied (omega arith), start, rounds)
      (apply_range_none codec m.log 1 c m.kv (omega arith))

module _ {D : Type 0} (storage : Storage D) (config : NodeConfig) (now ms : ℕ) where
  boot-load :
      (d : PersistentData) (disk : D)
      → storage.load disk ≡ some (some d)
      → ((boot storage config now ms disk).node.log ≡ to_log_store d)
        × ((boot storage config now ms disk).node.state.volatile
            ≡ record { commit_index = 0; last_applied = 0 })
        × ((boot storage config now ms disk).node.kv ≡ new_store)
  unfolding boot start_from
  boot-load d disk h = rw h (refl, refl, refl)

  -- A node that saved a snapshot and is started again has an empty store. Its log begins behind the
  -- snapshot, and once it knows again that the entries up to the snapshot are committed and has applied
  -- them, the store is still empty.
  pub boot-create_snapshot :
      (codec : KvCodec) (n : Node D)
      → n.log.snapshot_last_index < n.state.volatile.commit_index
      → n.state.volatile.commit_index + 1 < u64_mod
      → (create_snapshot codec storage undisturbed n).1 ≡ ok
      → let n' = (create_snapshot codec storage undisturbed n).0 in
        let s = boot storage config now ms n'.disk in
        (s.node.log ≡ n'.log)
        × (s.node.kv ≡ new_store)
        × ((apply_committed_entries codec
              (λ m. m)
              (λ m. m)
              (set_commit n.state.volatile.commit_index s.node)
              s.pending).0.kv
            ≡ new_store)
  boot-create_snapshot codec n low room won =
      let n' = (create_snapshot codec storage undisturbed n).0 in
      let (d, loaded, content, log, term) = create_snapshot-saved codec storage n low won in
      let (log', volatile, kv) = boot-load d n'.disk loaded in
      let again = boot storage config now ms n'.disk in
      (
        log' ∙ log,
        kv,
        replay_none codec n.state.volatile.commit_index again.node again.pending
              (ap (λ v. v.last_applied) volatile)
              (ap (λ l. l.snapshot_last_index) (log' ∙ log)
                ∙ create_snapshot_boundary codec storage n low)
              (omega arith) room
            ∙ kv,
      )
