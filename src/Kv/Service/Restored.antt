-- ===== src/Kv/Service/Restored.antt =====
-- rpc.rs, replication.rs and store.rs together: a follower that gets a snapshot and then applies what
-- comes behind it.
use macro_service.Prelude.{
  ℕ, ◌+◌, ◌-◌, ◌≤◌, ◌<◌, ◌≡◌, ap, ◌∙◌, Option, some, List, arith, u64_mod, length, String,
}
use macro_service.Raft.Log.Valid.{IsValid}
use macro_service.Raft.Storage.{Storage}
use macro_service.Raft.Messages.{InstallSnapshotRequest}
use macro_service.Raft.Node.{Node}
use macro_service.Raft.Pending.{PendingRequests}
use macro_service.Raft.Rpc.{install_snapshot}
use macro_service.Raft.Rpc.Install.{install_snapshot_lem}
use macro_service.Raft.Replication.Apply.{apply_range}
use macro_service.Raft.Replication.ApplyOrder.{applied, applied-eq}
use macro_service.Kv.Store
use macro_service.Kv.Store.{KvStore, KvCommand, KvCodec, snapshot}
use macro_service.Kv.Service.Replay.{replay, replay_agree}
use macro_service.Kv.Service.Logged.{Carries, commands_of, apply_range-Carries}

module _ {D : Type 0} (storage : Storage D) (codec : KvCodec) (now ms : ℕ) where
  -- A follower with a valid log installs a newer snapshot of a current term, whose data is the copy of a
  -- store `kv`, of which serde made `bytes`; later its log has the commands `cs` of clients, or none, in
  -- the entries behind the snapshot, and with no other task at work it applies up to the last of them:
  -- it answers at each key as the clients' map does that began as `kv` and went through these commands.
  pub install_snapshot-replay :
      (req : InstallSnapshotRequest) (n m : Node D) (kv : KvStore) (bytes : List ℕ)
      (cs : List (Option KvCommand)) (p : PendingRequests)
      → IsValid n.log
      → n.state.persistent.current_term ≤ req.term
      → n.log.snapshot_last_index < req.last_included_index
      → req.last_included_index + length cs + 1 < u64_mod
      → codec.map_to_vec kv.entries ≡ some bytes
      → req.content ≡ snapshot codec kv
      → m.state.volatile.last_applied
        ≡ (install_snapshot storage now ms codec req n).0.state.volatile.last_applied
      → m.kv ≡ (install_snapshot storage now ms codec req n).0.kv
      → Carries codec m.log (req.last_included_index + 1) cs
      → (k : String)
      → Store.get (applied codec (req.last_included_index + length cs) m p).kv k
        ≡ replay (commands_of cs) (Store.get kv) k
  install_snapshot-replay req n m kv bytes cs p v term low room e content index same carried k =
      let b = req.last_included_index in
      let c = b + length cs in
      let a = m.state.volatile.last_applied in
      let facts =
        install_snapshot_lem storage now ms codec req n kv bytes v term low (omega arith) e
          content in
      let at_boundary : a ≡ b = index ∙ facts.5 in
      let size : c - a ≡ length cs = omega (arith, at_boundary) in
      let start : a + 1 ≡ b + 1 = omega (arith, at_boundary) in
      let done =
        ap (λ (x : Node D). x.kv)
          (applied-eq codec m c p (omega (arith, at_boundary)) (omega arith)) in
      let range =
        ap (λ j. apply_range codec m.log (a + 1) j m.kv) size
        ∙ ap (λ i. apply_range codec m.log i (length cs) m.kv) start in
      ap (λ s. Store.get s k) (done ∙ range)
      ∙ (apply_range-Carries codec m.log (b + 1) cs m.kv carried k
          ∙ replay_agree (commands_of cs) (Store.get m.kv) (Store.get kv)
              (λ x. ap (λ s. Store.get s x) same ∙ facts.0 x) k)
