-- ===== src/Cluster/Replicas/Stores.antt =====
-- The stores that the nodes of a cluster build from their logs.
use macro_service.Prelude.{ℕ, ◌+◌, ◌≤◌, ◌<◌, ◌≡◌, some, List, u64_mod}
use macro_service.Raft.Log.{LogEntry, get}
use macro_service.Raft.Node.{Node}
use macro_service.Raft.Storage.{Storage}
use macro_service.Raft.Pending.{PendingRequests}
use macro_service.Raft.Replication.ApplyOrder.{applied, applied_agree}
use macro_service.Kv.Store.{KvCodec}
use macro_service.Cluster.Grants.{IsReliable}
use macro_service.Cluster.Replicas.{Net, IsFresh, Moves}
use macro_service.Cluster.Replicas.Matching.{log_matching}

module _ {D : Type 0} (storage : Storage D) (reliable : IsReliable storage) (codec : KvCodec)
    (members : List ℕ) where
  -- In every run of a cluster as for log_matching: two nodes with the same store and the same
  -- last_applied, whose logs have entries of one term at an index that is not behind it, have the same
  -- store once each, with no other task at work, has been told that index as the commit index and
  -- has applied up to it.
  pub stores_agree :
      (start : ℕ → Node D) (s : Net D) (v w c : ℕ) (e e' : LogEntry) (p q : PendingRequests)
      → IsFresh storage start
      → Moves storage codec members start s
      → get (s.run.nodes v).log c ≡ some e
      → get (s.run.nodes w).log c ≡ some e'
      → e.term ≡ e'.term
      → (s.run.nodes v).kv ≡ (s.run.nodes w).kv
      → (s.run.nodes v).state.volatile.last_applied ≡ (s.run.nodes w).state.volatile.last_applied
      → (s.run.nodes v).state.volatile.last_applied ≤ c
      → c + 1 < u64_mod
      → (applied codec c (s.run.nodes v) p).kv ≡ (applied codec c (s.run.nodes w) q).kv
  stores_agree start s v w c e e' p q fresh run here there term same from low room =
      applied_agree codec (s.run.nodes v) (s.run.nodes w) c p q same from low room (λ i above le.
        log_matching storage reliable codec members start s v w c e e' fresh run here there term i
          le)
