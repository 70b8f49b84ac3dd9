-- ===== src/Cluster/Replicas/Matching.antt =====
-- The Log Matching property in every run of a cluster, and what it makes of the leaders.
use macro_service.Prelude.{ℕ, ◌≤◌, ◌≡◌, sym, ap, ◌∙◌, some, List}
use macro_service.Raft.State.{leader}
use macro_service.Raft.Log.{LogEntry, get}
use macro_service.Raft.Storage.{Storage}
use macro_service.Raft.Node.{Node}
use macro_service.Kv.Store.{KvCodec}
use macro_service.Cluster.{has_won}
use macro_service.Cluster.Elections.{election_safety}
use macro_service.Cluster.Grants.{IsReliable}
use macro_service.Cluster.Replicas.{Net, IsFresh, Moves}
use macro_service.Cluster.Replicas.History.{Follows-SameUpTo}
use macro_service.Cluster.Replicas.Invariant.{Moves-Reach, Moves-Mirrors}

module _ {D : Type 0} (storage : Storage D) (reliable : IsReliable storage) (codec : KvCodec)
    (members : List ℕ) where
  -- In every run of a cluster that starts with empty logs and in which saves succeed, with crashes,
  -- restarts, lost, late and doubled messages, but without snapshots, where each node wins only as the
  -- candidate that it still is and sends no requests to itself: if two logs have entries of one term at
  -- one index, then they have the same entries up to that index.
  pub log_matching :
      (start : ℕ → Node D) (s : Net D) (v w i : ℕ) (e e' : LogEntry)
      → IsFresh storage start
      → Moves storage codec members start s
      → get (s.run.nodes v).log i ≡ some e
      → get (s.run.nodes w).log i ≡ some e'
      → e.term ≡ e'.term
      → (j : ℕ) → j ≤ i
      → get (s.run.nodes v).log j ≡ get (s.run.nodes w).log j
  log_matching start s v w i e e' fresh run h k same =
      let (history, m) = Moves-Mirrors storage reliable codec members fresh run in
      Follows-SameUpTo s.run.winners history (s.run.nodes v).log (s.run.nodes w).log i e e'
        (m.replicas v).log (m.replicas w).log h k same

  -- In such a run two nodes that lead in one term are one node.
  pub one_leader :
      (start : ℕ → Node D) (s : Net D) (v w : ℕ)
      → IsFresh storage start
      → Moves storage codec members start s
      → (s.run.nodes v).state.role ≡ leader
      → (s.run.nodes w).state.role ≡ leader
      → (s.run.nodes v).state.persistent.current_term
        ≡ (s.run.nodes w).state.persistent.current_term
      → v ≡ w
  one_leader start s v w fresh run lead lead' same =
      let (history, m) = Moves-Mirrors storage reliable codec members fresh run in
      let won = ((m.replicas v).leads lead).1 in
      let won' = ((m.replicas w).leads lead').1 in
      election_safety storage members codec start s.run _ v w reliable
        (Moves-Reach storage reliable codec members run) won
        (ap (λ t. has_won s.run.winners t w) same ∙ won')

  -- In such a run a node that leads has every entry of its term that some node has, behind the same
  -- entries.
  pub leader_has :
      (start : ℕ → Node D) (s : Net D) (v w i : ℕ) (e : LogEntry)
      → IsFresh storage start
      → Moves storage codec members start s
      → (s.run.nodes v).state.role ≡ leader
      → get (s.run.nodes w).log i ≡ some e
      → e.term ≡ (s.run.nodes v).state.persistent.current_term
      → (j : ℕ) → j ≤ i
      → get (s.run.nodes v).log j ≡ get (s.run.nodes w).log j
  leader_has start s v w i e fresh run lead here term j le =
      let (history, m) = Moves-Mirrors storage reliable codec members fresh run in
      let own = ((m.replicas v).leads lead).0 in
      let was = ((m.replicas w).log.origin i e here).1 j le in
      ap (λ l. get l j) own ∙ (ap (λ t. get (history t) j) (sym term) ∙ sym was)
