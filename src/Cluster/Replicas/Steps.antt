-- ===== src/Cluster/Replicas/Steps.antt =====
-- A node that accepts a request, stands for election, or starts again.
use macro_service.Prelude.{ℕ, ◌+◌, ◌<◌, ◌≡◌, ◌≢◌, sym, ap, ◌∙◌, true, List, u64_mod}
use macro_service.Raft.Log.{match_entry}
use macro_service.Raft.Storage.{Storage}
use macro_service.Raft.Messages.{AppendEntriesRequest}
use macro_service.Raft.Node.{Node}
use macro_service.Raft.Replication
use macro_service.Raft.Replication.{Message}
use macro_service.Raft.Rpc.{store_entries}
use macro_service.Config.{NodeConfig}
use macro_service.Cluster.{Grant, has, has_won, stand, restart}
use macro_service.Cluster.Memory.{Remembers}
use macro_service.Cluster.Grants.{IsReliable, restart-disk}
use macro_service.Cluster.Replicas.History.{History, Winners, Follows, store_entries-Follows}
use macro_service.Cluster.Replicas.Handlers.{Stored, stand_lem, restart-log, restart-state}
use macro_service.Cluster.Replicas.Mirrors.{Origin, Replica}
use macro_service.Cluster.Replicas.Leads.{
  leader-candidate, follower-leader, follower-candidate, fresh_term, IsSafe,
}

module _ {D : Type 0} (storage : Storage D) (reliable : IsReliable storage) where
  -- An accepted request of another node.
  pub Stored-Replica :
      (won : Winners) (history : History) (i : ℕ) (req : AppendEntriesRequest) (n m : Node D)
      → IsSafe won
      → Replica storage won history i n
      → Origin won history (Replication.append_entries req)
      → req.leader_id ≢ i
      → Stored storage reliable req n m
      → Replica storage won history i m
  Stored-Replica won history i req n m safe r (w, h, l, next, made, f) other s =
      let ok = ap (λ q. match_entry n.log q.prev_log_index q.prev_log_term) (sym made) in
      let log = s.log ∙ ap (λ q. store_entries q.entries n.log) made in
      let follows : Follows won history m.log =
        rw log (store_entries-Follows won history h l n.log next f r.log (ok ∙ s.consistent)) in
      record {
        node_id = s.node_id ∙ r.node_id;
        log = follows;
        disk = rw s.disk follows;
        leads = λ leads.
            let (role, term) = s.leads leads in
            let (own, elected) = r.leads role in
            absurd (other (safe req.term req.leader_id i w (rw term at elected)));
        waits = λ h. absurd (s.waits h);
      }

  -- A node that stands for election in a new term.
  pub stand-Replica :
      (won : Winners) (history : History) (i : ℕ) (g : List Grant) (n : Node D)
      → Replica storage won history i n
      → Remembers g i n.state.persistent
      → ((t c : ℕ) → has_won won t c ≡ true → has g c t c ≡ true)
      → n.state.persistent.current_term + 1 < u64_mod
      → Replica storage won history i (stand storage n)
  stand-Replica won history i g n r known voted room =
      let (role, id, term, log, disk) = stand_lem storage reliable n room in
      record {
        node_id = id ∙ r.node_id;
        log = rw log r.log;
        disk = rw disk r.log;
        leads = λ leads. absurd (leader-candidate (sym leads ∙ role));
        waits = λ _ w. fresh_term n.state.persistent i (known _ i (voted _ i (rw term at w)));
      }

  pub restart-Replica :
      (won : Winners) (history : History) (i now ms : ℕ) (config : NodeConfig) (n : Node D)
      → Replica storage won history i n
      → config.node_id ≡ i
      → Replica storage won history i (restart storage config now ms n)
  restart-Replica won history i now ms config n r own =
      let (role, id) = restart-state storage config now ms n in
      record {
        node_id = id ∙ own;
        log = rw (restart-log storage config now ms n) r.disk;
        disk = rw (restart-disk storage config now ms n) r.disk;
        leads = λ h. absurd (follower-leader (sym role ∙ h));
        waits = λ h. absurd (follower-candidate (sym role ∙ h));
      }
