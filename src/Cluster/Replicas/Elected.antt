-- ===== src/Cluster/Replicas/Elected.antt =====
-- A candidate that wins its election.
use macro_service.Prelude.{ℕ, ◌≡◌, ◌≢◌, inl, inr, sym, ap, ◌∙◌, true, ◌∷◌}
use macro_service.Raft.State.{candidate, become_leader}
use macro_service.Raft.Storage.{Storage}
use macro_service.Cluster.{Run, has_won}
use macro_service.Cluster.Votes.{has_won_cons}
use macro_service.Cluster.Replicas.{log_of}
use macro_service.Cluster.Replicas.History.{History, Winners, Grows, Follows-Grows}
use macro_service.Cluster.Replicas.Mirrors.{Replica}
use macro_service.Cluster.Replicas.Leads.{
  leader-candidate, has_won-here, has_won-later, extended-here, extended-elsewhere, IsSafe,
  extended, elected-Grows,
}

module _ {D : Type 0} (storage : Storage D) where
  -- The end of an election that its candidate wins: the log of the winner is the log of the term.
  module _ (won : Winners) (history : History) (t i : ℕ) (r : Run D) (safe : IsSafe ((t, i) ∷ won))
      (replicas : (v : ℕ) → Replica storage won history v (r.nodes v))
      (waiting : (r.nodes i).state.role ≡ candidate)
      (term : (r.nodes i).state.persistent.current_term ≡ t) where
    first : (d : ℕ) → has_won won t d ≢ true
    first d w =
        let same = safe t d i (has_won-later t i won t d w) (has_won-here t i won) in
        (replicas i).waits waiting
          (ap (λ u. has_won won u i) term ∙ (ap (has_won won t) (sym same) ∙ w))

    pub elected : Grows won ((t, i) ∷ won) history (extended history t (r.nodes i).log)
    elected = elected-Grows won history t i (r.nodes i).log first

    pub elected-others :
        (v : ℕ)
        → i ≢ v
        → Replica storage ((t, i) ∷ won) (extended history t (r.nodes i).log) v (r.nodes v)
    elected-others v other =
        let m = replicas v in
        let u = (r.nodes v).state.persistent.current_term in
        record {
          node_id = m.node_id;
          log = Follows-Grows won ((t, i) ∷ won) history _ (r.nodes v).log elected m.log;
          disk =
              Follows-Grows won ((t, i) ∷ won) history _ (log_of storage (r.nodes v).disk) elected
                m.disk;
          leads = λ h.
              let (own, w) = m.leads h in
              let elsewhere : u ≢ t = λ e. other (
                safe t i v (has_won-here t i won)
                  (has_won-later t i won t v (ap (λ x. has_won won x v) (sym e) ∙ w))) in
              (
                own ∙ sym (extended-elsewhere history t u (r.nodes i).log elsewhere),
                has_won-later t i won u v w,
              );
          waits = λ h w. elim (has_won_cons t i won u v w) [
            | inl new ↦ other new.1
            | inr old ↦ m.waits h old
          ];
        }

    pub elected-Replica :
        Replica storage
          ((t, i) ∷ won)
          (extended history t (r.nodes i).log)
          i
          (record (r.nodes i) { state = become_leader (r.nodes i).state })
    unfolding become_leader
    elected-Replica =
        let m = replicas i in
        record {
          node_id = m.node_id;
          log = Follows-Grows won ((t, i) ∷ won) history _ (r.nodes i).log elected m.log;
          disk =
              Follows-Grows won ((t, i) ∷ won) history _ (log_of storage (r.nodes i).disk) elected
                m.disk;
          leads = λ h. (
            sym (extended-here history t _ (r.nodes i).log term),
            ap (λ u. has_won ((t, i) ∷ won) u i) term ∙ has_won-here t i won,
          );
          waits = λ h. absurd (leader-candidate h);
        }
