-- ===== src/Cluster/Replicas/Proposed.antt =====
-- A leader that takes a command of a client.
use macro_service.Prelude.{ℕ, suc, ◌+◌, ◌<◌, ◌≡◌, ◌≢◌, refl, sym, ap, ◌∙◌, arith, u64_mod, add64}
use macro_service.Raft.Log.{LogEntry, last_index, append_one, new_entry}
use macro_service.Raft.State.{leader}
use macro_service.Raft.Storage.{Storage}
use macro_service.Raft.Node.{Node}
use macro_service.Kv.Store.{KvCodec, KvCommand, serialize}
use macro_service.Kv.Service.{append_command}
use macro_service.Cluster.{Run, has_won}
use macro_service.Cluster.Grants.{IsReliable}
use macro_service.Cluster.Replicas.{log_of}
use macro_service.Cluster.Replicas.History.{History, Winners, Grows, Follows-Grows}
use macro_service.Cluster.Replicas.Handlers.{log_of-save}
use macro_service.Cluster.Replicas.Mirrors.{Replica}
use macro_service.Cluster.Replicas.Leads.{
  leader-candidate, extended-here, extended-elsewhere, IsSafe, extended, append_one-Grows,
  append_one-Follows,
}

module _ {D : Type 0} (storage : Storage D) (reliable : IsReliable storage) where
  -- A leader that takes a command.
  module _ (won : Winners) (history : History) (i : ℕ) (r : Run D) (codec : KvCodec)
      (cmd : KvCommand) (safe : IsSafe won)
      (replicas : (v : ℕ) → Replica storage won history v (r.nodes v))
      (leading : (r.nodes i).state.role ≡ leader)
      (room : last_index (r.nodes i).log + 1 < u64_mod) where
    abbrev term_led : ℕ
    term_led = (r.nodes i).state.persistent.current_term

    abbrev after_command : Node D
    after_command = (append_command storage codec cmd (r.nodes i)).0

    abbrev entry : LogEntry
    entry = new_entry term_led (add64 (last_index (r.nodes i).log) 1) (serialize codec cmd)

    abbrev pub history' : History
    history' = extended history term_led (append_one (r.nodes i).log entry).0

    numbered : entry.index ≡ suc (last_index (r.nodes i).log)
    numbered = omega arith

    pub grown : Grows won won history history'
    grown =
        let m = replicas i in
        append_one-Grows won history (r.nodes i).log entry i m.log (m.leads leading).0
          (m.leads leading).1 numbered (omega arith)

    pub proposed-others : (v : ℕ) → i ≢ v → Replica storage won history' v (r.nodes v)
    proposed-others v other =
        let m = replicas v in
        let u = (r.nodes v).state.persistent.current_term in
        record {
          node_id = m.node_id;
          log = Follows-Grows won won history history' (r.nodes v).log grown m.log;
          disk =
              Follows-Grows won won history history' (log_of storage (r.nodes v).disk) grown m.disk;
          leads = λ h.
              let (own, w) = m.leads h in
              let elsewhere : u ≢ term_led = λ e. other (
                safe term_led i v (((replicas i).leads leading).1)
                  (ap (λ x. has_won won x v) (sym e) ∙ w)) in
              (own ∙ sym (extended-elsewhere history term_led u _ elsewhere), w);
          waits = m.waits;
        }

    append_command-fields :
        (after_command.log ≡ (append_one (r.nodes i).log entry).0)
        × (log_of storage after_command.disk ≡ (append_one (r.nodes i).log entry).0)
        × (after_command.state ≡ (r.nodes i).state)
    unfolding append_command
    append_command-fields =
        (refl, log_of-save storage reliable (r.nodes i).state _ (r.nodes i).disk, refl)

    pub proposed-Replica : Replica storage won history' i after_command
    proposed-Replica =
        let m = replicas i in
        let (own, w) = m.leads leading in
        let (log, disk, state) = append_command-fields in
        let follows =
          append_one-Follows won history (r.nodes i).log entry i m.log own w numbered
            (omega arith) in
        record {
          node_id = ap (λ s. s.node_id) state ∙ m.node_id;
          log = rw log follows;
          disk = rw disk follows;
          leads = λ h.
              let term = ap (λ s. s.persistent.current_term) state in
              (
                log ∙ sym (extended-here history term_led _ _ term),
                ap (λ u. has_won won u i) term ∙ w,
              );
          waits = λ h. absurd (leader-candidate (sym leading ∙ (ap (λ s. s.role) (sym state) ∙ h)));
        }
