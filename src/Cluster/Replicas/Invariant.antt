-- ===== src/Cluster/Replicas/Invariant.antt =====
-- The replicas in every run of a cluster.
use macro_service.Prelude.{
  ℕ, ◌≤◌, ◌≡◌, inl, inr, sym, ap, ◌∙◌, true, false, List, [], ◌∷◌, Bool, if◌then◌else◌, length,
}
use mathlib.Core.Bool.{true≢false}
use macro_service.Raft.Log
use macro_service.Raft.Log.{LogEntry, LogStore, get}
use macro_service.Raft.State.{majority_of, candidate}
use macro_service.Raft.Storage.{Storage}
use macro_service.Raft.Node.{Node, returns}
use macro_service.Raft.Election.{Peers, finish_election, votes_received}
use macro_service.Raft.Replication
use macro_service.Kv.Store.{KvCodec}
use macro_service.Cluster.{
  Grant, has, Run, put, stand, own_vote, Step, vote, stands, wins, appends, installs, proposes,
  compacts, restarts, others, Reach,
}
use macro_service.Cluster.Votes.{has-later, has_won_cons}
use macro_service.Cluster.Invariant.{Inv, Reach-Inv}
use macro_service.Cluster.Elections.{election_safety}
use macro_service.Cluster.Grants.{IsReliable}
use macro_service.Cluster.Replicas.{Net, log_of, IsFresh, Allowed, step, beats, Moves, begin, later}
use macro_service.Cluster.Replicas.History.{History, new-Follows}
use macro_service.Cluster.Replicas.Leads.{IsSafe, extended, follower-leader, follower-candidate}
use macro_service.Cluster.Replicas.Handlers.{
  Votes, handle_request_vote-Votes, append_entries-Stored, finish_election_lem,
}
use macro_service.Cluster.Replicas.Mirrors.{
  Origin, All-Sent, sent-Grows, Replica, Mirrors, put-Replica, Calm-Replica, beats-Mirrors,
}
use macro_service.Cluster.Replicas.Steps.{Stored-Replica, stand-Replica, restart-Replica}
use macro_service.Cluster.Replicas.Elected.{elected, elected-others, elected-Replica}
use macro_service.Cluster.Replicas.Proposed.{proposed-others, proposed-Replica, grown, history'}

has_if :
    (b : Bool) (e : Grant) (g : List Grant) (v t c : ℕ)
    → has g v t c ≡ true
    → has (if b then e ∷ g else g) v t c ≡ true
has_if true e g v t c h = has-later e g v t c h
has_if false e g v t c h = h

module _ {D : Type 0} (storage : Storage D) (reliable : IsReliable storage) (codec : KvCodec)
    (members : List ℕ) where
  -- The run without its messages.
  pub Moves-Reach :
      {start : ℕ → Node D} {s : Net D}
      → Moves storage codec members start s
      → Reach storage codec members start s.run
  Moves-Reach begin = Reach.begin
  Moves-Reach (later p (step q a)) = Reach.later (Moves-Reach p) q
  Moves-Reach (later p (beats i max_entries peers)) = Moves-Reach p

  -- A step that changes one node, and keeps the histories.
  put-Mirrors :
      (history : History) (s : Net D) (i : ℕ) (m : Node D)
      → Mirrors storage history s
      → Replica storage s.run.winners history i m
      → Mirrors storage history (record { run = put i m s.run; sent = s.sent })
  put-Mirrors history s i m h r = record {
    replicas = put-Replica storage s.run.winners history i m s.run r (λ v other. h.replicas v);
    sent = h.sent;
    voted = h.voted;
  }

  -- The end of an election.
  finish_election-Mirrors :
      (history : History) (s : Net D) (t i count : ℕ) (peers : Peers)
      → majority_of (length peers) ≤ count
      → has s.run.grants i t i ≡ true
      → IsSafe ((t, i) ∷ s.run.winners)
      → (s.run.nodes i).state.role ≡ candidate
      → (s.run.nodes i).state.persistent.current_term ≡ t
      → Mirrors storage history s
      → Mirrors storage (extended history t (s.run.nodes i).log) (record {
        run = record (put i (finish_election peers (votes_received count) (s.run.nodes i)) s.run) {
          winners = (t, i) ∷ s.run.winners;
        };
        sent = s.sent;
      })
  finish_election-Mirrors history s t i count peers enough own safe role term h =
      let grows = elected storage s.run.winners history t i s.run safe h.replicas role term in
      let winner =
        elected-Replica storage s.run.winners history t i s.run safe h.replicas role term in
      let ends = finish_election_lem storage reliable peers count (s.run.nodes i) enough in
      record {
        replicas =
            put-Replica storage ((t, i) ∷ s.run.winners) (extended history t (s.run.nodes i).log) i
              (finish_election peers (votes_received count) (s.run.nodes i)) s.run (rw ends winner)
              (elected-others storage s.run.winners history t i s.run safe h.replicas role term);
        sent = sent-Grows s.run.winners ((t, i) ∷ s.run.winners) history _ s.sent grows h.sent;
        voted = λ u d w. elim (has_won_cons t i s.run.winners u d w) [
          | inl new ↦ rw (sym new.0, sym new.1) own
          | inr old ↦ h.voted u d old
        ];
      }

  Step-Mirrors :
      (history : History) (s : Net D) {t : Run D} (p : Step storage codec members s.run t)
      → Inv storage members s.run
      → IsSafe t.winners
      → Allowed storage codec members s p
      → Mirrors storage history s
      → (history' : History) × Mirrors storage history' (record { run = t; sent = s.sent })
  Step-Mirrors history s (vote i req m a e) inv safe allowed h =
      let n = s.run.nodes i in
      let calm : Votes storage reliable n (returns m a) =
        rw e at (handle_request_vote-Votes storage reliable req n) in
      let base =
        put-Mirrors history s i m h
          (Calm-Replica storage s.run.winners history i n m calm (h.replicas i)) in
      (
        history,
        record {
          replicas = base.replicas;
          sent = base.sent;
          voted = λ t c w. has_if a.vote_granted (i, req, n.log) s.run.grants c t c (h.voted t c w);
        },
      )
  Step-Mirrors history s (stands i room) inv safe allowed h =
      let n = s.run.nodes i in
      let base = put-Mirrors history s i (stand storage n) h (
        stand-Replica storage reliable s.run.winners history i s.run.grants n (h.replicas i)
          (inv.memory i) h.voted room) in
      (
        history,
        record {
          replicas = base.replicas;
          sent = base.sent;
          voted = λ t c w. has-later (i, own_vote n, n.log) s.run.grants c t c (h.voted t c w);
        },
      )
  Step-Mirrors history s (wins i t c count peers rpc log cluster own backed counted enough) inv safe
        (role, term, id) h =
      let itself : c ≡ i = sym id ∙ (h.replicas i).node_id in
      (
        extended history t (s.run.nodes i).log,
        rw itself (
            finish_election-Mirrors history s t i count peers enough (rw itself at own)
              (rw itself at safe) role term h),
      )
  Step-Mirrors history s (appends i now ms req) inv safe allowed h =
      let n = s.run.nodes i in
      (
        history,
        put-Mirrors history s i _ h (elim (append_entries-Stored storage reliable now ms req n) [
          | inl calm ↦ Calm-Replica storage s.run.winners history i n _ calm (h.replicas i)
          | inr accepted ↦
              Stored-Replica storage reliable s.run.winners history i req n _ safe (h.replicas i)
                (All-Sent (Origin s.run.winners history) (Replication.append_entries req) s.sent
                  allowed.0 h.sent)
                allowed.1 accepted
        ]),
      )
  Step-Mirrors history s (installs i now ms req) inv safe allowed h = absurd allowed
  Step-Mirrors history s (proposes i cmd) inv safe (leading, room) h =
      let w = s.run.winners in
      let grows = grown storage reliable w history i s.run codec cmd safe h.replicas leading room in
      (
        history' storage reliable w history i s.run codec cmd safe h.replicas leading room,
        record {
          replicas =
              put-Replica storage w _ i _ s.run
                (proposed-Replica storage reliable w history i s.run codec cmd safe h.replicas
                  leading room)
                (proposed-others storage reliable w history i s.run codec cmd safe h.replicas
                  leading room);
          sent = sent-Grows w w history _ s.sent grows h.sent;
          voted = h.voted;
        },
      )
  Step-Mirrors history s (compacts i) inv safe allowed h = absurd allowed
  Step-Mirrors history s (restarts i now ms config) inv safe allowed h = (
    history,
    put-Mirrors history s i _ h (
        restart-Replica storage reliable s.run.winners history i now ms config (s.run.nodes i)
          (h.replicas i) allowed),
  )
  Step-Mirrors history s (others i m a d) inv safe allowed h = (
    history,
    put-Mirrors history s i m h (
        Calm-Replica storage s.run.winners history i (s.run.nodes i) m
          (record { quiet = allowed; disk = inl (ap (log_of storage) d) }) (h.replicas i)),
  )

  Fresh-Mirrors :
      (start : ℕ → Node D)
      → IsFresh storage start
      → Mirrors storage
          (λ _. Log.new)
          (record { run = record { nodes = start; grants = []; winners = [] }; sent = [] })
  Fresh-Mirrors start fresh = record {
    replicas = λ i. record {
      node_id = fresh.node_id i;
      log = rw (fresh.log i) (new-Follows [] (λ _. Log.new));
      disk = rw (fresh.disk i) (new-Follows [] (λ _. Log.new));
      leads = λ h. absurd (follower-leader (sym (fresh.role i) ∙ h));
      waits = λ h. absurd (follower-candidate (sym (fresh.role i) ∙ h));
    };
    sent = tt;
    voted = λ t c w. absurd (true≢false (sym w));
  }

  pub Moves-Mirrors :
      {start : ℕ → Node D} {s : Net D}
      → IsFresh storage start
      → Moves storage codec members start s
      → (history : History) × Mirrors storage history s
  Moves-Mirrors {start} fresh begin = (λ _. Log.new, Fresh-Mirrors start fresh)
  Moves-Mirrors {start} fresh (later {s} p (step {t} q a)) =
      let (history, h) = Moves-Mirrors fresh p in
      let safe : IsSafe t.winners = λ u c d.
        election_safety storage members codec start t u c d reliable
          (Reach.later (Moves-Reach p) q) in
      Step-Mirrors history s q (Reach-Inv storage members codec reliable (Moves-Reach p)) safe a h
  Moves-Mirrors fresh (later {s} p (beats i max_entries peers)) =
      let (history, h) = Moves-Mirrors fresh p in
      (history, beats-Mirrors storage history s i max_entries peers h)
