-- ===== src/Cluster/Invariant.antt =====
-- What holds in every run of a cluster.
use macro_service.Prelude.{
  ℕ, ◌+◌, ◌≤◌, ◌<◌, ◌≡◌, inl, inr, sym, ap, ◌∙◌, true, List, ◌∷◌, map, arith, length, All,
}
use macro_service.Raft.Log.{LogStore}
use macro_service.Raft.State.{majority_of}
use macro_service.Raft.State.Advances.{Advances}
use macro_service.Raft.Storage.{Storage}
use macro_service.Raft.Messages.{VoteRequest, VoteResponse}
use macro_service.Raft.Node.{Node, returns}
use macro_service.Raft.Election.{
  log_is_up_to_date, Rpc, Peers, votes_received, collect_votes, vote_request, finish_election,
}
use macro_service.Kv.Store.{KvCodec}
use macro_service.Cluster.{
  Grant, own_vote, has, votes, Run, has_won, IsClusterOf, Backed, put, stand, restart, Step, vote,
  stands, wins, appends, installs, proposes, compacts, restarts, others, Reach, begin, later,
}
use macro_service.Cluster.Grants.{
  disk_of, IsReliable, IsSafe, Answered, stand-disk, stand-Advances, stand-persistent,
  own_vote_up_to_date, finish_election-IsSafe, restart-disk, handle_request_vote-Answered,
  restart-persistent,
}
use macro_service.Cluster.Logs.{
  append_entries-IsSafe, append_command-IsSafe, install_snapshot-IsSafe, create_snapshot-IsSafe,
}
use macro_service.Cluster.Votes.{has_won_cons, votes_enough, votes-later, has_cons}
use macro_service.Cluster.Memory.{
  ballot, Remembers, Remembers-Advances, Remembers-here, Remembers-elsewhere, Remembers-agrees,
  put_cases,
}
use mathlib.Core.Bool.{true≢false}

-- The voter's log was not newer than the candidate's.
abbrev pub IsFair : Grant → Type 0
IsFair (v, req, log) = log_is_up_to_date req log ≡ true

module _ {D : Type 0} (storage : Storage D) (members : List ℕ) where
  -- Each node remembers its votes, in memory and on its disk, gave one vote a term at most, and none
  -- to an older log; each winner has the votes of more than half of the members.
  pub record Inv (r : Run D) : Type 0 where
    pub memory : (v : ℕ) → Remembers r.grants v (r.nodes v).state.persistent
    pub disk : (v : ℕ) → Remembers r.grants v (disk_of storage (r.nodes v).disk)
    pub unique : (v t c d : ℕ) → has r.grants v t c ≡ true → has r.grants v t d ≡ true → c ≡ d
    pub fair : All IsFair r.grants
    pub won :
        (t c : ℕ)
        → has_won r.winners t c ≡ true
        → length members < votes r.grants t c members + votes r.grants t c members

  pub put-Inv :
      (i : ℕ) (m : Node D) (r : Run D)
      → Inv r
      → Remembers r.grants i m.state.persistent
      → Remembers r.grants i (disk_of storage m.disk)
      → Inv (put i m r)
  put-Inv i m r h s d = record {
    memory =
        λ v. put_cases (λ v n. Remembers r.grants v n.state.persistent) i m r v s (λ _. h.memory v);
    disk = λ v.
        put_cases (λ v n. Remembers r.grants v (disk_of storage n.disk)) i m r v d (λ _. h.disk v);
    unique = h.unique;
    fair = h.fair;
    won = h.won;
  }

  pub safe-Inv :
      (i : ℕ) (m : Node D) (r : Run D) → Inv r → IsSafe storage (r.nodes i) m → Inv (put i m r)
  safe-Inv i m r h s =
      let now = Remembers-Advances r.grants i _ m.state.persistent (h.memory i) s.advances in
      put-Inv i m r h now
        (elim s.disk [ inl kept ↦ rw kept (h.disk i) | inr written ↦ rw written now ])

  -- A node gives its vote once it has it in memory and on the disk.
  pub grant-Inv :
      (i : ℕ) (req : VoteRequest) (log : LogStore) (m : Node D) (r : Run D)
      → Inv r
      → Advances (r.nodes i).state.persistent m.state.persistent
      → m.state.persistent ≡ ballot req.term req.candidate_id
      → disk_of storage m.disk ≡ m.state.persistent
      → log_is_up_to_date req log ≡ true
      → Inv (record (put i m r) { grants = (i, req, log) ∷ r.grants })
  grant-Inv i req log m r h a e d f =
      let agrees : Advances (r.nodes i).state.persistent (ballot req.term req.candidate_id) =
        rw e at a in
      let here =
        Remembers-here r.grants i req log (r.nodes i).state.persistent (h.memory i) agrees in
      let once : (d : ℕ) → has r.grants i req.term d ≡ true → req.candidate_id ≡ d = λ d.
        Remembers-agrees r.grants i req.term req.candidate_id d (r.nodes i).state.persistent
          (h.memory i) agrees in
      record {
        memory = λ v.
            put_cases (λ v n. Remembers ((i, req, log) ∷ r.grants) v n.state.persistent) i m r v
              (rw e here) (λ other. Remembers-elsewhere r.grants i v req log _ other (h.memory v));
        disk = λ v.
            put_cases (λ v n. Remembers ((i, req, log) ∷ r.grants) v (disk_of storage n.disk)) i m r
              v (rw (d ∙ e) here)
              (λ other. Remembers-elsewhere r.grants i v req log _ other (h.disk v));
        unique = λ v u a b p q. elim (has_cons (i, req, log) r.grants v u a p) [
          | inl new ↦ elim (has_cons (i, req, log) r.grants v u b q) [
            | inl new' ↦ sym new.2 ∙ new'.2
            | inr old' ↦ sym new.2 ∙ once b (rw (new.0, new.1) old')
          ]
          | inr old ↦ elim (has_cons (i, req, log) r.grants v u b q) [
            | inl new' ↦ sym (once a (rw (new'.0, new'.1) old)) ∙ new'.2
            | inr old' ↦ h.unique v u a b old old'
          ]
        ];
        fair = (f, h.fair);
        won = λ t' c' w.
            omega (arith, votes-later (i, req, log) r.grants t' c' members, h.won t' c' w);
      }

  -- The node keeps its vote, and the votes that are counted for it were given.
  pub win-Inv :
      (i t c count : ℕ) (peers : Peers) (rpc : Rpc VoteRequest VoteResponse) (log : LogStore)
      (r : Run D)
      → Inv r
      → IsClusterOf members i (map (λ p. p.0) peers)
      → has r.grants i t c ≡ true
      → Backed r.grants rpc (vote_request t c log) peers
      → collect_votes rpc (vote_request t c log) peers 1 ≡ votes_received count
      → majority_of (length peers) ≤ count
      → Inv (record (put i (finish_election peers (votes_received count) (r.nodes i)) r) {
        winners = (t, c) ∷ r.winners;
      })
  win-Inv i t c count peers rpc log r h cluster own backed counted enough =
      let more =
        votes_enough members i t c count peers rpc log r.grants cluster own backed counted enough in
      let kept = safe-Inv i _ r h (finish_election-IsSafe storage peers count (r.nodes i)) in
      record {
        memory = kept.memory;
        disk = kept.disk;
        unique = h.unique;
        fair = h.fair;
        won = λ t' c' w. elim (has_won_cons t c r.winners t' c' w) [
          | inl new ↦ rw (sym new.0, sym new.1) more
          | inr old ↦ h.won t' c' old
        ];
      }

  module _ (codec : KvCodec) (reliable : IsReliable storage) where
    Step-Inv : {r t : Run D} → Inv r → Step storage codec members r t → Inv t
    Step-Inv {r} h (vote i req m a e) =
        let answer : Answered storage req (r.nodes i) (returns m a) =
          rw e at (handle_request_vote-Answered storage reliable req (r.nodes i)) in
        elim answer [
          | inl refused ↦
              rw (refused.0, refused.1) (put-Inv i (r.nodes i) r h (h.memory i) (h.disk i))
          | inr given ↦
              rw given.0 (grant-Inv i req (r.nodes i).log m r h given.1 given.2 given.3 given.4)
        ]
    Step-Inv {r} h (stands i room) =
        let n = r.nodes i in
        grant-Inv i (own_vote n) n.log (stand storage n) r h (stand-Advances storage n room)
          (stand-persistent storage n) (stand-disk storage reliable n)
          (own_vote_up_to_date storage n)
    Step-Inv {r} h (wins i t c count peers rpc log cluster own backed counted enough) =
        win-Inv i t c count peers rpc log r h cluster own backed counted enough
    Step-Inv {r} h (appends i now ms req) =
        safe-Inv i _ r h (append_entries-IsSafe storage reliable now ms req (r.nodes i))
    Step-Inv {r} h (installs i now ms req) =
        safe-Inv i _ r h (install_snapshot-IsSafe storage reliable now ms codec req (r.nodes i))
    Step-Inv {r} h (proposes i cmd) =
        safe-Inv i _ r h (append_command-IsSafe storage reliable codec cmd (r.nodes i))
    Step-Inv {r} h (compacts i) =
        safe-Inv i _ r h (create_snapshot-IsSafe storage reliable codec (r.nodes i))
    Step-Inv {r} h (restarts i now ms config) =
        put-Inv i (restart storage config now ms (r.nodes i)) r h
          (rw (restart-persistent storage config now ms (r.nodes i)) (h.disk i))
          (rw (restart-disk storage config now ms (r.nodes i)) (h.disk i))
    Step-Inv {r} h (others i m a d) =
        safe-Inv i m r h (record { advances = a; disk = inl (ap (disk_of storage) d) })

    pub Reach-Inv : {start : ℕ → Node D} {r : Run D} → Reach storage codec members start r → Inv r
    Reach-Inv begin = record {
      memory = λ v t c h. absurd (true≢false (sym h));
      disk = λ v t c h. absurd (true≢false (sym h));
      unique = λ v t c d h k. absurd (true≢false (sym h));
      fair = tt;
      won = λ t c h. absurd (true≢false (sym h));
    }
    Reach-Inv (later p s) = Step-Inv (Reach-Inv p) s
