-- ===== src/Raft/Agreement/Overcount.antt =====
-- replication.rs and rpc.rs together: a heartbeat without entries to a follower whose log is longer
-- than the leader's, and what the leader commits then.
use macro_service.Prelude.{
  ℕ, zero, suc, ◌+◌, ◌≤◌, ◌<◌, ◌≡◌, refl, sym, ap, ◌∙◌, true, some, List, [], ◌∷◌, arith, u64_mod,
  add64, length, get_elem?,
}
use macro_service.Raft.Log.{LogEntry, LogStore, new_entry, last_index, get, match_entry, append_one}
use macro_service.Raft.Log.Valid.{IsValid, last_index-eq}
use macro_service.Raft.Log.Last.{append_one_end}
use macro_service.Raft.State.{RaftState, is_leader}
use macro_service.Raft.Storage.{Storage}
use macro_service.Raft.Messages.{AppendEntriesResponse}
use macro_service.Raft.Node.{Node}
use macro_service.Raft.Rpc.{append_entries, store_entries}
use macro_service.Raft.Rpc.Entries.{store_entries-nil}
use macro_service.Raft.Replication.{
  Heartbeat, Peers, append_request, term_at, entry_term, on_append_response,
}
use macro_service.Raft.Replication.Commit.{set_commit, update_commit_index}
use macro_service.Raft.Replication.CommitRule.{
  acks, Committable, CommitRaised-high, update_commit_index-CommitRaised,
}
use macro_service.Raft.Replication.Request.{length-append_request}
use macro_service.Raft.Agreement.Exchange.{after, exchange}
use macro_service.Raft.Agreement.Answered.{
  Tracks, on_append_response-success, on_append_response-Keeps, append_entries_accepts,
}
use macro_service.Raft.Membership.Consistent.{HasIndexFor}
use macro_service.Raft.Replication.Answers.{on_append_response-some}
use macro_service.Raft.Agreement.Round.{one_round-eq}
use macro_service.Kv.Store.{KvCodec, KvCommand, serialize}
use macro_service.Kv.Service.{append_command}

nil_of_length {ℓ} : {A : Type ℓ} (xs : List A) → length xs ≡ 0 → xs ≡ []
nil_of_length [] h = refl
nil_of_length (x ∷ xs) h = absurd (omega (arith, h))

-- A peer that has acknowledged an index is counted.
acks-one :
    (peers : Peers) (p i : ℕ) (mi : List ℕ) (n m : ℕ)
    → p < length peers
    → get_elem? mi (i + p + 1) ≡ some m
    → n ≤ m
    → 1 ≤ acks peers i mi n
acks-one [] p i mi n m h found le = elim h [ ]
acks-one (peer ∷ peers) zero i mi n m h found le =
    let here : get_elem? mi (i + 1) ≡ some m =
      (let e : i + 0 + 1 ≡ i + 1 = omega arith in rw e at found) in
    ground (arith, here)
acks-one (peer ∷ peers) (suc p) i mi n m h found le =
    let rest =
      acks-one peers p (i + 1) mi n m (omega arith)
        (let e : i + suc p + 1 ≡ i + 1 + p + 1 = omega arith in rw e at found) le in
    omega (arith, rest)

module _ {D : Type 0} (storage : Storage D) (codec : KvCodec) (now ms majority count : ℕ)
    (h : Heartbeat) (n f : Node D) (p matched : ℕ) where
  abbrev l : LogStore
  l = n.log

  -- A leader has sent its whole log to the peer at the place `p`, as far as it knows.
  pub record Ahead (peers : Peers) : Type 0 where
    pub leads : is_leader n.state.role ≡ true
    pub tracks : Tracks (p + 1) (last_index n.log + 1) matched h.term n.state
    pub valid : IsValid n.log
    pub low : f.state.persistent.current_term ≤ h.term
    pub whole : h.snapshot_last_index ≡ 0
    pub consistent :
        match_entry f.log
          (append_request h n.log (last_index n.log + 1)).prev_log_index
          (append_request h n.log (last_index n.log + 1)).prev_log_term
        ≡ true
    pub longer : last_index n.log < last_index f.log
    pub room : last_index f.log + 1 < u64_mod
    pub place : p < length peers
    pub few : length peers ≤ 2
    pub indices : HasIndexFor (length peers + 1) n.state.leader_state
    pub committed : n.state.volatile.commit_index ≤ last_index n.log

  module _ (peers : Peers) (a : Ahead peers) where
    no_entries : (append_request h n.log (last_index n.log + 1)).entries ≡ []
    no_entries = nil_of_length _ (
        omega (
          arith,
          length-append_request h n.log a.valid (last_index n.log + 1)
              (omega (arith, last_index-eq n.log a.valid)) (omega arith),
        ))

    abbrev reply : AppendEntriesResponse
    reply = record { term = h.term; success = true; match_index = last_index f.log }

    answer :
        let req = append_request h n.log (last_index n.log + 1) in
        ((append_entries storage now ms req f).1 ≡ reply)
        × ((append_entries storage now ms req f).0.log ≡ f.log)
    unfolding append_request
    answer =
        let (r, log, term) =
          append_entries_accepts storage now ms (append_request h n.log (last_index n.log + 1)) f
            a.low a.consistent in
        let kept = log ∙ (ap (λ es. store_entries es f.log) no_entries ∙ store_entries-nil f.log) in
        (
          r ∙ ap (λ i. record { term = h.term; success = true; match_index = last_index i }) kept,
          kept,
        )

    -- The leader after the answer, and then after a command.
    abbrev told : RaftState
    told = after n.state (on_append_response now majority (p + 1) reply n.state count)

    abbrev commanded : KvCommand → Node D
    commanded cmd = (append_command storage codec cmd (record n { state = told })).0

    told-HasIndexFor : HasIndexFor (length peers + 1) told.leader_state
    told-HasIndexFor =
        let (s, c, done, sizes, advances) =
          on_append_response-some now majority (p + 1) reply n.state count (length peers + 1)
            a.indices (omega (arith, a.place)) in
        rw (ap (after n.state) done) sizes

    abbrev entry : KvCommand → LogEntry
    entry cmd =
        new_entry told.persistent.current_term (add64 (last_index n.log) 1) (serialize codec cmd)

    commanded-fields :
        (cmd : KvCommand)
        → ((commanded cmd).state ≡ told) × ((commanded cmd).log ≡ (append_one n.log (entry cmd)).0)
    unfolding append_command
    commanded-fields cmd = (refl, refl)

    tracked : Tracks (p + 1) (last_index f.log + 1) (last_index f.log) h.term told
    tracked =
        on_append_response-success now majority (p + 1) (last_index n.log + 1) matched
          (last_index f.log) h.term count n.state a.tracks a.room

    commits :
        (cmd : KvCommand)
        → update_commit_index peers (λ _. (commanded cmd).log) (λ k. k) (commanded cmd)
          ≡ some (set_commit (last_index n.log + 1) (commanded cmd))
    commits cmd =
        let m = commanded cmd in
        let (state, log) = commanded-fields cmd in
        let (last, here) =
          append_one_end n.log (entry cmd) a.valid (omega arith)
            (omega (arith, a.room, a.longer)) in
        let keeps =
          on_append_response-Keeps now majority (p + 1) (last_index n.log + 1) matched h.term count
            reply n.state a.tracks refl in
        let ls = tracked.leads in
        let sizes : HasIndexFor (length peers + 1) (some ls) =
          rw tracked.here at told-HasIndexFor in
        let top = ap last_index log ∙ last in
        let term : term_at m.log (last_index n.log + 1) ≡ m.state.persistent.current_term =
          unfold term_at in
          (ap (λ l. entry_term (get l (last_index n.log + 1))) log
            ∙ ap entry_term here
            ∙ ap (λ s. s.persistent.current_term) (sym state)) in
        let acked =
          acks-one peers p 0 ls.match_index (last_index n.log + 1) (last_index f.log) a.place
            (let e : p + 1 ≡ 0 + p + 1 = omega arith in rw e at tracked.match_index)
            (omega (arith, a.longer)) in
        let rule : Committable m.state.persistent.current_term peers ls.match_index (λ _. m.log)
            (last_index n.log + 1) =
          (term, omega (arith, acked, a.few)) in
        let volatile =
          ap (λ s. s.volatile.commit_index) state ∙ ap (λ v. v.commit_index) keeps.volatile in
        let raised =
          update_commit_index-CommitRaised peers (λ _. m.log) (λ k. k) m ls
            (ap (λ s. is_leader s.role) state ∙ (ap is_leader keeps.role ∙ a.leads))
            (ap (λ s. s.leader_state) state ∙ tracked.here) (omega (arith, sizes.1))
            (omega (arith, volatile, a.committed, a.longer, a.room)) in
        CommitRaised-high m _ m.state.volatile.commit_index (last_index n.log + 1) _
          (rw top at raised) (omega (arith, volatile, a.committed)) rule

    -- In a cluster of two or three nodes, where a leader with a valid log has no snapshot and asks a
    -- peer, whose term is not newer, from behind its own log on: if the peer's log is longer and passes
    -- the consistency check, then after one heartbeat without entries the leader takes its next entry
    -- for one that the peer has. Given a command, it commits it at once, although the peer keeps the log
    -- that it had.
    pub heartbeat_overcounts :
        (cmd : KvCommand)
        → let (s, f') = exchange storage codec now ms majority (p + 1) count h n.log (n.state, f) in
          let m = (append_command storage codec cmd (record n { state = s })).0 in
          (f'.log ≡ f.log)
          × (update_commit_index peers (λ _. m.log) (λ k. k) m
              ≡ some (set_commit (last_index n.log + 1) m))
    heartbeat_overcounts cmd =
        let round =
          one_round-eq storage codec now ms majority (p + 1) count h n.log (last_index n.log + 1)
            matched n.state f reply a.whole a.tracks answer.0 in
        rw round (answer.1, commits cmd)
