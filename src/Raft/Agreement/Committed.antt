-- ===== src/Raft/Agreement/Committed.antt =====
-- replication.rs and rpc.rs together: once its followers are up to date, a leader commits its log.
use macro_service.Prelude.{
  ℕ, ◌+◌, ◌≤◌, ◌<◌, ◌≡◌, refl, sym, ap, ◌∙◌, true, some, List, [], ◌∷◌, arith, length, get_elem?,
  lt-length_of_some,
}
use macro_service.Raft.Log.{last_index}
use macro_service.Raft.State.{RaftState, LeaderState, is_leader}
use macro_service.Raft.Storage.{Storage}
use macro_service.Raft.Node.{Node}
use macro_service.Raft.Replication.{Heartbeat, Peers, term_at}
use macro_service.Raft.Replication.Commit.{set_commit, update_commit_index}
use macro_service.Raft.Replication.CommitRule.{
  acks, CommitRaised-high, Committable, update_commit_index-CommitRaised,
}
use macro_service.Raft.Agreement.{AgreeUpTo}
use macro_service.Raft.Agreement.Answered.{Tracks}
use macro_service.Raft.Agreement.Round.{CanSend}
use macro_service.Raft.Agreement.Everyone.{serve, AreReady, all_caught_up}
use macro_service.Kv.Store.{KvCodec}

-- Where all the peers have acknowledged the index they all count.
acks_all :
    (peers : Peers) (i : ℕ) (mi : List ℕ) (n : ℕ)
    → ((j : ℕ) → i < j → j ≤ i + length peers → get_elem? mi j ≡ some n)
    → acks peers i mi n ≡ length peers
acks_all [] i mi n all = refl
acks_all (p ∷ peers) i mi n all =
    let here = all (i + 1) (omega arith) (omega arith) in
    let rest = acks_all peers (i + 1) mi n (λ j low high. all j (omega arith) (omega arith)) in
    ground (arith, here, rest)

match_of :
    (i next matched term : ℕ) (n : RaftState) (ls : LeaderState)
    → n.leader_state ≡ some ls
    → Tracks i next matched term n
    → get_elem? ls.match_index i ≡ some matched
match_of i next matched term n ls here t =
    let both : some t.leads ≡ some ls = sym t.here ∙ here in
    let one : t.leads ≡ ls = cc in ap (λ k. get_elem? k.match_index i) (sym one) ∙ t.match_index

module _ {D : Type 0} (storage : Storage D) (codec : KvCodec) (now ms majority count : ℕ)
    (h : Heartbeat) (peers : Peers) (n : Node D) (followers : ℕ → Node D) where
  -- The leader after exchanges with the peers of the list.
  abbrev pub served : List ℕ → Node D
  served is = record n {
    state = (serve storage codec now ms majority count h n.log is (n.state, followers)).0;
  }

  -- A leader with at least one follower, that may send at least one entry in a message, and whose log is
  -- valid, begins with its first entry and ends above the commit index with an entry of its term. Where the next index of each follower lies in that log, and each
  -- follower is in no newer term, has a valid log from the first entry on, and has the Log Matching
  -- property with the leader, there are exchanges with them after which their logs agree with the
  -- leader's up to its last entry, and after which the leader commits it.
  pub serve-commits :
      0 < length peers
      → is_leader n.state.role ≡ true
      → CanSend h n.log
      → AreReady storage codec now ms majority count h n.log 0 (length peers) (n.state, followers)
      → n.state.volatile.commit_index < last_index n.log
      → term_at n.log (last_index n.log) ≡ h.term
      → (is : List ℕ) × (update_commit_index peers (λ i. n.log) (λ m. m) (served is)
          ≡ some (set_commit (last_index n.log) (served is)))
        × ((j : ℕ)
            → 0 < j
            → j ≤ length peers
            → AgreeUpTo n.log
                ((serve storage codec now ms majority count h n.log is (n.state, followers)).1
                  j).log
                (last_index n.log))
  serve-commits some_peer leads c ready uncommitted ends =
      let (is, done, left) =
        all_caught_up storage codec now ms majority count h n.log (length peers) 0
          (n.state, followers) c ready in
      let m = served is in
      let top = last_index n.log in
      let first = (done 1 (omega arith) (omega arith)).0 in
      let ls = first.leads in
      let matched : (j : ℕ) → 0 < j → j ≤ 0 + length peers → get_elem? ls.match_index j ≡ some top =
        λ j low high. match_of j (top + 1) top h.term m.state ls first.here (done j low high).0 in
      let sizes : length peers < length ls.match_index =
        lt-length_of_some ls.match_index (length peers) {x = top}
          (matched (length peers) some_peer (omega arith)) in
      let rule : Committable m.state.persistent.current_term peers ls.match_index (λ i. n.log) top =
        (ends ∙ sym first.in_term, omega (arith, acks_all peers 0 ls.match_index top matched)) in
      let volatile = ap (λ v. v.commit_index) left.keeps.volatile in
      let raised =
        update_commit_index-CommitRaised peers (λ i. n.log) (λ k. k) m ls
          (ap is_leader left.keeps.role ∙ leads) first.here sizes
          (omega (arith, volatile, c.room)) in
      (
        is,
        CommitRaised-high m _ m.state.volatile.commit_index top _ raised (omega (arith, volatile))
            rule,
        λ j low high. (done j low (omega arith)).1,
      )
