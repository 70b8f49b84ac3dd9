-- ===== src/Raft/Agreement/CatchUp.antt =====
-- replication.rs and rpc.rs together: the heartbeats of a leader repair the log of a follower.
use macro_service.Prelude.{
  ℕ, zero, suc, ◌+◌, ◌-◌, ◌≤◌, ◌<◌, ◌≡◌, inl, inr, ap, ◌∙◌, true, some, arith, le-or-lt, Bool-cases,
}
use macro_service.Raft.Log.{LogStore, last_index, get, match_entry}
use macro_service.Raft.Log.View.{get-some}
use macro_service.Raft.State.{RaftState}
use macro_service.Raft.Storage.{Storage}
use macro_service.Raft.Node.{Node}
use macro_service.Raft.Replication.{Heartbeat, append_request, entry_term}
use macro_service.Raft.Replication.Request.{prev-append_request, term-append_request}
use macro_service.Raft.Agreement.{AgreeUpTo}
use macro_service.Raft.Agreement.Round.{
  CanSend, Between, one_round, Frame, Frame-refl, Frame-trans, carried, accepted, refused,
}
use macro_service.Raft.Agreement.Exchange.{rounds}
use macro_service.Raft.Agreement.Answered.{Tracks}
use macro_service.Kv.Store.{KvCodec}

module _ {D : Type 0} (storage : Storage D) (codec : KvCodec) (now ms majority i count : ℕ)
    (h : Heartbeat) (l : LogStore) where
  -- The leader knows that the follower has the whole log, and it does.
  abbrev pub CaughtUp : RaftState × Node D → Type 0
  CaughtUp p =
      Tracks i (last_index l + 1) (last_index l) h.term p.0 × AgreeUpTo l p.1.log (last_index l)

  arrived :
      (next : ℕ) (p : RaftState × Node D)
      → next ≡ last_index l + 1
      → Between i h l next (next - 1) p
      → AgreeUpTo l p.1.log (next - 1)
      → CaughtUp p
  arrived next p e b agree =
      let e' : next - 1 ≡ last_index l = omega arith in (rw (e', e) at b.tracks, rw e' at agree)

  -- Where the logs agree in front of the next index, the check of the previous entry succeeds.
  agreed :
      CanSend h l
      → (next : ℕ) (f : LogStore) → 1 < next
      → next ≤ last_index l
      → f.snapshot_last_index ≡ 0
      → AgreeUpTo l f (next - 1)
      → match_entry f
          (append_request h l next).prev_log_index
          (append_request h l next).prev_log_term
        ≡ true
  unfolding match_entry
  agreed c next f later end bottom agree =
      let low : l.snapshot_last_index < next = omega (arith, c.whole) in
      let behind = prev-append_request h l c.valid next low (omega arith) in
      let prev = (append_request h l next).prev_log_index in
      let (e, found) = get-some l prev c.valid (omega (arith, c.whole)) (omega arith) in
      let there : get f prev ≡ some e =
        agree prev (omega (arith, c.whole)) (omega (arith, bottom)) (omega arith) ∙ found in
      let sent =
        term-append_request h l c.valid next low (omega arith) later ∙ ap entry_term found in
      ground (arith, there, sent, bottom)

  -- From an agreement on, every round brings more entries.
  advances :
      CanSend h l
      → (d next : ℕ) (s : RaftState) (f : Node D) → Between i h l next (next - 1) (s, f)
      → AgreeUpTo l f.log (next - 1)
      → 1 < next
      → next ≤ last_index l + 1
      → last_index l + 1 ≤ next + d
      → (k : ℕ) × (k ≤ d)
        × CaughtUp (rounds storage codec now ms majority i count h l k (s, f))
        × Frame i h.term s (rounds storage codec now ms majority i count h l k (s, f)).0
  unfolding rounds
  advances c zero next s f b agree later high near =
      (0, omega arith, arrived next (s, f) (omega arith) b agree, Frame-refl i h.term s)
  advances c (suc d) next s f b agree later high near = elim (le-or-lt next (last_index l)) [
    | inr done ↦ (0, omega arith, arrived next (s, f) (omega arith) b agree, Frame-refl i h.term s)
    | inl more ↦
        (let (b', agree', left) =
            accepted storage codec now ms majority i count h l c next (next - 1) s f b (omega arith)
              more (agreed c next f.log later more b.whole agree) in
          let (grows, within) =
            carried storage codec now ms majority i count h l c next (next - 1) s f b (omega arith)
              more in
          let p = one_round storage codec now ms majority i count h l (s, f) in
          let (k, few, there, kept) =
            advances c d _ p.0 p.1 b' agree' (omega (arith, grows)) within (omega (arith, grows)) in
          (suc k, omega arith, there, Frame-trans i h.term s p.0 _ left kept))
  ]

  catches_up :
      CanSend h l
      → (g next matched : ℕ) (s : RaftState) (f : Node D) → Between i h l next matched (s, f)
      → 1 ≤ next
      → next ≤ last_index l
      → next ≤ g
      → (k : ℕ) × (k < next + last_index l)
        × CaughtUp (rounds storage codec now ms majority i count h l k (s, f))
        × Frame i h.term s (rounds storage codec now ms majority i count h l k (s, f)).0
  unfolding rounds
  catches_up c zero next matched s f b start end enough = absurd (omega arith)
  catches_up c (suc g) next matched s f b start end enough =
      let req = append_request h l next in
      let p = one_round storage codec now ms majority i count h l (s, f) in
      elim (Bool-cases (match_entry f.log req.prev_log_index req.prev_log_term)) [
        | inl same ↦
            (let (b', agree', left) =
                accepted storage codec now ms majority i count h l c next matched s f b start end
                  same in
              let (grows, within) =
                carried storage codec now ms majority i count h l c next matched s f b start end in
              let (k, few, there, kept) =
                advances c (last_index l - next) _ p.0 p.1 b' agree' (omega (arith, grows)) within
                  (omega (arith, grows)) in
              (suc k, omega arith, there, Frame-trans i h.term s p.0 _ left kept))
        | inr other ↦
            (let (later, b', left) =
                refused storage codec now ms majority i count h l c next matched s f b start end
                  other in
              let (k, few, there, kept) =
                catches_up c g (next - 1) matched p.0 p.1 b' (omega arith) (omega arith)
                  (omega arith) in
              (suc k, omega arith, there, Frame-trans i h.term s p.0 _ left kept))
      ]

  -- A leader that may send at least one entry in a message, and whose log is valid and begins with its
  -- first entry, repairs the log of a follower of its own or an older term that has a valid log and has
  -- not compacted it, where the Log Matching property holds between the two logs:
  -- from any next index in its log, and whatever the follower holds, a number of exchanges that is below
  -- the sum of the next index and the last index brings the follower's log into agreement with the
  -- leader's up to the last entry, and the leader's indices of the follower to the end of its log. The
  -- leader keeps its role, its term, its vote, its volatile state and its indices of the other peers.
  pub rounds-CaughtUp :
      (next matched : ℕ) (s : RaftState) (f : Node D)
      → CanSend h l
      → Between i h l next matched (s, f)
      → 1 ≤ next
      → next ≤ last_index l
      → (k : ℕ) × (k < next + last_index l)
        × CaughtUp (rounds storage codec now ms majority i count h l k (s, f))
        × Frame i h.term s (rounds storage codec now ms majority i count h l k (s, f)).0
  rounds-CaughtUp next matched s f c b start end =
      catches_up c next next matched s f b start end (omega arith)
