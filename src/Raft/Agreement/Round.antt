-- ===== src/Raft/Agreement/Round.antt =====
-- replication.rs and rpc.rs together: one exchange, accepted or refused.
use macro_service.Prelude.{
  ℕ, ◌+◌, ◌-◌, ◌≤◌, ◌<◌, ◌≡◌, ◌≢◌, refl, ap, ◌∙◌, true, false, [], arith, u64_mod, length,
}
use macro_service.Raft.Log.{LogEntry, LogStore, last_index, match_entry}
use macro_service.Raft.Log.Valid.{IsValid}
use macro_service.Raft.State.{RaftState}
use macro_service.Raft.Storage.{Storage}
use macro_service.Raft.Messages.{AppendEntriesRequest, AppendEntriesResponse}
use macro_service.Raft.Node.{Node}
use macro_service.Raft.Rpc.{append_entries}
use macro_service.Raft.Rpc.Entries.{snapshot-store_entries}
use macro_service.Raft.Replication
use macro_service.Raft.Replication.{
  Heartbeat, append_request, message_for, on_append_response, record_success, record_failure,
  write_at, entry_term, term_at,
}
use macro_service.Raft.Replication.Request.{prev-append_request, length-append_request}
use macro_service.Raft.Agreement.{
  AgreeUpTo, LogMatching, append_request_agrees, append_request-LogMatching,
  last_index-append_request,
}
use macro_service.Raft.Agreement.Exchange.{after, call, exchange}
use macro_service.Raft.Agreement.Answered.{
  on_append_response-other, on_append_response-Keeps, Keeps, Tracks, on_append_response-success,
  on_append_response-failure, append_entries_accepts, append_entries_refuses,
}
use macro_service.Kv.Store.{KvCodec}

module _ (h : Heartbeat) (l : LogStore) where
  -- The leader's log begins with the first entry, and requests carry entries.
  pub record CanSend : Type 0 where
    pub valid : IsValid l
    pub whole : l.snapshot_last_index ≡ 0
    pub no_snapshot : h.snapshot_last_index ≡ 0
    pub carries : 0 < h.max_entries
    pub room : last_index l + 1 < u64_mod

module _ {D : Type 0} (i : ℕ) (h : Heartbeat) (l : LogStore) where
  -- What the two sides are like between two rounds.
  pub record Between (next matched : ℕ) (p : RaftState × Node D) : Type 0 where
    pub tracks : Tracks i next matched h.term p.0
    pub low : p.1.state.persistent.current_term ≤ h.term
    pub valid : IsValid p.1.log
    pub matching : LogMatching l p.1.log
    pub whole : p.1.log.snapshot_last_index ≡ 0

-- What a round with the peer `i` leaves alone: what the leader knows of the others, and its own state.
pub record Frame (i term : ℕ) (s s' : RaftState) : Type 0 where
  pub others : (j n m : ℕ) → i ≢ j → Tracks j n m term s → Tracks j n m term s'
  pub keeps : Keeps s s'

pub Frame-refl : (i term : ℕ) (s : RaftState) → Frame i term s s
Frame-refl i term s = record {
  others = λ j n m other t. t;
  keeps = record { role = refl; persistent = refl; volatile = refl };
}

pub Frame-trans :
    (i term : ℕ) (s t u : RaftState) → Frame i term s t → Frame i term t u → Frame i term s u
Frame-trans i term s t u f g = record {
  others = λ j n m other x. g.others j n m other (f.others j n m other x);
  keeps = record {
    role = g.keeps.role ∙ f.keeps.role;
    persistent = g.keeps.persistent ∙ f.keeps.persistent;
    volatile = g.keeps.volatile ∙ f.keeps.volatile;
  };
}

module _ {D : Type 0} (storage : Storage D) (codec : KvCodec) (now ms majority i count : ℕ)
    (h : Heartbeat) (l : LogStore) where
  abbrev pub one_round : RaftState × Node D → RaftState × Node D
  one_round = exchange storage codec now ms majority i count h l

  call-eq :
      (req : AppendEntriesRequest) (s : RaftState) (f : Node D)
      → call storage codec now ms majority i count h l (Replication.append_entries req) s f ≡ (
        after s (on_append_response now majority i (append_entries storage now ms req f).1 s count),
        (append_entries storage now ms req f).0,
      )
  unfolding call
  call-eq req s f = refl

  exchange-eq :
      (next matched : ℕ) (s : RaftState) (f : Node D)
      → h.snapshot_last_index ≡ 0
      → Tracks i next matched h.term s
      → one_round (s, f)
        ≡ call storage codec now ms majority i count h l
            (Replication.append_entries (append_request h l next))
            s
            f
  unfolding exchange
  exchange-eq next matched s f none_taken t =
      let message : message_for h l next ≡ Replication.append_entries (append_request h l next) =
        unfold message_for in ground (arith, none_taken) in
      simp (t.here, t.next_index, message) refl

  pub term-append : (next : ℕ) → (append_request h l next).term ≡ h.term
  unfolding append_request
  term-append next = refl

  pub one_round-eq :
      (next matched : ℕ) (s : RaftState) (f : Node D) (r : AppendEntriesResponse)
      → h.snapshot_last_index ≡ 0
      → Tracks i next matched h.term s
      → (append_entries storage now ms (append_request h l next) f).1 ≡ r
      → one_round (s, f) ≡ (
        after s (on_append_response now majority i r s count),
        (append_entries storage now ms (append_request h l next) f).0,
      )
  one_round-eq next matched s f r none_taken t e =
      exchange-eq next matched s f none_taken t
      ∙ call-eq (append_request h l next) s f
      ∙ ap
          (λ r. (
            after s (on_append_response now majority i r s count),
            (append_entries storage now ms (append_request h l next) f).0,
          ))
          e

  frame :
      (next matched : ℕ) (s : RaftState) (r : AppendEntriesResponse)
      → Tracks i next matched h.term s
      → r.term ≡ h.term
      → Frame i h.term s (after s (on_append_response now majority i r s count))
  frame next matched s r t e = record {
    others = on_append_response-other now majority i next matched h.term count r s t e;
    keeps = on_append_response-Keeps now majority i next matched h.term count r s t e;
  }

  module _ (c : CanSend h l) (next matched : ℕ) (s : RaftState) (f : Node D)
      (b : Between i h l next matched (s, f)) (start : 1 ≤ next) (end : next ≤ last_index l) where
    abbrev req : AppendEntriesRequest
    req = append_request h l next

    above_leader : l.snapshot_last_index < next
    above_leader = omega (arith, c.whole)

    above_follower : f.log.snapshot_last_index < next
    above_follower = omega (arith, b.whole)

    below_end : next ≤ last_index l + 1
    below_end = omega arith

    behind : req.prev_log_index + 1 ≡ next
    behind = prev-append_request h l c.valid next above_leader below_end

    low_term : f.state.persistent.current_term ≤ req.term
    low_term = rw (term-append next) b.low

    -- A request carries an entry, and none that the leader does not have.
    pub carried :
        (next + 1 ≤ next + length req.entries) × (next + length req.entries ≤ last_index l + 1)
    carried =
        let size = length-append_request h l c.valid next above_leader below_end in
        (omega (arith, size, c.carries), omega (arith, size))

    some_entry : req.entries ≢ []
    some_entry e = omega (arith, ap (length {A = LogEntry}) e, carried.0)

    module _ (same : match_entry f.log req.prev_log_index req.prev_log_term ≡ true) where
      reported :
          (append_entries storage now ms req f).1
          ≡ record { term = h.term; success = true; match_index = next + length req.entries - 1 }
      reported =
          let (answer, log, term) = append_entries_accepts storage now ms req f low_term same in
          let last =
            ap last_index log
            ∙ last_index-append_request h l f.log c.valid b.valid b.matching next above_leader
                below_end above_follower same some_entry in
          let place : req.prev_log_index + length req.entries ≡ next + length req.entries - 1 =
            omega (arith, behind) in
          answer
          ∙ ap
              (λ t. record {
                term = t;
                success = true;
                match_index = last_index (append_entries storage now ms req f).0.log;
              })
              (term-append next)
          ∙ ap (λ k. record { term = h.term; success = true; match_index = k }) (last ∙ place)

      -- An accepted request brings the follower on by the entries that it carries.
      pub accepted :
          Between i h l
            (next + length req.entries)
            (next + length req.entries - 1)
            (one_round (s, f))
          × AgreeUpTo l (one_round (s, f)).1.log (next + length req.entries - 1)
          × Frame i h.term s (one_round (s, f)).0
      accepted =
          let (answer, log, term) = append_entries_accepts storage now ms req f low_term same in
          let (stays_valid, agree) =
            append_request_agrees h l f.log c.valid b.valid b.matching next above_leader below_end
              above_follower same in
          let m = next + length req.entries - 1 in
          let place : req.prev_log_index + length req.entries ≡ m = omega (arith, behind) in
          let up : m + 1 ≡ next + length req.entries = omega (arith, carried.0) in
          let tracks =
            on_append_response-success now majority i next matched m h.term count s b.tracks
              (omega (arith, c.room, carried.1)) in
          rw (one_round-eq next matched s f _ c.no_snapshot b.tracks reported) (
            record {
              tracks = rw up at tracks;
              low = omega (arith, term, term-append next);
              valid = rw log stays_valid;
              matching = rw log (
                  append_request-LogMatching h l f.log c.valid b.valid b.matching next above_leader
                    below_end above_follower same);
              whole =
                  ap (λ g. g.snapshot_last_index) log
                  ∙ snapshot-store_entries req.entries f.log
                  ∙ b.whole;
            },
            rw (log, ← place) agree,
            frame next matched s _ b.tracks refl,
          )

    -- In front of the first entry everybody agrees.
    not_first : match_entry f.log req.prev_log_index req.prev_log_term ≡ false → 1 < next
    unfolding match_entry
    not_first other = ground (arith, behind)

    -- A refused request moves the next index back, and the follower keeps its log.
    pub refused :
        match_entry f.log req.prev_log_index req.prev_log_term ≡ false
        → (1 < next)
          × Between i h l (next - 1) matched (one_round (s, f))
          × Frame i h.term s (one_round (s, f)).0
    refused other =
        let (answer, log, term) = append_entries_refuses storage now ms req f low_term other in
        let later : 1 < next = not_first other in
        let told : (append_entries storage now ms req f).1
            ≡ record { term = h.term; success = false; match_index = last_index f.log } =
          answer
          ∙ ap (λ t. record { term = t; success = false; match_index = last_index f.log })
              (term-append next) in
        let kept : Between i h l (next - 1) matched (one_round (s, f)) =
          rw (one_round-eq next matched s f _ c.no_snapshot b.tracks told) (record {
            tracks =
                on_append_response-failure now majority i next matched (last_index f.log) h.term
                  count s b.tracks later;
            low = omega (arith, term, term-append next);
            valid = rw log b.valid;
            matching = rw log b.matching;
            whole = ap (λ g. g.snapshot_last_index) log ∙ b.whole;
          }) in
        let left : Frame i h.term s (one_round (s, f)).0 =
          rw (one_round-eq next matched s f _ c.no_snapshot b.tracks told)
            (frame next matched s _ b.tracks refl) in
        (later, kept, left)
