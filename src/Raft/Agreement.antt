-- ===== src/Raft/Agreement.antt =====
-- replication.rs and rpc.rs together: a request of the leader, accepted by a follower, brings the
-- follower's log into agreement with the leader's.
pub mod Accepted
pub mod Exchange
pub mod Answered
pub mod Round
pub mod CatchUp
pub mod Everyone
pub mod Overcount
pub mod Committed
use macro_service.Prelude.{
  ℕ, suc, ◌+◌, ◌-◌, ◌≤◌, ◌<◌, ◌≡◌, refl, sym, ◌∙◌, true, none, some, List, [], ◌∷◌, arith, u64_mod,
  if◌then◌else◌, length, get_elem?, le-or-lt, inl, inr, le→leb, lt→leb, ap, lt→ltb, ◌≢◌,
}
use macro_service.Raft.Log.{LogEntry, LogStore, last_index, get, match_entry}
use macro_service.Raft.Log.Valid.{IsContiguous, IsValid, last_index-eq}
use macro_service.Raft.Log.View.{get-some, range_of_get}
use macro_service.Raft.Rpc.{store_entries, append_entries}
use macro_service.Raft.Rpc.Entries.{
  get-store_entries, store_entries-IsValid, snapshot-store_entries, store_entries-nil,
  last_index-store_entries,
}
use macro_service.Raft.Replication.{Heartbeat, append_request, entry_term}
use macro_service.Raft.Replication.Request.{
  prev-append_request, append_request-IsContiguous, get_elem?-append_request, length-append_request,
  term-append_request,
}
use macro_service.Raft.Node.{Node}
use macro_service.Raft.Storage.{Storage}
use macro_service.Raft.Messages.{AppendEntriesRequest}

-- Two logs hold the same entries up to `i`, above both their snapshots.
abbrev pub AgreeUpTo : LogStore → LogStore → ℕ → Type 0
AgreeUpTo l f i =
    (j : ℕ) → l.snapshot_last_index < j → f.snapshot_last_index < j → j ≤ i → get f j ≡ get l j

-- The Log Matching property of Raft: entries with the same index and term stand behind equal logs.
pub record LogMatching (l f : LogStore) : Type 0 where
  pub at :
      (i : ℕ) (e e' : LogEntry)
      → get l i ≡ some e
      → get f i ≡ some e'
      → e.term ≡ e'.term
      → AgreeUpTo l f i

-- What a positive consistency check says, where the index lies above the snapshot.
pub match_entry_sound :
    (f : LogStore) (i t : ℕ)
    → f.snapshot_last_index < i
    → match_entry f i t ≡ true
    → (e : LogEntry) × (get f i ≡ some e) × (e.term ≡ t)
unfolding match_entry
match_entry_sound f i t low h = ground arith

module _ (h : Heartbeat) (l f : LogStore) (vl : IsValid l) (vf : IsValid f) (m : LogMatching l f)
    (next : ℕ) (low : l.snapshot_last_index < next) (high : next ≤ last_index l + 1)
    (above : f.snapshot_last_index < next)
    (ok : match_entry f
        (append_request h l next).prev_log_index
        (append_request h l next).prev_log_term
      ≡ true) where
  abbrev prev : ℕ
  prev = (append_request h l next).prev_log_index

  behind : prev + 1 ≡ next
  behind = prev-append_request h l vl next low high

  -- The check of the previous entry makes the logs agree in front of the request.
  pub agree-before : AgreeUpTo l f prev
  agree-before j lj fj j-le =
      let (e, found) = get-some l prev vl (omega arith) (omega (arith, behind)) in
      let (e', found', same) = match_entry_sound f prev _ (omega arith) ok in
      let terms = term-append_request h l vl next low high (omega (arith, behind)) in
      m.at prev e e' found found' (sym (same ∙ terms ∙ ap entry_term found)) j lj fj j-le

  pub prev-le-last_index : prev ≤ last_index f
  prev-le-last_index = elim (le-or-lt prev f.snapshot_last_index) [
    | inl at_most ↦ omega (arith, last_index-eq f vf)
    | inr beyond ↦
        let (e', found', same) = match_entry_sound f prev _ beyond ok in
        (range_of_get f prev vf found').1
  ]

  pub sent-in_range : prev + length (append_request h l next).entries < u64_mod
  sent-in_range =
      omega
        (arith, behind, length-append_request h l vl next low high, vl.in_range, last_index-eq l vl)

  sent :
      (k : ℕ)
      → k < length (append_request h l next).entries
      → get_elem? (append_request h l next).entries k ≡ get l (next + k)
  sent k k-lt =
      get_elem?-append_request h l vl next low high k
      ∙ ap (λ b. if b then get l (next + k) else none)
          (lt→ltb k h.max_entries (omega (arith, length-append_request h l vl next low high)))

  abbrev stored : LogStore
  stored = store_entries (append_request h l next).entries f

  from_next :
      (es : List LogEntry) → es ≡ (append_request h l next).entries → IsContiguous (suc prev) es
  from_next es e =
      let numbered = append_request-IsContiguous h l vl next low high in
      let start : next ≡ suc prev = omega (arith, behind) in rw (e, ← start) numbered

  agree-store :
      (es : List LogEntry)
      → es ≡ (append_request h l next).entries
      → AgreeUpTo l (store_entries es f) (prev + length es)
  agree-store [] e j lj fj j-le =
      rw (store_entries-nil f) (agree-before j lj (rw (store_entries-nil f) at fj) (omega arith))
  agree-store (x ∷ es) e j lj fj j-le = elim (le-or-lt j prev) [
    | inl front ↦
        rw
          (
            get-store_entries prev f vf (omega (arith, behind)) prev-le-last_index x es j
                (from_next _ e),
            le→leb j prev front,
          )
          (agree-before j lj (rw (snapshot-store_entries (x ∷ es) f) at fj) front)
    | inr back ↦
        let k = j - prev - 1 in
        let place : next + k ≡ j = omega (arith, behind) in
        rw
          (
            get-store_entries prev f vf (omega (arith, behind)) prev-le-last_index x es j
                (from_next _ e),
            lt→leb j prev back,
          )
          (ap (λ xs. get_elem? xs k) e
            ∙ (sent k (omega (arith, ap (length {A = LogEntry}) e)) ∙ ap (get l) place))
  ]

  -- Accepted, the request leaves a valid log that agrees with the leader's up to its last entry.
  pub append_request_agrees :
      IsValid stored × AgreeUpTo l stored (prev + length (append_request h l next).entries)
  append_request_agrees = (
    store_entries-IsValid prev f vf (omega (arith, behind)) prev-le-last_index _ (from_next _ refl)
        sent-in_range,
    agree-store _ refl,
  )

  last_index-stored :
      (x : LogEntry) (es : List LogEntry)
      → (x ∷ es) ≡ (append_request h l next).entries
      → last_index (store_entries (x ∷ es) f) ≡ prev + length (x ∷ es)
  last_index-stored x es e =
      last_index-store_entries prev f vf (omega (arith, behind)) prev-le-last_index x es
        (from_next _ e) (omega (arith, sent-in_range, ap (length {A = LogEntry}) e))

  matching-store :
      (es : List LogEntry)
      → es ≡ (append_request h l next).entries
      → (i : ℕ) (x y : LogEntry) → get l i ≡ some x
      → get (store_entries es f) i ≡ some y
      → x.term ≡ y.term
      → AgreeUpTo l (store_entries es f) i
  matching-store [] e i x y lx fy t j lj fj j-le =
      rw (store_entries-nil f) (
        m.at i x y lx (rw (store_entries-nil f) at fy) t j lj (rw (store_entries-nil f) at fj) j-le)
  matching-store (z ∷ es) e i x y lx fy t j lj fj j-le =
      let valid =
        store_entries-IsValid prev f vf (omega (arith, behind)) prev-le-last_index (z ∷ es)
          (from_next _ e) (omega (arith, sent-in_range, ap (length {A = LogEntry}) e)) in
      let found = range_of_get (store_entries (z ∷ es) f) i valid fy in
      agree-store (z ∷ es) e j lj fj (omega (arith, found.1, last_index-stored z es e))

  -- It keeps the Log Matching property with the leader.
  pub append_request-LogMatching : LogMatching l stored
  append_request-LogMatching = record { at = matching-store _ refl }

  last_index-of :
      (es : List LogEntry)
      → es ≡ (append_request h l next).entries
      → es ≢ []
      → last_index (store_entries es f) ≡ prev + length es
  last_index-of [] e ne = absurd (ne refl)
  last_index-of (x ∷ es) e ne = last_index-stored x es e

  -- With entries in the request the log ends with the last of them.
  pub last_index-append_request :
      (append_request h l next).entries ≢ []
      → last_index stored ≡ prev + length (append_request h l next).entries
  last_index-append_request ne = last_index-of _ refl ne
