-- ===== src/Cluster/Replicas/History.antt =====
-- The log of the leader of each term, as far as it has come, and the logs that follow these.
use macro_service.Prelude.{
  ℕ, ◌+◌, ◌-◌, ◌≤◌, ◌<◌, ◌≡◌, refl, sym, ap, ◌∙◌, true, some, none, List, [], ◌∷◌, arith, length,
  le-or-lt, inl, inr, lt→leb, length-take, length-drop,
}
use macro_service.Raft.Log
use macro_service.Raft.Log.{
  LogEntry, LogStore, last_index, get, append, append_one, match_entry, entries_from,
}
use macro_service.Raft.Log.Valid.{IsValid, new-IsValid, last_index-eq}
use macro_service.Raft.Log.View.{get-eq, range_of_get, entries_from-eq}
use macro_service.Raft.Rpc.{store_entries}
use macro_service.Raft.Rpc.Entries.{snapshot-store_entries, store_entries-nil}
use macro_service.Raft.Replication.{Heartbeat, append_request}
use macro_service.Raft.Agreement.{LogMatching, append_request_agrees, last_index-append_request}
use macro_service.Cluster.{has_won}

-- The log of the leader of a term.
abbrev pub History : Type 0
History = ℕ → LogStore

abbrev pub Winners : Type 0
Winners = List (ℕ × ℕ)

abbrev pub SameUpTo : LogStore → LogStore → ℕ → Type 0
SameUpTo l m i = (j : ℕ) → j ≤ i → get l j ≡ get m j

-- Each entry stands where the leader of its term has it, behind the same entries.
pub record Follows (won : Winners) (history : History) (l : LogStore) : Type 0 where
  pub snapshot : l.snapshot_last_index ≡ 0
  pub valid : IsValid l
  pub origin :
      (i : ℕ) (e : LogEntry)
      → get l i ≡ some e
      → ((c : ℕ) × (has_won won e.term c ≡ true)) × SameUpTo l (history e.term) i

-- What the leaders of the terms that were won had stays as it is.
pub record Grows (won won' : Winners) (history history' : History) : Type 0 where
  pub winners : (t c : ℕ) → has_won won t c ≡ true → has_won won' t c ≡ true
  pub kept :
      (t c i : ℕ) (e : LogEntry)
      → has_won won t c ≡ true
      → get (history t) i ≡ some e
      → SameUpTo (history t) (history' t) i

pub Grows-refl : (won : Winners) (history : History) → Grows won won history history
Grows-refl won history = record { winners = λ t c h. h; kept = λ t c i e w h j le. refl }

pub Follows-Grows :
    (won won' : Winners) (history history' : History) (l : LogStore)
    → Grows won won' history history'
    → Follows won history l
    → Follows won' history' l
Follows-Grows won won' history history' l g f = record {
  snapshot = f.snapshot;
  valid = f.valid;
  origin = λ i e h.
      let ((c, w), same) = f.origin i e h in
      let there = sym (same i (omega arith)) ∙ h in
      ((c, g.winners e.term c w), λ j le. same j le ∙ g.kept e.term c i e w there j le);
}

get-zero : (l : LogStore) → get l 0 ≡ none
get-zero l = rw (get-eq l 0) (ground arith)

pub new-Follows : (won : Winners) (history : History) → Follows won history Log.new
unfolding get
new-Follows won history = record {
  snapshot = refl;
  valid = new-IsValid;
  origin = λ i e h. absurd (ground (arith, get-eq Log.new i));
}

-- Two logs that follow the leaders have the Log Matching property.
pub Follows-SameUpTo :
    (won : Winners) (history : History) (l m : LogStore) (i : ℕ) (e e' : LogEntry)
    → Follows won history l
    → Follows won history m
    → get l i ≡ some e
    → get m i ≡ some e'
    → e.term ≡ e'.term
    → SameUpTo l m i
Follows-SameUpTo won history l m i e e' f g h k t j le =
    let one = (f.origin i e h).1 j le in
    let other = (g.origin i e' k).1 j le in one ∙ (ap (λ u. get (history u) j) t ∙ sym other)

pub Follows-LogMatching :
    (won : Winners) (history : History) (l m : LogStore)
    → Follows won history l
    → Follows won history m
    → LogMatching l m
Follows-LogMatching won history l m f g = record {
  at = λ i e e' h k t j lj mj le. sym (Follows-SameUpTo won history l m i e e' f g h k t j le);
}

-- A request that carries entries begins above 0 and not behind the leader's log.
sent_range :
    (h : Heartbeat) (l : LogStore) (next : ℕ)
    → l.snapshot_last_index ≡ 0
    → IsValid l
    → 0 < length (append_request h l next).entries
    → (0 < next) × (next ≤ last_index l + 1)
unfolding append_request
sent_range h l next z v some_sent =
    let size = length-take h.max_entries (entries_from l next) in
    let tail = ap (length {A = LogEntry}) (entries_from-eq l next) in
    let rest = length-drop (next - l.snapshot_last_index - 1) l.entries in
    elim (le-or-lt next 0) [
      | inl zero_next ↦ absurd (ground (arith, size, tail))
      | inr low ↦ (
        low,
        ground (
          arith,
          size,
          tail,
          rest,
          last_index-eq l v,
          lt→leb next l.snapshot_last_index (omega arith),
        ),
      )
    ]

module _ (won : Winners) (history : History) (h : Heartbeat) (l f : LogStore) (next : ℕ)
    (fl : Follows won history l) (ff : Follows won history f)
    (ok : match_entry f
        (append_request h l next).prev_log_index
        (append_request h l next).prev_log_term
      ≡ true) where
  stored-Follows :
      (es : List LogEntry)
      → es ≡ (append_request h l next).entries
      → Follows won history (store_entries (append_request h l next).entries f)
  stored-Follows [] e = rw (sym e, store_entries-nil f) ff
  stored-Follows (x ∷ xs) e =
      let size = ap (length {A = LogEntry}) e in
      let (low, high) = sent_range h l next fl.snapshot fl.valid (omega arith) in
      let m = Follows-LogMatching won history l f fl ff in
      let low' : l.snapshot_last_index < next = omega (arith, fl.snapshot) in
      let above : f.snapshot_last_index < next = omega (arith, ff.snapshot) in
      let (valid, agree) =
        append_request_agrees h l f fl.valid ff.valid m next low' high above ok in
      let last =
        last_index-append_request h l f fl.valid ff.valid m next low' high above ok
          (λ none_sent. omega (arith, size, ap (length {A = LogEntry}) none_sent)) in
      let base = snapshot-store_entries (append_request h l next).entries f ∙ ff.snapshot in
      let stored = store_entries (append_request h l next).entries f in
      let same : (j : ℕ) → j ≤ last_index stored → get stored j ≡ get l j = λ j le.
        elim (le-or-lt j 0) [
          | inl at_zero ↦ let z : j ≡ 0 = omega arith in rw z (get-zero stored ∙ sym (get-zero l))
          | inr positive ↦
              agree j (omega (arith, fl.snapshot)) (omega (arith, base)) (omega (arith, last))
        ] in
      record {
        snapshot = base;
        valid = valid;
        origin = λ i y here.
            let (above_zero, reach) = range_of_get stored i {e = y} valid here in
            let (who, was) = fl.origin i y (sym (same i reach) ∙ here) in
            (who, λ j le. same j (omega arith) ∙ was j le);
      }

  -- A follower that follows the leaders does so with a request of a log that did.
  pub store_entries-Follows :
      Follows won history (store_entries (append_request h l next).entries f)
  store_entries-Follows = stored-Follows _ refl
