-- ===== src/Raft/Pending.antt =====
-- server-rust/src/raft/pending.rs: the requests that wait for a commit. A `Notify` is a number, its
-- identity; `Notify::new()` is given as the next unused one.
pub mod Waiting
use macro_service.Prelude.{ℕ, not, List, [], ◌∷◌, map, leb, ◌==◌, retain}

-- The `HashMap<u64, Arc<Notify>>`, with one entry for an index.
pub record PendingRequests : Type 0 where
  pub requests : List (ℕ × ℕ)

-- `PendingRequests::new`
abbrev pub new_pending : PendingRequests
new_pending = record { requests = [] }

-- An insert replaces the notify that was there, which nobody will then wake.
unfoldable pub register : ℕ → ℕ → PendingRequests → PendingRequests
unfolding retain
register log_index notify p = record p {
  requests = (log_index, notify) ∷ retain (λ r. not (r.0 == log_index)) p.requests;
}

-- The requests that are left, and the notifies that are woken.
unfoldable pub notify_committed : ℕ → PendingRequests → PendingRequests × List ℕ
unfolding retain
notify_committed commit_index p = (
  record p { requests = retain (λ r. not (leb r.0 commit_index)) p.requests },
  map (λ r. r.1) (retain (λ r. leb r.0 commit_index) p.requests),
)
