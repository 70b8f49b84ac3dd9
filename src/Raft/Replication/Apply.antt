-- ===== src/Raft/Replication/Apply.antt =====
-- replication.rs: `apply_committed_entries`.
use macro_service.Prelude.{
  ℕ, zero, suc, ◌+◌, ◌-◌, Option, none, some, List, [], add64, leb, if◌then◌else◌, is_empty,
}
use macro_service.Raft.Log.{LogEntry, LogStore, get}
use macro_service.Raft.Node.{Node, Meanwhile}
use macro_service.Raft.Pending.{PendingRequests, notify_committed}
use macro_service.Kv.Store.{KvStore, KvCodec, apply_command}

module _ (codec : KvCodec) where
  -- A missing entry and an empty command are passed over; an error is only logged.
  unfoldable pub apply_entry : Option LogEntry → KvStore → KvStore
  unfolding apply_command
  apply_entry none kv = kv
  apply_entry (some e) kv = if is_empty e.command then kv else (apply_command codec e.command kv).0

  -- The loop over the `k` indices from `i` on.
  unfoldable pub apply_range : LogStore → ℕ → ℕ → KvStore → KvStore
  unfolding apply_entry get
  apply_range log i zero kv = kv
  apply_range log i (suc k) kv = apply_range log (i + 1) k (apply_entry (get log i) kv)

  module _ {D : Type 0} where
    abbrev pub set_applied : ℕ → Node D → Node D
    set_applied index n = record n {
      state = record n.state { volatile = record n.state.volatile { last_applied = index } };
    }

    -- `relock` runs between the reads and the log's lock; the log stays locked through the loop and
    -- the write of `last_applied`, and `relock'` is what runs while the state's lock is waited for.
    -- `pending` are the requests that wait as they are locked, after all that. With the node come those
    -- that still wait, and the notifies that were woken.
    unfoldable pub apply_committed_entries :
        Meanwhile D → Meanwhile D → Node D → PendingRequests → Node D × PendingRequests × List ℕ
    unfolding apply_range notify_committed
    apply_committed_entries relock relock' n pending =
        let commit_index = n.state.volatile.commit_index in
        let last_applied = n.state.volatile.last_applied in
        if leb commit_index last_applied
        then (n, pending, [])
        else (let m = relock n in
            let start = add64 last_applied 1 in
            let kv = apply_range m.log start (commit_index + 1 - start) m.kv in
            let (waiting, woken) = notify_committed commit_index pending in
            (set_applied commit_index (relock' (record m { kv = kv })), waiting, woken))
