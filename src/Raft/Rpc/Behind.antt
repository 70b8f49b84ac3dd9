-- ===== src/Raft/Rpc/Behind.antt =====
-- rpc.rs: a request from the beginning of the log at a node that has a snapshot.
use macro_service.Prelude.{
  ℕ, ◌+◌, ◌<◌, ◌≤◌, ◌≡◌, refl, true, some, List, ◌∷◌, arith, le→ltb, ap, ◌∙◌,
}
use macro_service.Raft.Log.{LogEntry, LogStore, get, match_entry, truncate, append}
use macro_service.Raft.Log.View.{get-eq}
use macro_service.Raft.Log.Valid.{IsValid}
use macro_service.Raft.Storage.{Storage}
use macro_service.Raft.Messages.{AppendEntriesRequest}
use macro_service.Raft.Node.{Node}
use macro_service.Raft.Rpc.{append_entries, store_entries}

match_entry-zero : (l : LogStore) (t : ℕ) → match_entry l 0 t ≡ true
unfolding match_entry
match_entry-zero l t = refl

store_entries-behind :
    (e : LogEntry) (es : List LogEntry) (l : LogStore)
    → e.index ≤ l.snapshot_last_index
    → store_entries (e ∷ es) l ≡ record l { entries = e ∷ es }
unfolding store_entries truncate append
store_entries-behind e es l h = ground arith

module _ {D : Type 0} (storage : Storage D) (now ms : ℕ) where
  append_entries-zero :
      (req : AppendEntriesRequest) (n : Node D)
      → n.state.persistent.current_term ≤ req.term
      → req.prev_log_index ≡ 0
      → ((append_entries storage now ms req n).1.success ≡ true)
        × ((append_entries storage now ms req n).0.log ≡ store_entries req.entries n.log)
  unfolding append_entries
  append_entries-zero req n current first =
      rw
        (
          le→ltb req.term n.state.persistent.current_term current,
          first,
          match_entry-zero n.log req.prev_log_term,
        )
        (refl, refl)

  -- A node that has a snapshot accepts a request, not behind its term, that begins with the entry 1 (its
  -- prev_log_index is 0, which passes every check): it answers with a success, drops all its entries
  -- and has only those of the request, the entry 1 in the place of the one behind its snapshot, which
  -- it keeps; its log is not valid any more.
  pub append_entries-behind :
      (req : AppendEntriesRequest) (n : Node D) (e : LogEntry) (es : List LogEntry)
      → n.state.persistent.current_term ≤ req.term
      → req.prev_log_index ≡ 0
      → req.entries ≡ e ∷ es
      → e.index ≡ 1
      → 0 < n.log.snapshot_last_index
      → let (n', r) = append_entries storage now ms req n in
        (r.success ≡ true)
        × (n'.log.entries ≡ e ∷ es)
        × (n'.log.snapshot_last_index ≡ n.log.snapshot_last_index)
        × (get n'.log (n.log.snapshot_last_index + 1) ≡ some e)
        × ¬ (IsValid n'.log)
  append_entries-behind req n e es current first sent one compacted =
      let (won, log) = append_entries-zero req n current first in
      let kept =
        log
        ∙ (ap (λ xs. store_entries xs n.log) sent
            ∙ store_entries-behind e es n.log (omega arith)) in
      rw kept (
        won,
        refl,
        refl,
        ground (arith, get-eq (record n.log { entries = e ∷ es }) (n.log.snapshot_last_index + 1)),
        λ v. omega (arith, v.contiguous.0),
      )
