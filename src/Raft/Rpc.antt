-- ===== src/Raft/Rpc.antt =====
-- server-rust/src/raft/rpc.rs: `append_entries` and `install_snapshot`, which hold the lock of the
-- state from their first line to their last. `now` and `ms` are for the election timer.
pub mod Entries
pub mod Install
pub mod Terms
pub mod Behind
use macro_service.Prelude.{ℕ, min, max, true, false, not, some, List, [], ◌∷◌, ltb, if◌then◌else◌}
use macro_service.Raft.Log.{
  LogEntry, LogStore, last_index, append, truncate, match_entry, apply_snapshot,
}
use macro_service.Raft.State.{RaftState, is_candidate, become_follower}
use macro_service.Raft.Storage.{Storage, from_state_and_log, with_snapshot}
use macro_service.Raft.Timer.{reset}
use macro_service.Raft.Messages.{
  AppendEntriesRequest, AppendEntriesResponse, InstallSnapshotRequest, InstallSnapshotResponse,
}
use macro_service.Raft.Node.{Node}
use macro_service.Kv.Store.{KvStore, KvCodec, Outcome, restore}
use macro_service.Kv.Store

-- The two tests on the term, and the write of the known leader.
unfoldable pub follow_leader : ℕ → ℕ → RaftState → RaftState
unfolding become_follower
follow_leader term leader_id s =
    let s' =
      if ltb s.persistent.current_term term
      then become_follower term (some leader_id) s
      else if is_candidate s.role
      then become_follower term (some leader_id) s
      else s in
    record s' { leader_id = some leader_id }

-- The entries of the request are copied field by field, which gives the same records.
unfoldable pub store_entries : List LogEntry → LogStore → LogStore
unfolding append truncate
store_entries [] l = l
store_entries (e ∷ es) l = append (truncate l e.index) (e ∷ es)

unfoldable pub follow_commit : ℕ → ℕ → RaftState → RaftState
follow_commit leader_commit match_index s =
    if ltb 0 leader_commit
    then record s { volatile = record s.volatile { commit_index = min leader_commit match_index } }
    else s

unfoldable pub follow_snapshot : ℕ → RaftState → RaftState
follow_snapshot index s = record s {
  volatile = record { commit_index = max s.volatile.commit_index index; last_applied = index };
}

module _ {D : Type 0} (storage : Storage D) (now ms : ℕ) where
  -- The consistent case of `append_entries`; a failed save is only logged.
  unfoldable pub accept_entries :
      AppendEntriesRequest → RaftState → Node D → Node D × AppendEntriesResponse
  unfolding store_entries follow_commit from_state_and_log
  accept_entries req s n =
      let log = store_entries req.entries n.log in
      let match_index = last_index log in
      let state = follow_commit req.leader_commit match_index s in
      (
        record n {
          state = state;
          log = log;
          disk = (storage.save (from_state_and_log state.persistent log) n.disk).0;
        },
        record { term = req.term; success = true; match_index = match_index },
      )

  unfoldable pub append_entries : AppendEntriesRequest → Node D → Node D × AppendEntriesResponse
  unfolding accept_entries follow_leader reset
  append_entries req n =
      let n1 = record n { timer = reset now ms n.timer } in
      let current_term = n.state.persistent.current_term in
      if ltb req.term current_term
      then (n1, record { term = current_term; success = false; match_index = 0 })
      else (let s = follow_leader req.term req.leader_id n.state in
          if not (match_entry n.log req.prev_log_index req.prev_log_term)
          then (
            record n1 { state = s },
            record { term = req.term; success = false; match_index = last_index n.log },
          )
          else accept_entries req s n1)

  module _ (codec : KvCodec) where
    -- A newer snapshot, once the state machine was restored or was not.
    unfoldable pub accept_snapshot :
        InstallSnapshotRequest
        → ℕ
        → RaftState
        → Node D
        → KvStore × Outcome
        → Node D × InstallSnapshotResponse
    unfolding follow_snapshot apply_snapshot from_state_and_log with_snapshot
    accept_snapshot req current_term s n (kv, Store.failed_to_deserialize) =
        (record n { state = s }, record { term = current_term })
    accept_snapshot req current_term s n (kv, Store.ok) =
        let log = apply_snapshot n.log req.last_included_index req.last_included_term in
        let state = follow_snapshot req.last_included_index s in
        (
          record n {
            state = state;
            log = log;
            disk =
                (storage.save (with_snapshot req.content (from_state_and_log state.persistent log))
                  n.disk).0;
            kv = kv;
          },
          record { term = req.term },
        )

    unfoldable pub install_snapshot :
        InstallSnapshotRequest → Node D → Node D × InstallSnapshotResponse
    unfolding accept_snapshot follow_leader reset restore
    install_snapshot req n =
        let n1 = record n { timer = reset now ms n.timer } in
        let current_term = n.state.persistent.current_term in
        if ltb req.term current_term
        then (n1, record { term = current_term })
        else (let s = follow_leader req.term req.leader_id n.state in
            if ltb n.log.snapshot_last_index req.last_included_index
            then accept_snapshot req current_term s n1 (restore codec req.content n.kv)
            else (record n1 { state = s }, record { term = req.term }))
