-- ===== src/Raft/Replication.antt =====
-- server-rust/src/raft/replication.rs: what a leader sends, what it does with the answers, and how a
-- node commits, applies and snapshots. An index out of bounds panics, which is `none` or `panics`.
pub mod Commit
pub mod Apply
pub mod Snapshot
pub mod Request
pub mod CommitRule
pub mod CommitPanic
pub mod Answers
pub mod Heard
pub mod Compaction
pub mod ApplyOrder
use macro_service.Prelude.{
  ℕ, ◌+◌, ◌-◌, Bool, true, false, not, ◌&&◌, Option, none, some, List, [], ◌∷◌, add64, ltb, leb,
  if◌then◌else◌, length, is_empty, get_elem?, set, take, String,
}
use macro_service.Raft.Log.{LogEntry, LogStore, get, entries_from}
use macro_service.Raft.State.{RaftState, LeaderState, is_leader, become_follower, renew}
use macro_service.Raft.Storage.{PersistentData, Storage}
use macro_service.Raft.Messages.{
  AppendEntriesRequest, AppendEntriesResponse, InstallSnapshotRequest, InstallSnapshotResponse,
}
use macro_service.Raft.Node.{Node}

pub data Message : Type 0 where
  install_snapshot : InstallSnapshotRequest → Message
  append_entries : AppendEntriesRequest → Message
  nothing : Message

-- `log.get(i).map(|e| e.term).unwrap_or(0)`
abbrev pub entry_term : Option LogEntry → ℕ
entry_term none = 0
entry_term (some e) = e.term

unfoldable pub term_at : LogStore → ℕ → ℕ
unfolding get
term_at l i = entry_term (get l i)

-- What `send_heartbeat` reads before its loop.
pub record Heartbeat : Type 0 where
  pub term : ℕ
  pub leader_id : ℕ
  pub commit_index : ℕ
  pub next_indices : List ℕ
  pub snapshot_last_index : ℕ
  pub snapshot_last_term : ℕ
  pub snapshot_data : List ℕ
  pub max_entries : ℕ

-- The ordinary replication of the loop's body.
unfoldable pub append_request : Heartbeat → LogStore → ℕ → AppendEntriesRequest
unfolding entries_from term_at
append_request h log next_index =
    let prev_log_index = if ltb 1 next_index then next_index - 1 else 0 in
    record {
      term = h.term;
      leader_id = h.leader_id;
      prev_log_index = prev_log_index;
      prev_log_term = if ltb 0 prev_log_index then term_at log prev_log_index else 0;
      entries = take h.max_entries (entries_from log next_index);
      leader_commit = h.commit_index;
    }

unfoldable pub message_for : Heartbeat → LogStore → ℕ → Message
unfolding append_request
message_for h log next_index =
    if leb next_index h.snapshot_last_index && ltb 0 h.snapshot_last_index
    then if is_empty h.snapshot_data
      then nothing
      else install_snapshot (record {
        term = h.term;
        leader_id = h.leader_id;
        last_included_index = h.snapshot_last_index;
        last_included_term = h.snapshot_last_term;
        content = h.snapshot_data;
      })
    else append_entries (append_request h log next_index)

abbrev pub Peers : Type 0
Peers = List (ℕ × String)

-- The loop over the peers from the `i`-th on; `logs j` is the log when the turn of peer `j` comes.
-- With the messages comes whether the loop ended without a panic.
unfoldable pub messages : Heartbeat → (ℕ → LogStore) → Peers → ℕ → List Message × Bool
unfolding message_for
messages h logs [] i = ([], true)
messages h logs (peer ∷ peers) i =
    let (rest, completed) = messages h logs peers (i + 1) in
    elim (get_elem? h.next_indices (i + 1)) [
      | none ↦ ([], false)
      | some next_index ↦ (message_for h (logs i) next_index ∷ rest, completed)
    ]

-- `snap_data`: what the storage holds, where there is a snapshot.
abbrev pub stored_snapshot : Option (Option PersistentData) → List ℕ
stored_snapshot (some (some d)) = elim d.snapshot_data [ some bytes ↦ bytes | none ↦ [] ]
stored_snapshot _ = []

unfoldable pub heartbeat_of : {D : Type 0} → Storage D → ℕ → List ℕ → Node D → Heartbeat
heartbeat_of storage max_entries next_indices n = record {
  term = n.state.persistent.current_term;
  leader_id = n.state.node_id;
  commit_index = n.state.volatile.commit_index;
  next_indices = next_indices;
  snapshot_last_index = n.log.snapshot_last_index;
  snapshot_last_term = n.log.snapshot_last_term;
  snapshot_data =
      if ltb 0 n.log.snapshot_last_index then stored_snapshot (storage.load n.disk) else [];
  max_entries = max_entries;
}

-- `logs` is as in `messages`, and the state, the log and the disk are read with no task in between.
unfoldable pub send_heartbeat :
    {D : Type 0} → Storage D → ℕ → Peers → (ℕ → LogStore) → Node D → List Message × Bool
unfolding messages heartbeat_of
send_heartbeat storage max_entries peers logs n =
    if not (is_leader n.state.role) then ([], true) else elim n.state.leader_state [
      | none ↦ ([], true)
      | some ls ↦ messages (heartbeat_of storage max_entries ls.next_index n) logs peers 0
    ]

-- `v[i] = x`
unfoldable pub write_at : List ℕ → ℕ → ℕ → Option (List ℕ)
write_at xs i x = if ltb i (length xs) then some (set xs i x) else none

-- A success: both indices of the peer, the count, and the lease at a majority.
unfoldable pub record_success : ℕ → ℕ → ℕ → ℕ → ℕ → ℕ → LeaderState → Option (LeaderState × ℕ)
unfolding write_at renew
record_success now majority peer_idx match_index next_index count ls =
    elim (write_at ls.match_index peer_idx match_index) [
      | none ↦ none
      | some matches ↦ elim (write_at ls.next_index peer_idx next_index) [
        | none ↦ none
        | some nexts ↦ some (
          record {
            next_index = nexts;
            match_index = matches;
            lease = if leb majority (count + 1) then renew now ls.lease else ls.lease;
          },
          count + 1,
        )
      ]
    ]

-- A failure: one index back, but not below 1.
unfoldable pub record_failure : ℕ → LeaderState → Option LeaderState
record_failure peer_idx ls = elim (get_elem? ls.next_index peer_idx) [
  | none ↦ none
  | some next ↦
      some (
        if ltb 1 next then record ls { next_index = set ls.next_index peer_idx (next - 1) } else ls)
]

abbrev with_leader_state : RaftState → ℕ → Option LeaderState → Option (RaftState × ℕ)
with_leader_state s count none = none
with_leader_state s count (some ls) = some (record s { leader_state = some ls }, count)

abbrev with_success : RaftState → Option (LeaderState × ℕ) → Option (RaftState × ℕ)
with_success s none = none
with_success s (some (ls, count)) = some (record s { leader_state = some ls }, count)

-- The spawned task of an AppendEntries call that came back; `count` is `heartbeat_success_count`.
unfoldable pub on_append_response :
    ℕ → ℕ → ℕ → AppendEntriesResponse → RaftState → ℕ → Option (RaftState × ℕ)
unfolding become_follower record_success record_failure
on_append_response now majority peer_idx r s count =
    if ltb s.persistent.current_term r.term
    then some (become_follower r.term none s, count)
    else elim s.leader_state [
      | none ↦ some (s, count)
      | some ls ↦
          if r.success
          then with_success s
              (record_success now majority peer_idx r.match_index (add64 r.match_index 1) count ls)
          else with_leader_state s count (record_failure peer_idx ls)
    ]

-- The same for an InstallSnapshot call; `index` is the boundary of the snapshot that was sent.
unfoldable pub on_snapshot_response :
    ℕ → ℕ → ℕ → ℕ → InstallSnapshotResponse → RaftState → ℕ → Option (RaftState × ℕ)
unfolding become_follower record_success
on_snapshot_response now majority peer_idx index r s count =
    if ltb s.persistent.current_term r.term
    then some (become_follower r.term none s, count)
    else elim s.leader_state [
      | none ↦ some (s, count)
      | some ls ↦
          with_success s (record_success now majority peer_idx index (add64 index 1) count ls)
    ]
