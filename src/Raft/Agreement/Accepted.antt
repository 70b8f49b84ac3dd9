-- ===== src/Raft/Agreement/Accepted.antt =====
-- replication.rs and rpc.rs together: what a follower's success tells the leader.
use macro_service.Prelude.{ℕ, ◌+◌, ◌≤◌, ◌<◌, ◌≡◌, ◌∙◌, true, [], arith, length, ap, ◌≢◌}
use macro_service.Raft.Log.{LogStore, last_index, match_entry}
use macro_service.Raft.Log.Valid.{IsValid}
use macro_service.Raft.Rpc.{store_entries, append_entries}
use macro_service.Raft.Replication.{Heartbeat, append_request}
use macro_service.Raft.Node.{Node}
use macro_service.Raft.Storage.{Storage}
use macro_service.Raft.Messages.{AppendEntriesRequest}
use macro_service.Raft.Agreement.{
  AgreeUpTo, LogMatching, append_request_agrees, append_request-LogMatching,
  last_index-append_request,
}

module _ {D : Type 0} (storage : Storage D) (now ms : ℕ) where
  -- What a positive response says of the node that gives it.
  pub append_entries-success :
      (req : AppendEntriesRequest) (n : Node D)
      → (append_entries storage now ms req n).1.success ≡ true
      → (match_entry n.log req.prev_log_index req.prev_log_term ≡ true)
        × ((append_entries storage now ms req n).0.log ≡ store_entries req.entries n.log)
        × ((append_entries storage now ms req n).1.match_index
            ≡ last_index (append_entries storage now ms req n).0.log)
  unfolding append_entries
  append_entries-success req n h = (ground arith, ground arith, ground arith)

  -- A leader with a valid log asks a follower from the index `next` on. If the logs of the two have
  -- the Log Matching property, `next` lies above both snapshots, and the follower answers with a
  -- success, then its log is valid, agrees with the leader's log up to the last entry of the request,
  -- and has the Log Matching property with it.
  pub append_entries_agrees :
      (h : Heartbeat) (l : LogStore) (next : ℕ) (n : Node D)
      → IsValid l
      → IsValid n.log
      → LogMatching l n.log
      → l.snapshot_last_index < next
      → next ≤ last_index l + 1
      → n.log.snapshot_last_index < next
      → (append_entries storage now ms (append_request h l next) n).1.success ≡ true
      → let req = append_request h l next in
        let n' = (append_entries storage now ms req n).0 in
        IsValid n'.log
        × AgreeUpTo l n'.log (req.prev_log_index + length req.entries)
        × LogMatching l n'.log
  append_entries_agrees h l next n vl vf m low high above won =
      let (ok, log, reported) = append_entries-success (append_request h l next) n won in
      let (valid, agree) = append_request_agrees h l n.log vl vf m next low high above ok in
      rw log (valid, agree, append_request-LogMatching h l n.log vl vf m next low high above ok)

  -- A leader with a valid log sends entries, from the index `next` on, to a follower with a valid
  -- log. If the logs of the two have the Log Matching property, `next` lies above both snapshots, and
  -- the follower answers with a success, then the reported match index is the one of the last entry
  -- of the request, and the logs agree up to it.
  pub append_entries_reports :
      (h : Heartbeat) (l : LogStore) (next : ℕ) (n : Node D)
      → IsValid l
      → IsValid n.log
      → LogMatching l n.log
      → l.snapshot_last_index < next
      → next ≤ last_index l + 1
      → n.log.snapshot_last_index < next
      → (append_request h l next).entries ≢ []
      → (append_entries storage now ms (append_request h l next) n).1.success ≡ true
      → let req = append_request h l next in
        let (n', r) = append_entries storage now ms req n in
        (r.match_index ≡ req.prev_log_index + length req.entries) × AgreeUpTo l n'.log r.match_index
  append_entries_reports h l next n vl vf m low high above ne won =
      let (ok, log, reported) = append_entries-success (append_request h l next) n won in
      let (valid, agree, matching) = append_entries_agrees h l next n vl vf m low high above won in
      let last =
        reported
        ∙ (ap last_index log
            ∙ last_index-append_request h l n.log vl vf m next low high above ok ne) in
      (last, rw last agree)
