-- ===== src/Raft/Replication/Request.antt =====
-- replication.rs: the entries that `send_heartbeat` puts into a request.
use macro_service.Prelude.{
  ℕ, suc, ◌+◌, ◌-◌, ◌≤◌, ◌<◌, ◌≡◌, none, arith, ltb, if◌then◌else◌, length, get_elem?, lt→leb,
  length-take, length-drop, get_elem?-take, min,
}
use macro_service.Raft.Log.{LogStore, last_index, get, entries_from}
use macro_service.Raft.Log.Valid.{
  IsContiguous, IsValid, last_index-eq, IsContiguous-take, IsContiguous-drop,
}
use macro_service.Raft.Log.View.{entries_from-eq, get-entries_from}
use macro_service.Raft.Replication.{Heartbeat, append_request, term_at, entry_term}

module _ (h : Heartbeat) (l : LogStore) (v : IsValid l) (next : ℕ)
    (low : l.snapshot_last_index < next) (high : next ≤ last_index l + 1) where
  pub entries_from-IsContiguous : IsContiguous next (entries_from l next)
  entries_from-IsContiguous =
      rw (entries_from-eq l next, lt→leb next l.snapshot_last_index low)
        (IsContiguous-drop (suc l.snapshot_last_index) next (next - l.snapshot_last_index - 1)
          l.entries (omega arith) v.contiguous)

  pub length-entries_from : next + length (entries_from l next) ≡ last_index l + 1
  length-entries_from =
      rw (entries_from-eq l next, lt→leb next l.snapshot_last_index low)
        (omega (arith, last_index-eq l v, length-drop (next - l.snapshot_last_index - 1) l.entries))

  pub prev-append_request : (append_request h l next).prev_log_index + 1 ≡ next
  unfolding append_request
  prev-append_request = ground arith

  -- The entries of a request are numbered from `next` on.
  pub append_request-IsContiguous : IsContiguous next (append_request h l next).entries
  unfolding append_request
  append_request-IsContiguous =
      IsContiguous-take next h.max_entries (entries_from l next) entries_from-IsContiguous

  -- They are the leader's entries from `next` on, as many as the limit allows.
  pub get_elem?-append_request :
      (j : ℕ)
      → get_elem? (append_request h l next).entries j
        ≡ (if ltb j h.max_entries then get l (next + j) else none)
  unfolding append_request
  get_elem?-append_request j = rw (
    get_elem?-take h.max_entries (entries_from l next) j,
    get-entries_from l next j,
    lt→leb next l.snapshot_last_index low,
  )

  pub length-append_request :
      length (append_request h l next).entries ≡ min h.max_entries (last_index l + 1 - next)
  unfolding append_request
  length-append_request =
      omega (arith, length-take h.max_entries (entries_from l next), length-entries_from)

  pub term-append_request :
      1 < next
      → (append_request h l next).prev_log_term
        ≡ entry_term (get l (append_request h l next).prev_log_index)
  unfolding append_request term_at
  term-append_request one = ground arith
