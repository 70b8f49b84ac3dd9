-- ===== src/Raft/Replication/Heard.antt =====
-- replication.rs: what the answers to a heartbeat do to the term and the vote.
use macro_service.Prelude.{ℕ, Option, none, some, ltb, inl, inr, arith, Bool-cases, Option-cases}
use macro_service.Raft.Messages.{AppendEntriesResponse, InstallSnapshotResponse}
use macro_service.Raft.State.{RaftState, LeaderState}
use macro_service.Raft.State.Advances.{Advances, Advances-refl}
use macro_service.Raft.Replication.{
  on_append_response, on_snapshot_response, with_success, with_leader_state,
}

-- Where the task comes to its end, the term and the vote have moved on.
abbrev pub MovesOn : RaftState → Option (RaftState × ℕ) → Type 0
MovesOn s none = Unit
MovesOn s (some (t, count)) = Advances s.persistent t.persistent

with_success-MovesOn : (s : RaftState) (o : Option (LeaderState × ℕ)) → MovesOn s (with_success s o)
with_success-MovesOn s none = tt
with_success-MovesOn s (some (ls, count)) = Advances-refl s.persistent

with_leader_state-MovesOn :
    (s : RaftState) (count : ℕ) (o : Option LeaderState) → MovesOn s (with_leader_state s count o)
with_leader_state-MovesOn s count none = tt
with_leader_state-MovesOn s count (some ls) = Advances-refl s.persistent

pub on_append_response-MovesOn :
    (now majority peer_idx : ℕ) (r : AppendEntriesResponse) (s : RaftState) (count : ℕ)
    → MovesOn s (on_append_response now majority peer_idx r s count)
unfolding on_append_response
on_append_response-MovesOn now majority peer_idx r s count =
    elim (Bool-cases (ltb s.persistent.current_term r.term)) [
      | inl newer ↦ rw newer (inl (ground arith))
      | inr heard ↦ elim (Option-cases s.leader_state) [
        | inl off ↦ rw (heard, off) (Advances-refl s.persistent)
        | inr (ls, on) ↦ elim (Bool-cases r.success) [
          | inl good ↦ rw (heard, on, good) (with_success-MovesOn s _)
          | inr bad ↦ rw (heard, on, bad) (with_leader_state-MovesOn s count _)
        ]
      ]
    ]

pub on_snapshot_response-MovesOn :
    (now majority peer_idx index : ℕ) (r : InstallSnapshotResponse) (s : RaftState) (count : ℕ)
    → MovesOn s (on_snapshot_response now majority peer_idx index r s count)
unfolding on_snapshot_response
on_snapshot_response-MovesOn now majority peer_idx index r s count =
    elim (Bool-cases (ltb s.persistent.current_term r.term)) [
      | inl newer ↦ rw newer (inl (ground arith))
      | inr heard ↦ elim (Option-cases s.leader_state) [
        | inl off ↦ rw (heard, off) (Advances-refl s.persistent)
        | inr (ls, on) ↦ rw (heard, on) (with_success-MovesOn s _)
      ]
    ]
