-- ===== src/Raft/Replication/Answers.antt =====
-- replication.rs: what a leader does with the answers of its peers.
use macro_service.Prelude.{
  ℕ, ◌+◌, ◌<◌, ◌≡◌, none, some, List, arith, leb, ◌-◌, if◌then◌else◌, add64, length, Bool-cases,
  Option-cases, inl, inr, le-or-lt, get_elem?-some, length-set, set,
}
use macro_service.Raft.State.{RaftState, LeaderState, become_follower, renew}
use macro_service.Raft.State.Advances.{Advances, Advances-refl, become_follower-Advances}
use macro_service.Raft.Messages.{AppendEntriesResponse}
use macro_service.Raft.Membership.Consistent.{HasIndexFor}
use macro_service.Raft.Replication.{write_at, record_success, record_failure, on_append_response}

write_at-some :
    (xs : List ℕ) (i x : ℕ)
    → i < length xs
    → (ys : List ℕ) × (write_at xs i x ≡ some ys) × (length ys ≡ length xs)
unfolding write_at
write_at-some xs i x h = (set xs i x, ground arith, length-set xs i x)

record_success-some :
    (now majority i match_index next_index count k : ℕ) (ls : LeaderState)
    → HasIndexFor k (some ls)
    → i < k
    → (ls' : LeaderState) × (c : ℕ) × (record_success now majority i match_index next_index count ls
        ≡ some (ls', c))
      × HasIndexFor k (some ls')
unfolding record_success
record_success-some now majority i match_index next_index count k ls h low =
    let (matches, written, size) = write_at-some ls.match_index i match_index (omega arith) in
    let (nexts, written', size') = write_at-some ls.next_index i next_index (omega arith) in
    (
      record {
        next_index = nexts;
        match_index = matches;
        lease = if leb majority (count + 1) then renew now ls.lease else ls.lease;
      },
      count + 1,
      ground (arith, written, written'),
      (omega arith, omega arith),
    )

record_failure-some :
    (i k : ℕ) (ls : LeaderState)
    → HasIndexFor k (some ls)
    → i < k
    → (ls' : LeaderState) × (record_failure i ls ≡ some ls') × HasIndexFor k (some ls')
unfolding record_failure
record_failure-some i k ls h low =
    let (next, found) = get_elem?-some ls.next_index i (omega arith) in
    elim (le-or-lt next 1) [
      | inl first ↦ (ls, ground (arith, found), h)
      | inr later ↦ (
        record ls { next_index = set ls.next_index i (next - 1) },
        ground (arith, found),
        (omega (arith, length-set ls.next_index i (next - 1)), h.1),
      )
    ]

-- An answer to a request for a known peer never panics: the leader state keeps an index for each
-- node, and the term and the vote are kept or go to a newer term.
pub on_append_response-some :
    (now majority i : ℕ) (r : AppendEntriesResponse) (s : RaftState) (count k : ℕ)
    → HasIndexFor k s.leader_state
    → i < k
    → (s' : RaftState) × (c : ℕ) × (on_append_response now majority i r s count ≡ some (s', c))
      × HasIndexFor k s'.leader_state
      × Advances s.persistent s'.persistent
unfolding on_append_response
on_append_response-some now majority i r s count k h low =
    elim (le-or-lt r.term s.persistent.current_term) [
      | inr newer ↦ (
        become_follower r.term none s,
        count,
        ground arith,
        unfold become_follower in h,
        become_follower-Advances r.term none s,
      )
      | inl current ↦ elim (Option-cases s.leader_state) [
        | inl off ↦ (s, count, ground arith, h, Advances-refl s.persistent)
        | inr (ls, on) ↦
            (let sizes : HasIndexFor k (some ls) = rw on at h in
              elim (Bool-cases r.success) [
                | inl won ↦
                    (let (ls', c, recorded, sizes') =
                        record_success-some now majority i r.match_index (add64 r.match_index 1)
                          count k ls sizes low in
                      (
                        record s { leader_state = some ls' },
                        c,
                        ground (arith, recorded),
                        sizes',
                        Advances-refl s.persistent,
                      ))
                | inr lost ↦
                    (let (ls', recorded, sizes') = record_failure-some i k ls sizes low in
                      (
                        record s { leader_state = some ls' },
                        count,
                        ground (arith, recorded),
                        sizes',
                        Advances-refl s.persistent,
                      ))
              ])
      ]
    ]
