-- ===== src/Raft/Agreement/Answered.antt =====
-- replication.rs and rpc.rs together: the two answers of a follower, and what the leader makes of them.
use macro_service.Prelude.{
  inl, inr, sym, ap, ◌∙◌, ◌≢◌, Bool-cases, le-or-lt, get_elem?-set_ne, ℕ, ◌+◌, ◌-◌, ◌≤◌, ◌<◌, ◌≡◌,
  refl, true, false, some, arith, u64_mod, add64, length, get_elem?, get_elem?-set_self, lt→ltb,
  le→ltb, lt-length_of_some,
}
use macro_service.Raft.Log.{last_index, match_entry}
use macro_service.Raft.State.{RaftState, LeaderState, become_follower}
use macro_service.Raft.Storage.{Storage}
use macro_service.Raft.Messages.{AppendEntriesResponse, AppendEntriesRequest}
use macro_service.Raft.Node.{Node}
use macro_service.Raft.Rpc.{store_entries, append_entries, follow_leader, follow_commit}
use macro_service.Raft.Replication.{on_append_response, record_success, record_failure, write_at}
use macro_service.Raft.Agreement.Exchange.{after}

-- What the leader knows of the peer `i`.
pub record Tracks (i next matched : ℕ) (term : ℕ) (s : RaftState) : Type 0 where
  pub leads : LeaderState
  pub here : s.leader_state ≡ some leads
  pub in_term : s.persistent.current_term ≡ term
  pub next_index : get_elem? leads.next_index i ≡ some next
  pub match_index : get_elem? leads.match_index i ≡ some matched

-- A success moves both indices of the peer.
pub on_append_response-success :
    (now majority i next matched m term count : ℕ) (s : RaftState)
    → Tracks i next matched term s
    → m + 1 < u64_mod
    → Tracks i (m + 1) m term (
        after s (
          on_append_response now majority i
            (record { term = term; success = true; match_index = m })
            s
            count))
unfolding on_append_response record_success write_at
on_append_response-success now majority i next matched m term count s t room =
    let ls = t.leads in
    let in_match = lt-length_of_some ls.match_index i {x = matched} t.match_index in
    let in_next = lt-length_of_some ls.next_index i {x = next} t.next_index in
    let one_more : add64 m 1 ≡ m + 1 = omega arith in
    rw
      (
        le→ltb s.persistent.current_term term (omega (arith, t.in_term)),
        t.here,
        record_success,
        write_at,
        lt→ltb i (length ls.match_index) in_match,
        lt→ltb i (length ls.next_index) in_next,
        one_more,
      )
      (record {
        leads = _;
        here = refl;
        in_term = t.in_term;
        next_index = get_elem?-set_self ls.next_index i (m + 1) in_next;
        match_index = get_elem?-set_self ls.match_index i m in_match;
      })

pub on_append_response-failure :
    (now majority i next matched m term count : ℕ) (s : RaftState)
    → Tracks i next matched term s
    → 1 < next
    → Tracks i (next - 1) matched term (
        after s (
          on_append_response now majority i
            (record { term = term; success = false; match_index = m })
            s
            count))
unfolding on_append_response record_failure
on_append_response-failure now majority i next matched m term count s t later =
    let ls = t.leads in
    let in_next = lt-length_of_some ls.next_index i {x = next} t.next_index in
    rw
      (
        le→ltb s.persistent.current_term term (omega (arith, t.in_term)),
        t.here,
        record_failure,
        t.next_index,
        lt→ltb 1 next later,
      )
      (record {
        leads = _;
        here = refl;
        in_term = t.in_term;
        next_index = get_elem?-set_self ls.next_index i (next - 1) in_next;
        match_index = t.match_index;
      })

-- An answer of the leader's term moves the indices of the peer that gave it, and no others.
pub on_append_response-other :
    (now majority i next matched term count : ℕ) (r : AppendEntriesResponse) (s : RaftState)
    → Tracks i next matched term s
    → r.term ≡ term
    → (j n m : ℕ) → i ≢ j
    → Tracks j n m term s
    → Tracks j n m term (after s (on_append_response now majority i r s count))
unfolding on_append_response record_success record_failure write_at
on_append_response-other now majority i next matched term count r s t same j n m other u =
    let ls = t.leads in
    let in_match = lt-length_of_some ls.match_index i {x = matched} t.match_index in
    let in_next = lt-length_of_some ls.next_index i {x = next} t.next_index in
    let both : some u.leads ≡ some ls = sym u.here ∙ t.here in
    let one : u.leads ≡ ls = cc in
    let n_here : get_elem? ls.next_index j ≡ some n =
      ap (λ k. get_elem? k.next_index j) (sym one) ∙ u.next_index in
    let m_here : get_elem? ls.match_index j ≡ some m =
      ap (λ k. get_elem? k.match_index j) (sym one) ∙ u.match_index in
    let known = le→ltb s.persistent.current_term r.term (omega (arith, t.in_term)) in
    elim (Bool-cases r.success) [
      | inl won ↦
          rw
            (
              known,
              t.here,
              won,
              record_success,
              write_at,
              lt→ltb i (length ls.match_index) in_match,
              lt→ltb i (length ls.next_index) in_next,
            )
            (record {
              leads = _;
              here = refl;
              in_term = t.in_term;
              next_index = get_elem?-set_ne ls.next_index _ other ∙ n_here;
              match_index = get_elem?-set_ne ls.match_index _ other ∙ m_here;
            })
      | inr lost ↦ elim (le-or-lt next 1) [
        | inl first ↦
            rw (known, t.here, lost, record_failure, t.next_index, le→ltb 1 next first)
              (record {
                leads = _;
                here = refl;
                in_term = t.in_term;
                next_index = n_here;
                match_index = m_here;
              })
        | inr later ↦
            rw (known, t.here, lost, record_failure, t.next_index, lt→ltb 1 next later)
              (record {
                leads = _;
                here = refl;
                in_term = t.in_term;
                next_index = get_elem?-set_ne ls.next_index _ other ∙ n_here;
                match_index = m_here;
              })
      ]
    ]

-- The rest of the state that the leader works with stays.
pub record Keeps (s s' : RaftState) : Type 0 where
  pub role : s'.role ≡ s.role
  pub persistent : s'.persistent ≡ s.persistent
  pub volatile : s'.volatile ≡ s.volatile

pub on_append_response-Keeps :
    (now majority i next matched term count : ℕ) (r : AppendEntriesResponse) (s : RaftState)
    → Tracks i next matched term s
    → r.term ≡ term
    → Keeps s (after s (on_append_response now majority i r s count))
unfolding on_append_response record_success record_failure write_at
on_append_response-Keeps now majority i next matched term count r s t same = record {
  role = ground (arith, t.here, t.in_term);
  persistent = ground (arith, t.here, t.in_term);
  volatile = ground (arith, t.here, t.in_term);
}

follow_commit_term :
    (leader_commit m : ℕ) (s : RaftState)
    → (follow_commit leader_commit m s).persistent.current_term ≡ s.persistent.current_term
unfolding follow_commit
follow_commit_term leader_commit m s = ground arith

module _ {D : Type 0} (storage : Storage D) (now ms : ℕ) (req : AppendEntriesRequest) (f : Node D)
    (current : f.state.persistent.current_term ≤ req.term) where
  follow_leader_term :
      (follow_leader req.term req.leader_id f.state).persistent.current_term ≤ req.term
  unfolding follow_leader become_follower
  follow_leader_term = ground arith

  pub append_entries_accepts :
      match_entry f.log req.prev_log_index req.prev_log_term ≡ true
      → let (f', r) = append_entries storage now ms req f in
        (r ≡ record { term = req.term; success = true; match_index = last_index f'.log })
        × (f'.log ≡ store_entries req.entries f.log)
        × (f'.state.persistent.current_term ≤ req.term)
  unfolding append_entries follow_commit
  append_entries_accepts same =
      rw (le→ltb _ _ current, same)
        (
          refl,
          refl,
          omega (
            arith,
            follow_leader_term,
            follow_commit_term _ _ (follow_leader req.term req.leader_id f.state),
          ),
        )

  pub append_entries_refuses :
      match_entry f.log req.prev_log_index req.prev_log_term ≡ false
      → let (f', r) = append_entries storage now ms req f in
        (r ≡ record { term = req.term; success = false; match_index = last_index f.log })
        × (f'.log ≡ f.log)
        × (f'.state.persistent.current_term ≤ req.term)
  unfolding append_entries
  append_entries_refuses other = rw (le→ltb _ _ current, other) (refl, refl, follow_leader_term)
