-- ===== src/Kv/Service/Read.antt =====
-- service.rs: what a read waits for, and what it answers.
use macro_service.Prelude.{
  ℕ, ◌≤◌, ◌<◌, ◌≡◌, refl, ◌⊎◌, inl, inr, Bool, true, false, Option, none, some, List, [], ◌∷◌,
  arith, String, le-or-lt, Bool-cases, zero, suc,
}
use macro_service.Raft.State.{is_leader}
use macro_service.Raft.Node.{Node}
use macro_service.Kv.Store.{KvStore}
use macro_service.Kv.Service.{
  GetResponse, read_store, poll, wait_for_apply, finish_get, holds_lease, get, hint,
}

-- Some poll saw the index applied, before any that came after five seconds.
abbrev pub Reached : ℕ → List (ℕ × ℕ) → Type 0
Reached target [] = ⊥
Reached target ((last_applied, elapsed) ∷ polls) =
    (target ≤ last_applied) ⊎ ((elapsed ≤ 5000) × Reached target polls)

-- Some poll came after five seconds.
abbrev pub RanOut : List (ℕ × ℕ) → Type 0
RanOut [] = ⊥
RanOut ((last_applied, elapsed) ∷ polls) = (5000 < elapsed) ⊎ RanOut polls

poll-Reached :
    (target : ℕ) (polls : List (ℕ × ℕ)) → poll target polls ≡ some true → Reached target polls
unfolding poll
poll-Reached target [] e = cc
poll-Reached target ((a, t) ∷ polls) e = elim (le-or-lt target a) [
  | inl done ↦ inl done
  | inr short ↦ inr (ground arith, poll-Reached target polls (ground arith))
]

Reached-poll :
    (target : ℕ) (polls : List (ℕ × ℕ)) → Reached target polls → poll target polls ≡ some true
unfolding poll
Reached-poll target [] r = absurd r
Reached-poll target ((a, t) ∷ polls) (inl done) = ground arith
Reached-poll target ((a, t) ∷ polls) (inr later) = ground (arith, Reached-poll target polls later.1)

-- The wait ends once a poll comes after five seconds; it succeeds exactly if an earlier poll, or that
-- one, saw the index applied.
pub poll_total :
    (target : ℕ) (polls : List (ℕ × ℕ)) → RanOut polls → (b : Bool) × (poll target polls ≡ some b)
unfolding poll
poll_total target [] r = absurd r
poll_total target ((a, t) ∷ polls) (inl late) = elim (le-or-lt target a) [
  | inl done ↦ (true, ground arith)
  | inr short ↦ (false, ground arith)
]
poll_total target ((a, t) ∷ polls) (inr r) =
    let (b, e) = poll_total target polls r in
    elim (le-or-lt target a) [
      | inl done ↦ (true, ground arith)
      | inr short ↦ elim (le-or-lt t 5000) [
        | inl early ↦ (b, ground arith)
        | inr late ↦ (false, ground arith)
      ]
    ]

wait_cases :
    (target : ℕ) (polls : List (ℕ × ℕ)) (b : Bool)
    → wait_for_apply target polls ≡ some b
    → ((b ≡ true) × ((target ≡ 0) ⊎ Reached target polls))
      ⊎ ((b ≡ false) × (¬ Reached target polls))
unfolding wait_for_apply
wait_cases zero polls b h = inl (ground arith, inl refl)
wait_cases (suc t) polls true h = inl (refl, inr (poll-Reached (suc t) polls (ground arith)))
wait_cases (suc t) polls false h =
    inr (refl, λ r. let e = Reached-poll (suc t) polls r in ground arith)

wait_total :
    (target : ℕ) (polls : List (ℕ × ℕ))
    → RanOut polls
    → (b : Bool) × (wait_for_apply target polls ≡ some b)
unfolding wait_for_apply
wait_total zero polls out = (true, ground arith)
wait_total (suc t) polls out = let (b, e) = poll_total (suc t) polls out in (b, ground arith)

module _ {D : Type 0} (now : ℕ) (polls : List (ℕ × ℕ)) (kv : KvStore) (key : String)
    (n : Node D) where
  abbrev Answer : GetResponse → Type 0
  Answer r =
      ((r ≡ read_store key kv)
        × (is_leader n.state.role ≡ true)
        × ((holds_lease now n.state.leader_state ≡ true)
            ⊎ (n.state.volatile.commit_index ≡ 0)
            ⊎ Reached n.state.volatile.commit_index polls))
      ⊎ ((r.error ≡ "not leader") × (is_leader n.state.role ≡ false))
      ⊎ ((r.error ≡ "timeout waiting for apply") × (¬ Reached n.state.volatile.commit_index polls))

  waited :
      (r : GetResponse) (w : Option Bool)
      → is_leader n.state.role ≡ true
      → wait_for_apply n.state.volatile.commit_index polls ≡ w
      → finish_get key kv w ≡ some r
      → Answer r
  unfolding finish_get
  waited r none leads e h = cc
  waited r (some true) leads e h = elim (wait_cases n.state.volatile.commit_index polls true e) [
    | inl done ↦ inl (ground arith, leads, inr done.1)
    | inr short ↦ absurd (cc (short.0))
  ]
  waited r (some false) leads e h = elim (wait_cases n.state.volatile.commit_index polls false e) [
    | inl done ↦ absurd (cc (done.0))
    | inr short ↦ inr (inr (ground arith, short.1))
  ]

  -- A node with Raft reads its store only as a leader, and only with a valid lease, or with nothing
  -- committed, or after the state machine was seen to have applied the commit index that stood when
  -- the read came; any other answer has an error.
  pub get_reads :
      (r : GetResponse)
      → get true now polls kv key n ≡ some r
      → ((r ≡ read_store key kv)
          × (is_leader n.state.role ≡ true)
          × ((holds_lease now n.state.leader_state ≡ true)
              ⊎ (n.state.volatile.commit_index ≡ 0)
              ⊎ Reached n.state.volatile.commit_index polls))
        ⊎ ((r.error ≡ "not leader") × (is_leader n.state.role ≡ false))
        ⊎ ((r.error ≡ "timeout waiting for apply")
            × (¬ Reached n.state.volatile.commit_index polls))
  unfolding get
  get_reads r e = elim (Bool-cases (is_leader n.state.role)) [
    | inr follows ↦ inr (inl (ground arith, follows))
    | inl leads ↦ elim (Bool-cases (holds_lease now n.state.leader_state)) [
      | inl held ↦ inl (ground arith, leads, inl held)
      | inr not_held ↦ waited r _ leads refl (ground arith)
    ]
  ]

  finish-answers :
      (w : Option Bool) (b : Bool) → w ≡ some b → (r : GetResponse) × (finish_get key kv w ≡ some r)
  unfolding finish_get
  finish-answers none b e = cc
  finish-answers (some true) b e = (_, refl)
  finish-answers (some false) b e = (_, refl)

  -- Once the polls pass five seconds a read has an answer.
  pub get_answers : RanOut polls → (r : GetResponse) × (get true now polls kv key n ≡ some r)
  unfolding get
  get_answers out =
      let (b, e) = wait_total n.state.volatile.commit_index polls out in
      let (r, h) = finish-answers (wait_for_apply n.state.volatile.commit_index polls) b e in
      elim (Bool-cases (is_leader n.state.role)) [
        | inr follows ↦ (
          record {
            found = false;
            value = [];
            error = "not leader";
            leader_hint = hint n.state.leader_id;
          },
          ground arith,
        )
        | inl leads ↦ elim (Bool-cases (holds_lease now n.state.leader_state)) [
          | inl held ↦ (read_store key kv, ground arith)
          | inr not_held ↦ (r, ground arith)
        ]
      ]
