-- ===== src/Raft/Election/Transfer.antt =====
-- election.rs: `transfer_leader` and `handle_transfer_leader`.
use macro_service.Prelude.{
  ℕ, ◌+◌, ◌≤◌, ◌≡◌, ◌≢◌, refl, Bool, true, false, not, Option, none, some, [], ◌∷◌, arith, ltb,
  ◌==◌, if◌then◌else◌, get_elem?, String, Bool-cases, inl, inr, le-or-lt, le→ltb,
}
use macro_service.Raft.Log.{last_index}
use macro_service.Raft.State.{follower, LeaderState, is_leader, become_follower}
use macro_service.Raft.Node.{Node, Meanwhile}
use macro_service.Raft.Election.{Peers}

-- The messages of `Err`.
pub data TransferError : Type 0 where
  not_leader to_self not_found no_leader_state not_up_to_date call_failed : TransferError

-- A transfer is made, fails, or panics at an index out of bounds.
pub data Transfer (D : Type 0) : Type 0 where
  done : Node D → Transfer D
  failed : TransferError → Node D → Transfer D
  panicked : Transfer D

-- The other tasks: before the term is read again, while the target answers, and between the two
-- write locks.
pub record TransferGaps (D : Type 0) : Type 0 where
  pub before_term : Meanwhile D
  pub calling : Meanwhile D
  pub before_last : Meanwhile D

-- `iter().find(..)`, with the place that `iter().position(..)` gives.
unfoldable pub find_peer : ℕ → ℕ → Peers → Option (ℕ × String)
find_peer target_id i [] = none
find_peer target_id i ((id, addr) ∷ peers) =
    let rest = find_peer target_id (i + 1) peers in if id == target_id then some (i, addr) else rest

module _ {D : Type 0} (timeout_now : String → ℕ → Option ℕ) (gaps : TransferGaps D)
    (target_id : ℕ) where
  -- After the call: a higher term is taken over, and the leader steps down in any case.
  unfoldable pub step_down : ℕ → Option ℕ → Node D → Transfer D
  unfolding become_follower
  step_down current_term none n = failed call_failed n
  step_down current_term (some term) n =
      let m =
        if ltb current_term term
        then record n { state = become_follower term (some target_id) n.state }
        else n in
      let k = gaps.before_last m in
      done (record k { state = become_follower current_term (some target_id) k.state })

  -- With the match index of the target and the last index of the log.
  unfoldable pub call_target : String → Option ℕ → ℕ → Node D → Transfer D
  unfolding step_down
  call_target addr none last n = panicked
  call_target addr (some match_index) last n =
      if ltb match_index last
      then failed not_up_to_date n
      else (let m = gaps.before_term n in
          let current_term = m.state.persistent.current_term in
          step_down current_term (timeout_now addr current_term) (gaps.calling m))

  unfoldable pub transfer_to : Option (ℕ × String) → Option LeaderState → Node D → Transfer D
  unfolding call_target
  transfer_to none ls n = failed not_found n
  transfer_to (some (i, addr)) none n = failed no_leader_state n
  transfer_to (some (i, addr)) (some ls) n =
      call_target addr (get_elem? ls.match_index (i + 1)) (last_index n.log) n

  unfoldable pub transfer_leader : Peers → Node D → Transfer D
  unfolding transfer_to find_peer
  transfer_leader peers n =
      if not (is_leader n.state.role)
      then failed not_leader n
      else if target_id == n.state.node_id
      then failed to_self n
      else transfer_to (find_peer target_id 0 peers) n.state.leader_state n

  abbrev pub answer : ℕ → Transfer D → Option (Node D × ℕ × Bool)
  answer current_term (done n) = some (n, current_term, true)
  answer current_term (failed e n) = some (n, current_term, false)
  answer current_term panicked = none

  -- With the node come the two fields of `TransferLeaderResponse`; `before` is what runs between the
  -- check of the term and the transfer.
  unfoldable pub handle_transfer_leader :
      Meanwhile D → Peers → ℕ → Node D → Option (Node D × ℕ × Bool)
  unfolding transfer_leader
  handle_transfer_leader before peers term n =
      let current_term = n.state.persistent.current_term in
      if ltb term current_term
      then some (n, current_term, false)
      else answer current_term (transfer_leader peers (before n))

  -- The node follows the target.
  abbrev pub SteppedDown : Node D → Type 0
  SteppedDown m = (m.state.role ≡ follower) × (m.state.leader_id ≡ some target_id)

  step_down-done :
      (current_term : ℕ) (o : Option ℕ) (n m : Node D)
      → step_down current_term o n ≡ done m
      → SteppedDown m
  unfolding step_down
  step_down-done current_term none n m e = cc
  step_down-done current_term (some term) n m e = (ground arith, ground arith)

  call_target-done :
      (addr : String) (o : Option ℕ) (last : ℕ) (n m : Node D)
      → call_target addr o last n ≡ done m
      → ((match_index : ℕ) × (o ≡ some match_index) × (last ≤ match_index)) × SteppedDown m
  unfolding call_target
  call_target-done addr none last n m e = cc
  call_target-done addr (some match_index) last n m e = elim (le-or-lt last match_index) [
    | inl caught_up ↦ (
      (match_index, refl, caught_up),
      step_down-done _ _ _ m (rw (le→ltb match_index last caught_up) at e),
    )
    | inr behind ↦ absurd (ground arith)
  ]

  -- The target is a peer whose match index reaches the end of the log.
  abbrev pub CaughtUp : Peers → Node D → Type 0
  CaughtUp peers n =
      (i : ℕ) × (addr : String) × (ls : LeaderState) × (match_index : ℕ) × (find_peer target_id 0
          peers
        ≡ some (i, addr))
      × (n.state.leader_state ≡ some ls)
      × (get_elem? ls.match_index (i + 1) ≡ some match_index)
      × (last_index n.log ≤ match_index)

  transfer_to-done :
      (peers : Peers) (o : Option (ℕ × String)) (p : Option LeaderState) (n m : Node D)
      → find_peer target_id 0 peers ≡ o
      → n.state.leader_state ≡ p
      → transfer_to o p n ≡ done m
      → CaughtUp peers n × SteppedDown m
  unfolding transfer_to
  transfer_to-done peers none p n m f l e = cc
  transfer_to-done peers (some (i, addr)) none n m f l e = cc
  transfer_to-done peers (some (i, addr)) (some ls) n m f l e =
      let ((match_index, found, reaches), stepped) = call_target-done addr _ _ n m e in
      ((i, addr, ls, match_index, f, l, found, reaches), stepped)

  -- Whatever the other tasks do, a transfer is made only by a leader, to another node of its
  -- configuration that has acknowledged the whole log; afterwards the node is a follower with the
  -- target as its leader.
  pub transfer_leader-done :
      (peers : Peers) (n m : Node D)
      → transfer_leader peers n ≡ done m
      → (is_leader n.state.role ≡ true)
        × (target_id ≢ n.state.node_id)
        × CaughtUp peers n
        × SteppedDown m
  unfolding transfer_leader
  transfer_leader-done peers n m e = elim (Bool-cases (is_leader n.state.role)) [
    | inr off ↦ absurd (ground arith)
    | inl leads ↦ elim (Bool-cases (target_id == n.state.node_id)) [
      | inl own ↦ absurd (ground arith)
      | inr other ↦
          (let (caught_up, stepped) =
              transfer_to-done peers _ _ n m refl refl (rw (leads, other) at e) in
            (leads, λ same. ground arith, caught_up, stepped))
    ]
  ]
