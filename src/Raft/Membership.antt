-- ===== src/Raft/Membership.antt =====
-- server-rust/src/raft/membership.rs. Each change takes its locks three times; what the other tasks
-- do before each of these is an argument.
pub mod Consistent
use macro_service.Prelude.{
  ℕ, zero, suc, ◌+◌, Bool, true, false, not, ◌||◌, Option, none, some, List, [], ◌∷◌, ◌++◌, add64,
  ltb, ◌==◌, if◌then◌else◌, length, String,
}
use macro_service.Raft.Log.{LogStore, last_index}
use macro_service.Raft.State.{RaftState, LeaderState, is_leader}

-- The cells that the membership uses, with its own flag.
pub record Members : Type 0 where
  pub state : RaftState
  pub log : LogStore
  pub changing : Bool

-- `Membership::new`
abbrev pub new_membership : RaftState → LogStore → Members
new_membership state log = record { state = state; log = log; changing = false }

unfoldable pub can_change : Members → Bool
can_change m = not m.changing

pub data Refusal : Type 0 where
  not_leader change_in_progress already_exists already_in_cluster : Refusal
  cannot_remove_self not_in_cluster cannot_remove_last_peer : Refusal

-- A change is made, refused with a message, or panics at an index out of bounds with its flag set.
pub data Change : Type 0 where
  changed : Members → Change
  refused : Refusal → Change
  panicked : Members → Change

pub record Gaps : Type 0 where
  pub before_mark : Members → Members
  pub before_update : Members → Members
  pub before_unmark : Members → Members

abbrev pub undisturbed : Gaps
undisturbed = record { before_mark = λ m. m; before_update = λ m. m; before_unmark = λ m. m }

-- `peers.contains`
unfoldable pub contains : ℕ → List ℕ → Bool
contains x [] = false
contains x (y ∷ ys) = y == x || contains x ys

-- `iter().position(..)`
unfoldable pub position : ℕ → List ℕ → Option ℕ
position x [] = none
position x (y ∷ ys) =
    let rest = position x ys in
    if y == x then some 0 else elim rest [ none ↦ none | some i ↦ some (suc i) ]

-- `Vec::remove`, without the element; `none` is its panic.
unfoldable pub remove_at : List ℕ → ℕ → Option (List ℕ)
remove_at [] i = none
remove_at (x ∷ xs) zero = some xs
remove_at (x ∷ xs) (suc i) = elim (remove_at xs i) [ none ↦ none | some ys ↦ some (x ∷ ys) ]

abbrev pub mark : Members → Members
mark m = record m { changing = true }

abbrev pub unmark : Members → Members
unmark m = record m { changing = false }

-- The new indices of the leader state: a new node starts behind the log.
abbrev pub grow : ℕ → Option LeaderState → Option LeaderState
grow next_idx none = none
grow next_idx (some ls) = some (record ls {
  next_index = ls.next_index ++ next_idx ∷ [];
  match_index = ls.match_index ++ 0 ∷ [];
})

unfoldable pub push_node : ℕ → Members → Members
push_node node_id m = record m {
  state = record m.state {
    peers = m.state.peers ++ node_id ∷ [];
    leader_state = grow (add64 (last_index m.log) 1) m.state.leader_state;
  };
}

unfoldable pub add_node : Gaps → ℕ → Members → Change
unfolding contains push_node
add_node gaps node_id m =
    if not (is_leader m.state.role)
    then refused not_leader
    else if m.changing
    then refused change_in_progress
    else if m.state.node_id == node_id
    then refused already_exists
    else if contains node_id m.state.peers
    then refused already_in_cluster
    else (let marked = mark (gaps.before_mark m) in
        let pushed = push_node node_id (gaps.before_update marked) in
        changed (unmark (gaps.before_unmark pushed)))

abbrev pub with_indices : Members → LeaderState → List ℕ → Option (List ℕ) → Change
with_indices m ls nexts none =
    panicked (record m {
      state = record m.state { leader_state = some (record ls { next_index = nexts }) };
    })
with_indices m ls nexts (some matches) = changed (record m {
  state = record m.state {
    leader_state = some (record ls { next_index = nexts; match_index = matches });
  };
})

-- The indices of the removed peer go too, at one place further on: place 0 is the leader's own. A
-- panic leaves what was written before it.
abbrev pub shrink : ℕ → Members → Option LeaderState → Change
shrink peer_idx m none = changed m
shrink peer_idx m (some ls) = elim (remove_at ls.next_index (peer_idx + 1)) [
  | none ↦ panicked m
  | some nexts ↦ with_indices m ls nexts (remove_at ls.match_index (peer_idx + 1))
]

-- The update of `remove_node`.
unfoldable pub drop_node : ℕ → Members → Change
unfolding remove_at
drop_node peer_idx m = elim (remove_at m.state.peers peer_idx) [
  | none ↦ panicked m
  | some peers ↦
      shrink peer_idx (record m { state = record m.state { peers = peers } }) m.state.leader_state
]

abbrev pub finish_change : Gaps → Change → Change
finish_change gaps (changed m) = changed (unmark (gaps.before_unmark m))
finish_change gaps (refused r) = refused r
finish_change gaps (panicked m) = panicked m

unfoldable pub remove_node : Gaps → ℕ → Members → Change
unfolding position drop_node
remove_node gaps node_id m =
    if not (is_leader m.state.role)
    then refused not_leader
    else if m.changing
    then refused change_in_progress
    else if m.state.node_id == node_id
    then refused cannot_remove_self
    else elim (position node_id m.state.peers) [
      | none ↦ refused not_in_cluster
      | some peer_idx ↦
          if length m.state.peers == 0
          then refused cannot_remove_last_peer
          else finish_change gaps
              (drop_node peer_idx (gaps.before_update (mark (gaps.before_mark m))))
    ]

pub record MemberResponse : Type 0 where
  pub term : ℕ
  pub success : Bool

-- A panic gives no response.
abbrev pub response_of : ℕ → Change → Option MemberResponse
response_of current_term (changed m) = some (record { term = current_term; success = true })
response_of current_term (refused r) = some (record { term = current_term; success = false })
response_of current_term (panicked m) = none

-- `handle_add_node`; `before` is what runs between the check of the term and the change. A request
-- that is behind leaves everything as it was.
unfoldable pub handle_add_node :
    (Members → Members) → Gaps → ℕ → ℕ → Members → Option MemberResponse × Change
unfolding add_node
handle_add_node before gaps term node_id m =
    let current_term = m.state.persistent.current_term in
    if ltb term current_term
    then (some (record { term = current_term; success = false }), changed m)
    else (let result = add_node gaps node_id (before m) in
        (response_of current_term result, result))

unfoldable pub handle_remove_node :
    (Members → Members) → Gaps → ℕ → ℕ → Members → Option MemberResponse × Change
unfolding remove_node
handle_remove_node before gaps term node_id m =
    let current_term = m.state.persistent.current_term in
    if ltb term current_term
    then (some (record { term = current_term; success = false }), changed m)
    else (let result = remove_node gaps node_id (before m) in
        (response_of current_term result, result))

pub data ChangeType : Type 0 where
  add_type remove_type : ChangeType

-- The address of a node is only logged.
unfoldable pub apply_config_change : Gaps → ChangeType → ℕ → Members → Change
unfolding add_node remove_node
apply_config_change gaps add_type node_id m = add_node gaps node_id m
apply_config_change gaps remove_type node_id m = remove_node gaps node_id m
