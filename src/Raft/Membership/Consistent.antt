-- ===== src/Raft/Membership/Consistent.antt =====
-- membership.rs: the peers are distinct, and the leader state has an index for each node.
use macro_service.Prelude.{
  ℕ, zero, suc, ◌+◌, ◌<◌, ◌≡◌, ◌≢◌, refl, false, ◌||◌, Option, none, some, List, [], ◌∷◌, ◌++◌,
  arith, ◌==◌, length, length-append, length-replicate, Option-cases, inl, inr, Bool-cases,
}
use macro_service.Raft.State.{RaftState, LeaderState, is_leader, become_leader}
use macro_service.Raft.Membership.{
  Members, Change, changed, refused, panicked, cannot_remove_last_peer, undisturbed, contains,
  position, remove_at, mark, push_node, add_node, drop_node, remove_node, grow, finish_change,
}

abbrev pub Distinct : List ℕ → Type 0
Distinct [] = Unit
Distinct (x ∷ xs) = (contains x xs ≡ false) × Distinct xs

abbrev pub HasIndexFor : ℕ → Option LeaderState → Type 0
HasIndexFor k none = Unit
HasIndexFor k (some ls) = (length ls.next_index ≡ k) × (length ls.match_index ≡ k)

pub record IsConsistent (s : RaftState) : Type 0 where
  pub distinct : Distinct s.peers
  pub not_itself : contains s.node_id s.peers ≡ false
  pub indices : HasIndexFor (length s.peers + 1) s.leader_state

-- A new leader has an index for each node.
pub become_leader-indices :
    (s : RaftState) → HasIndexFor (length s.peers + 1) (become_leader s).leader_state
unfolding become_leader
become_leader-indices s =
    (length-replicate (length s.peers + 1) 1, length-replicate (length s.peers + 1) 0)

contains-append : (x y : ℕ) (xs : List ℕ) → contains x (xs ++ y ∷ []) ≡ (contains x xs || y == x)
unfolding contains
contains-append x y [] = ground arith
contains-append x y (z ∷ xs) = ground (arith, contains-append x y xs)

Distinct-append :
    (y : ℕ) (xs : List ℕ) → Distinct xs → contains y xs ≡ false → Distinct (xs ++ y ∷ [])
unfolding contains
Distinct-append y [] d h = (refl, tt)
Distinct-append y (x ∷ xs) d h =
    (ground (arith, contains-append x y xs, d.0), Distinct-append y xs d.1 (ground arith))

HasIndexFor-grow :
    (k next : ℕ) (o : Option LeaderState) → HasIndexFor k o → HasIndexFor (k + 1) (grow next o)
HasIndexFor-grow k next none h = tt
HasIndexFor-grow k next (some ls) h = (
  omega (arith, length-append ls.next_index (next ∷ []), h.0),
  omega (arith, length-append ls.match_index (0 ∷ []), h.1),
)

position-lt : (x i : ℕ) (xs : List ℕ) → position x xs ≡ some i → i < length xs
unfolding position
position-lt x i [] e = cc
position-lt x i (y ∷ xs) e = elim (Option-cases (position x xs)) [
  | inl absent ↦ ground arith
  | inr (j, here) ↦ ground (arith, position-lt x j xs here)
]

-- A removal inside the bounds works, takes one element, and brings none in.
remove_at-some :
    (xs : List ℕ) (i : ℕ)
    → i < length xs
    → (ys : List ℕ) × (remove_at xs i ≡ some ys) × (length ys + 1 ≡ length xs)
unfolding remove_at
remove_at-some [] i h = absurd (omega arith)
remove_at-some (x ∷ xs) zero h = (xs, refl, omega arith)
remove_at-some (x ∷ xs) (suc i) h =
    let (ys, found, size) = remove_at-some xs i (omega arith) in (x ∷ ys, rw found, omega arith)

contains-remove_at :
    (z i : ℕ) (xs ys : List ℕ)
    → remove_at xs i ≡ some ys
    → contains z xs ≡ false
    → contains z ys ≡ false
unfolding remove_at contains
contains-remove_at z i [] ys e h = cc
contains-remove_at z zero (x ∷ xs) ys e h = ground arith
contains-remove_at z (suc i) (x ∷ xs) ys e h = elim (Option-cases (remove_at xs i)) [
  | inl out ↦ ground arith
  | inr (zs, found) ↦ ground (arith, contains-remove_at z i xs zs found)
]

Distinct-remove_at : (i : ℕ) (xs ys : List ℕ) → remove_at xs i ≡ some ys → Distinct xs → Distinct ys
unfolding remove_at contains
Distinct-remove_at i [] ys e d = cc
Distinct-remove_at zero (x ∷ xs) ys e d = let e' : xs ≡ ys = cc in rw e' at d.1
Distinct-remove_at (suc i) (x ∷ xs) [] e d = tt
Distinct-remove_at (suc i) (x ∷ xs) (y ∷ ys) e d = elim (Option-cases (remove_at xs i)) [
  | inl out ↦ ground arith
  | inr (zs, found) ↦ (
    ground (arith, contains-remove_at x i xs zs found d.0),
    Distinct-remove_at i xs ys (ground arith) d.1,
  )
]

-- What a change may come to: a consistent state with the flag cleared, or a refusal; no panic.
abbrev pub Sound : Change → Type 0
Sound (changed m) = IsConsistent m.state × (m.changing ≡ false)
Sound (refused r) = Unit
Sound (panicked m) = ⊥

push_node-IsConsistent :
    (x : ℕ) (m : Members)
    → IsConsistent m.state
    → (m.state.node_id == x) ≡ false
    → contains x m.state.peers ≡ false
    → IsConsistent (push_node x m).state
unfolding push_node
push_node-IsConsistent x m c other absent = record {
  distinct = Distinct-append x m.state.peers c.distinct absent;
  not_itself = ground (arith, contains-append m.state.node_id x m.state.peers, c.not_itself);
  indices =
      let size : length (m.state.peers ++ x ∷ []) ≡ length m.state.peers + 1 =
        length-append m.state.peers (x ∷ []) in
      rw size (HasIndexFor-grow _ _ m.state.leader_state c.indices);
}

-- Undisturbed, an addition never panics and keeps the state consistent.
pub add_node-Sound : (x : ℕ) (m : Members) → IsConsistent m.state → Sound (add_node undisturbed x m)
unfolding add_node push_node
add_node-Sound x m c = elim (Bool-cases (is_leader m.state.role)) [
  | inr off ↦ simp off tt
  | inl lead ↦ elim (Bool-cases m.changing) [
    | inl busy ↦ simp (lead, busy) tt
    | inr free ↦ elim (Bool-cases (m.state.node_id == x)) [
      | inl own ↦ simp (lead, free, own) tt
      | inr other ↦ elim (Bool-cases (contains x m.state.peers)) [
        | inl known ↦ simp (lead, free, other, known) tt
        | inr absent ↦
            simp (lead, free, other, absent) (push_node-IsConsistent x m c other absent, refl)
      ]
    ]
  ]
]

module _ (i : ℕ) (m : Members) {peers : List ℕ}
    (found : remove_at m.state.peers i ≡ some peers) where
  drop_node-none :
      m.state.leader_state ≡ none
      → drop_node i m ≡ changed (record m { state = record m.state { peers = peers } })
  unfolding drop_node
  drop_node-none off = ground arith

  drop_node-some :
      (ls : LeaderState) {nexts matches : List ℕ}
      → m.state.leader_state ≡ some ls
      → remove_at ls.next_index (i + 1) ≡ some nexts
      → remove_at ls.match_index (i + 1) ≡ some matches
      → drop_node i m
        ≡ changed (record m {
          state = record m.state {
            peers = peers;
            leader_state = some (record ls { next_index = nexts; match_index = matches });
          };
        })
  unfolding drop_node
  drop_node-some ls on next match = ground arith

drop_node-Sound :
    (x i : ℕ) (m : Members)
    → IsConsistent m.state
    → position x m.state.peers ≡ some i
    → Sound (finish_change undisturbed (drop_node i m))
drop_node-Sound x i m c e =
    let (peers, found, size) = remove_at-some m.state.peers i (position-lt x i m.state.peers e) in
    let distinct = Distinct-remove_at i m.state.peers peers found c.distinct in
    let own = contains-remove_at m.state.node_id i m.state.peers peers found c.not_itself in
    elim (Option-cases m.state.leader_state) [
      | inl off ↦
          rw (drop_node-none i m found off)
            (record { distinct = distinct; not_itself = own; indices = simp off tt }, refl)
      | inr (ls, on) ↦
          (let sizes : HasIndexFor (length m.state.peers + 1) (some ls) = rw on at c.indices in
            let (nexts, next_found, next_size) =
              remove_at-some ls.next_index (i + 1)
                (omega (arith, position-lt x i m.state.peers e)) in
            let (matches, match_found, match_size) =
              remove_at-some ls.match_index (i + 1)
                (omega (arith, position-lt x i m.state.peers e)) in
            rw (drop_node-some i m found ls on next_found match_found) (
              record {
                distinct = distinct;
                not_itself = own;
                indices = (omega arith, omega arith);
              },
              refl,
            ))
    ]

==-zero : (n : ℕ) → 0 < n → (n == 0) ≡ false
==-zero n h = ground arith

drop_node-ne :
    (i : ℕ) (m : Members)
    → finish_change undisturbed (drop_node i m) ≢ refused cannot_remove_last_peer
unfolding drop_node
drop_node-ne i m e = ground arith

-- Undisturbed, a removal never panics and keeps the state consistent, and it is never refused for
-- being the last peer.
pub remove_node-Sound :
    (x : ℕ) (m : Members)
    → IsConsistent m.state
    → Sound (remove_node undisturbed x m)
      × (remove_node undisturbed x m ≢ refused cannot_remove_last_peer)
unfolding remove_node
remove_node-Sound x m c = elim (Bool-cases (is_leader m.state.role)) [
  | inr off ↦ simp off (tt, λ e. cc)
  | inl lead ↦ elim (Bool-cases m.changing) [
    | inl busy ↦ simp (lead, busy) (tt, λ e. cc)
    | inr free ↦ elim (Bool-cases (m.state.node_id == x)) [
      | inl own ↦ simp (lead, free, own) (tt, λ e. cc)
      | inr other ↦ elim (Option-cases (position x m.state.peers)) [
        | inl absent ↦ simp (lead, free, other, absent) (tt, λ e. cc)
        | inr (i, here) ↦
            (let some_peer = position-lt x i m.state.peers here in
              simp (lead, free, other, here, ==-zero (length m.state.peers) (omega arith))
                (drop_node-Sound x i (mark m) c here, drop_node-ne i (mark m)))
      ]
    ]
  ]
]
