-- ===== src/Raft/Replication/CommitRule.antt =====
-- replication.rs: the index that `update_commit_index` chooses.
use macro_service.Prelude.{
  ℕ, zero, suc, ◌+◌, ◌-◌, ◌≤◌, ◌<◌, ◌≡◌, ◌⊎◌, inl, inr, refl, ap, true, not, Option, none, some,
  List, [], ◌∷◌, arith, u64_mod, add64, leb, ◌==◌, if◌then◌else◌, length, get_elem?, Bool-cases,
  ==_iff, get_elem?-some, get_elem?-none, ◌≢◌, le-or-lt, leb→le,
}
use macro_service.Raft.Log.{LogStore, last_index}
use macro_service.Raft.State.{LeaderState, is_leader, majority_of}
use macro_service.Raft.Node.{Node, Meanwhile}
use macro_service.Raft.Replication.{Peers, term_at}
use macro_service.Raft.Replication.Commit.{
  count_acks, CommitResult, keep, commit_at, panics, decide, find_commit, set_commit, finish_commit,
  update_commit_index,
}
use native.Mathlib.Nat.{add-suc}

abbrev pub acked : Option ℕ → ℕ → ℕ
acked none n = 0
acked (some match_index) n = if leb n match_index then 1 else 0

-- How many peers from the `i`-th on have acknowledged the index `n`.
abbrev pub acks : Peers → ℕ → List ℕ → ℕ → ℕ
acks [] i match_indices n = 0
acks (peer ∷ peers) i match_indices n =
    acked (get_elem? match_indices (i + 1)) n + acks peers (i + 1) match_indices n

pub count_acks-eq :
    (peers : Peers) (i : ℕ) (mi : List ℕ) (n c : ℕ)
    → i + length peers < length mi
    → count_acks peers i mi n c ≡ some (c + acks peers i mi n)
unfolding count_acks
count_acks-eq [] i mi n c h = ap some (omega arith)
count_acks-eq (p ∷ peers) i mi n c h =
    let (x, found) = get_elem?-some mi (i + 1) (omega arith) in
    ground (
      arith,
      found,
      count_acks-eq peers (i + 1) mi n (c + 1) (omega arith),
      count_acks-eq peers (i + 1) mi n c (omega arith),
    )

-- With too few match indices the count panics.
pub count_acks-none :
    (peers : Peers) (i : ℕ) (mi : List ℕ) (n c : ℕ)
    → peers ≢ []
    → length mi ≤ i + length peers
    → count_acks peers i mi n c ≡ none
unfolding count_acks
count_acks-none [] i mi n c ne h = absurd (ne refl)
count_acks-none (p ∷ []) i mi n c ne h = rw (get_elem?-none mi (i + 1) (omega arith), count_acks)
count_acks-none (p ∷ q ∷ peers) i mi n c ne h = ground (
  arith,
  count_acks-none (q ∷ peers) (i + 1) mi n (c + 1) (λ e. cc) (omega arith),
  count_acks-none (q ∷ peers) (i + 1) mi n c (λ e. cc) (omega arith),
)

module _ (term : ℕ) (peers : Peers) (mi : List ℕ) (logs : ℕ → LogStore) where
  -- The commit rule of Raft at an index: an entry of the current term on a majority of the nodes.
  abbrev pub Committable : ℕ → Type 0
  Committable n = (term_at (logs n) n ≡ term) × (majority_of (length peers) ≤ 1 + acks peers 0 mi n)

  -- No index of `from .. to` satisfies the rule.
  abbrev pub NoneIn : ℕ → ℕ → Type 0
  NoneIn from to = (n : ℕ) → from ≤ n → n < to → ¬ Committable n

  abbrev pub Chosen : ℕ → ℕ → CommitResult → Type 0
  Chosen from to keep = NoneIn from to
  Chosen from to (commit_at n) = (from ≤ n) × (n < to) × Committable n × NoneIn (suc n) to
  Chosen from to panics = ⊥

  extend :
      (from n : ℕ) (r : CommitResult) → ¬ Committable n → Chosen from n r → Chosen from (suc n) r
  extend from n keep bad h = λ i low high c. elim (le-or-lt n i) [
    | inl here ↦ let e : n ≡ i = omega arith in bad (rw (← e) at c)
    | inr below ↦ h i low below c
  ]
  extend from n (commit_at m) bad h = (
    h.0,
    omega arith,
    h.2,
    λ i low high c. elim (le-or-lt n i) [
      | inl here ↦ let e : n ≡ i = omega arith in bad (rw (← e) at c)
      | inr below ↦ h.3 i low below c
    ],
  )
  extend from n panics bad h = h

  -- One round of the search.
  choose :
      (start n : ℕ) (rest : CommitResult)
      → start ≤ n
      → length peers < length mi
      → Chosen start n rest
      → Chosen start (suc n) (
          if not (term_at (logs n) n == term)
          then rest
          else decide (majority_of (length peers)) n (count_acks peers 0 mi n 1) rest)
  choose start n rest low h ih = elim (Bool-cases (term_at (logs n) n == term)) [
    | inr other ↦ rw other (extend start n rest (λ c. ground (arith, c.0)) ih)
    | inl same ↦
        rw (same, count_acks-eq peers 0 mi n 1 (omega arith))
          (elim (Bool-cases (leb (majority_of (length peers)) (1 + acks peers 0 mi n))) [
            | inl enough ↦ rw enough (
              low,
              omega arith,
              ((==_iff _ _).0 same, leb→le _ _ enough),
              λ i above high c. omega arith,
            )
            | inr few ↦ rw few (extend start n rest (λ c. ground (arith, c.1)) ih)
          ])
  ]

  -- The search gives the highest index of its range that satisfies the rule, if there is one.
  pub find_commit-Chosen :
      (start k : ℕ)
      → length peers < length mi
      → Chosen start (start + k) (find_commit term peers mi logs start k)
  unfolding find_commit
  find_commit-Chosen start zero h = λ n low high c. omega arith
  find_commit-Chosen start (suc k) h =
      rw (add-suc start k)
        (choose start (start + k) _ (omega arith) h (find_commit-Chosen start k h))

-- What `update_commit_index` may do to a leader, with the other tasks at work during its search:
-- leave the commit index, as no index above it satisfies the rule, or raise it to the highest that
-- does.
pub data CommitRaised {D : Type 0} (relocked : Node D) (rule : ℕ → Type 0) (low high : ℕ)
    : Option (Node D) → Type 0 where
  kept :
      ((i : ℕ) → low < i → i ≤ high → ¬ rule i)
      → CommitRaised relocked rule low high (some relocked)
  raised :
      (n : ℕ)
      → low < n
      → n ≤ high
      → rule n
      → ((i : ℕ) → n < i → i ≤ high → ¬ rule i)
      → CommitRaised relocked rule low high (some (set_commit n relocked))

module _ {D : Type 0} (peers : Peers) (logs : ℕ → LogStore) (relock : Meanwhile D)
    (n : Node D) where
  raised_of :
      (start to low high : ℕ) (term : ℕ) (mi : List ℕ) (r : CommitResult)
      → start ≡ low + 1
      → to ≡ high + 1 ⊎ (high < low) × (to ≡ low + 1)
      → Chosen term peers mi logs start to r
      → CommitRaised (relock n) (Committable term peers mi logs) low high (finish_commit relock r n)
  raised_of start to low high term mi keep e f c =
      kept (λ i above under. c i (omega arith) (omega arith))
  raised_of start to low high term mi (commit_at k) e f c =
      raised k (omega arith) (omega arith) c.2 (λ i above under. c.3 i (omega arith) (omega arith))
  raised_of start to low high term mi panics e f c = absurd c

  -- A leader with a match index for every peer raises its commit index to the highest index above it
  -- at which its log holds an entry of its term that a majority of the nodes has acknowledged, and
  -- leaves the index as it is if there is none.
  pub update_commit_index-CommitRaised :
      (ls : LeaderState)
      → is_leader n.state.role ≡ true
      → n.state.leader_state ≡ some ls
      → length peers < length ls.match_index
      → n.state.volatile.commit_index + 1 < u64_mod
      → CommitRaised
          (relock n)
          (Committable n.state.persistent.current_term peers ls.match_index logs)
          n.state.volatile.commit_index
          (last_index n.log)
          (update_commit_index peers logs relock n)
  unfolding update_commit_index
  update_commit_index-CommitRaised ls lead here sizes room =
      let start = add64 n.state.volatile.commit_index 1 in
      let k = last_index n.log + 1 - start in
      simp (lead, here)
        (raised_of start (start + k) n.state.volatile.commit_index (last_index n.log)
          n.state.persistent.current_term ls.match_index _ (omega arith) (omega arith)
          (find_commit-Chosen n.state.persistent.current_term peers ls.match_index logs start k
            sizes))

-- Where the highest index satisfies the rule it is the one that is committed.
pub CommitRaised-high :
    {D : Type 0} (m : Node D) (rule : ℕ → Type 0) (low high : ℕ) (o : Option (Node D))
    → CommitRaised m rule low high o
    → low < high
    → rule high
    → o ≡ some (set_commit high m)
CommitRaised-high m rule low high o (kept none_above) lt here =
    absurd (none_above high lt (omega arith) here)
CommitRaised-high m rule low high o (raised n above below chosen none_above) lt here =
    elim (le-or-lt high n) [
      | inl top ↦ let same : n ≡ high = omega arith in ap (λ k. some (set_commit k m)) same
      | inr under ↦ absurd (none_above high under (omega arith) here)
    ]
