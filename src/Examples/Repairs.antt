-- ===== src/Examples/Repairs.antt =====
-- A leader that repairs the logs of two followers and commits.
use macro_service.Prelude.{ℕ, zero, suc, ◌+◌, ◌<◌, ◌≤◌, ◌≡◌, refl, some, List, [], ◌∷◌, arith}
use macro_service.Raft.Log.{last_index, get}
use macro_service.Raft.State.{leader}
use macro_service.Raft.Node.{Node}
use macro_service.Raft.Storage.{PersistentData}
use macro_service.Prelude.{Option, length}
use macro_service.Raft.Replication.{term_at}
use macro_service.Raft.Replication.Commit.{set_commit, update_commit_index}
use macro_service.Raft.Agreement.{AgreeUpTo}
use macro_service.Raft.Agreement.Answered.{Tracks}
use macro_service.Raft.Agreement.Round.{Frame, CanSend, Between}
use macro_service.Raft.Agreement.Exchange.{rounds}
use macro_service.Raft.Agreement.CatchUp.{CaughtUp, rounds-CaughtUp}
use macro_service.Raft.Agreement.Everyone.{serve, AreReady}
use macro_service.Raft.Agreement.Committed.{served, serve-commits}
use macro_service.Examples.Logs.{heartbeat}
use macro_service.Examples.Cluster.{
  peers, state_of, node_of, leader_node, follower_node, leader_log, leader_indices,
  leader_log-IsValid, follower_log-IsValid, logs-LogMatching,
}
use macro_service.Examples.Disks.{memory}
use macro_service.Examples.Codecs.{small_codec}

heartbeat-CanSend : CanSend heartbeat leader_log
unfolding last_index
heartbeat-CanSend = record {
  valid = leader_log-IsValid;
  whole = refl;
  no_snapshot = refl;
  carries = omega arith;
  room = omega arith;
}

-- The leader tries from its second entry on, which the follower has from another leader.
behind : Between 2 heartbeat leader_log 2 1 (leader_node.state, follower_node)
behind = record {
  tracks = record {
    leads = leader_indices;
    here = refl;
    in_term = refl;
    next_index = refl;
    match_index = refl;
  };
  low = omega arith;
  valid = follower_log-IsValid;
  matching = logs-LogMatching;
  whole = refl;
}

rounds-CaughtUp_example :
    (k : ℕ) × (k < 2 + last_index leader_log)
    × CaughtUp memory small_codec 0 200 2 2 1 heartbeat leader_log (
        rounds memory small_codec 0 200 2 2 1 heartbeat leader_log k
          (leader_node.state, follower_node))
    × Frame 2 2 leader_node.state
        (rounds memory small_codec 0 200 2 2 1 heartbeat leader_log k
          (leader_node.state, follower_node)).0
unfolding last_index
rounds-CaughtUp_example =
    rounds-CaughtUp memory small_codec 0 200 2 2 1 heartbeat leader_log 2 1 leader_node.state
      follower_node heartbeat-CanSend behind (omega arith) (omega arith)

-- It tries both followers from its second entry on.
abbrev trying : Node (Option PersistentData)
trying =
    node_of
      (state_of 1 leader 2 (some 1) (some (record leader_indices { next_index = 1 ∷ 2 ∷ 2 ∷ [] })))
      leader_log

between_both :
    (j matched : ℕ)
    → Tracks j 2 matched 2 trying.state
    → Between j heartbeat leader_log 2 matched (trying.state, follower_node)
between_both j matched t = record {
  tracks = t;
  low = omega arith;
  valid = follower_log-IsValid;
  matching = logs-LogMatching;
  whole = refl;
}

both_ready :
    AreReady memory small_codec 0 200 2 1 heartbeat leader_log 0 2
      (trying.state, λ j. follower_node)
unfolding last_index
both_ready zero low high = absurd (omega arith)
both_ready (suc zero) low high = (
  2,
  3,
  between_both 1 3
      (record { leads = _; here = refl; in_term = refl; next_index = refl; match_index = refl }),
  omega arith,
  omega arith,
)
both_ready (suc (suc zero)) low high = (
  2,
  1,
  between_both 2 1
      (record { leads = _; here = refl; in_term = refl; next_index = refl; match_index = refl }),
  omega arith,
  omega arith,
)
both_ready (suc (suc (suc j))) low high = absurd (omega arith)

ends_in_term : term_at leader_log (last_index leader_log) ≡ 2
unfolding term_at get last_index
ends_in_term = refl

serve-commits_example :
    (is : List ℕ) × (update_commit_index peers
        (λ i. leader_log)
        (λ m. m)
        (served memory small_codec 0 200 2 1 heartbeat peers trying (λ j. follower_node) is)
      ≡ some (
          set_commit
            (last_index leader_log)
            (served memory small_codec 0 200 2 1 heartbeat peers trying (λ j. follower_node) is)))
    × ((j : ℕ)
        → 0 < j
        → j ≤ length peers
        → AgreeUpTo leader_log
            ((serve memory small_codec 0 200 2 1 heartbeat leader_log is
                (trying.state, λ j. follower_node)).1
              j).log
            (last_index leader_log))
unfolding last_index
serve-commits_example =
    serve-commits memory small_codec 0 200 2 1 heartbeat peers trying (λ j. follower_node)
      (omega arith) refl heartbeat-CanSend both_ready (omega arith) ends_in_term
