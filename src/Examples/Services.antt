-- ===== src/Examples/Services.antt =====
-- A peer list and a command line, the numbers of the calculator, and the metrics of a leader.
use macro_service.Prelude.{
  ℕ, zero, suc, ◌+◌, ◌*◌, ◌^◌, ◌≤◌, ◌<◌, ◌≡◌, ◌⊎◌, ◌↔◌, inl, inr, refl, true, none, some, List, [],
  ◌∷◌, map, arith, le-or-lt, leb, le→leb, lt→leb, if◌then◌else◌, All,
}
use macro_service.Config.{CliConfig, peers_of}
use macro_service.Config.Peers.{Entry, IsEntry, render, peer, peers_of-render}
use macro_service.Calculator.{Sqrt, stream_primes}
use macro_service.Calculator.Primes.{IsPrime, IsIn, IsIncreasing, stream_primes-IsPrime}
use macro_service.Raft.State.{is_leader}
use macro_service.Kv.Service.{holds_lease, get, read_store}
use macro_service.Metrics.{new_metrics, update_from_state}
use macro_service.Metrics.Routes.{lease_valid-get}
use macro_service.Examples.Cluster.{leader_node}

-- `12@b:50052` and `3@c`
abbrev entries : List Entry
entries = (b'1' ∷ b'2' ∷ [], b'b' ∷ b':' ∷ b'5' ∷ []) ∷ (b'3' ∷ [], b'c' ∷ []) ∷ []

entries-IsEntry : All IsEntry entries
entries-IsEntry = (
  record {
    some_digit = λ e. cc;
    digits = ((omega arith, omega arith), ((omega arith, omega arith), tt));
    fits = omega arith;
    no_at = (refl, (refl, (refl, tt)));
    no_comma = (refl, (refl, (refl, tt)));
  },
  (
    record {
      some_digit = λ e. cc;
      digits = ((omega arith, omega arith), tt);
      fits = omega arith;
      no_at = (refl, tt);
      no_comma = (refl, tt);
    },
    tt,
  ),
)

peers_of-render_example : peers_of (render entries) ≡ map peer entries
peers_of-render_example = peers_of-render entries entries-IsEntry

-- The last identifier whose port does not wrap.
abbrev cli : CliConfig
cli = record {
  node_id = 56445;
  client_port = 50051;
  raft_port = 60051;
  peers = render entries;
  data_dir = [];
  snapshot_threshold = 1000;
  max_entries_per_append = 100;
  metrics_port = none;
}

-- The whole part of the square root, by counting up.
abbrev isqrt : ℕ → ℕ
isqrt zero = zero
isqrt (suc n) = let r = isqrt n in if leb ((r + 1) * (r + 1)) (suc n) then r + 1 else r

isqrt-floor : (n : ℕ) → (isqrt n * isqrt n ≤ n) × (n < (isqrt n + 1) * (isqrt n + 1))
isqrt-floor zero = (omega arith, omega arith)
isqrt-floor (suc n) =
    let (low, high) = isqrt-floor n in
    let r = isqrt n in
    elim (le-or-lt ((r + 1) * (r + 1)) (suc n)) [
      | inl more ↦ rw (le→leb _ _ more) (more, omega arith)
      | inr same ↦ rw (lt→leb _ _ same) (omega arith, same)
    ]

abbrev root : Sqrt
root = record { sqrt = isqrt; floor = λ n fits. isqrt-floor n }

stream_primes-IsPrime_example :
    (IsIn 7 (stream_primes root 10) ↔ ((10 < 2 ^ 31) × (7 < 10) × IsPrime 7))
    × IsIncreasing 2 (stream_primes root 10)
stream_primes-IsPrime_example = stream_primes-IsPrime root 10 7

stream_primes_ten : stream_primes root 10 ≡ 2 ∷ 3 ∷ 5 ∷ 7 ∷ []
unfolding stream_primes
stream_primes_ten = refl

-- Two numbers whose sum wraps.
abbrev numbers : List ℕ
numbers = 4294967295 ∷ 3 ∷ []

lease_valid-get_example :
    let n = leader_node in
    (((update_from_state 5 n.state new_metrics).lease_valid ≡ 1)
      ↔ ((is_leader n.state.role ≡ true) × (holds_lease 5 n.state.leader_state ≡ true)))
    × ((update_from_state 5 n.state new_metrics).lease_valid ≤ 1)
    × (((update_from_state 5 n.state new_metrics).lease_valid ≡ 0)
        ⊎ (get true 5 [] n.kv "k" n ≡ some (read_store "k" n.kv)))
lease_valid-get_example = lease_valid-get 5 [] leader_node.kv "k" leader_node new_metrics
