-- ===== src/Metrics.antt =====
-- server-rust/src/metrics.rs: the gauges that follow the state, and the HTTP routes. The prometheus
-- crate holds the gauges and prints them; hyper carries the requests. A gauge is an `i64`, kept as its
-- 64 bits, which `as i64` takes over from a `u64`.
pub mod Routes
use text.Mathlib.Text.{◌==◌}
use macro_service.Prelude.{
  ℕ, ◌+◌, ◌<◌, ◌||◌, Bool, true, false, Option, none, some, List, [], ◌∷◌, ltb, if◌then◌else◌,
  length, String,
}
use macro_service.Raft.State.{
  NodeRole, follower, candidate, leader, LeaderState, RaftState, is_leader, lease_is_valid,
}

pub record Metrics : Type 0 where
  pub current_term : ℕ
  pub node_role : ℕ
  pub commit_index : ℕ
  pub last_applied : ℕ
  pub last_log_index : ℕ
  pub log_entries_count : ℕ
  pub snapshot_last_index : ℕ
  pub elections_started : ℕ
  pub elections_won : ℕ
  pub heartbeats_sent : ℕ
  pub heartbeats_success : ℕ
  pub snapshots_created : ℕ
  pub write_requests : ℕ
  pub read_requests : ℕ
  pub lease_valid : ℕ
  pub cluster_size : ℕ

-- `Metrics::new`: a gauge and a counter of prometheus begin at 0.
abbrev pub new_metrics : Metrics
new_metrics = record {
  current_term = 0;
  node_role = 0;
  commit_index = 0;
  last_applied = 0;
  last_log_index = 0;
  log_entries_count = 0;
  snapshot_last_index = 0;
  elections_started = 0;
  elections_won = 0;
  heartbeats_sent = 0;
  heartbeats_success = 0;
  snapshots_created = 0;
  write_requests = 0;
  read_requests = 0;
  lease_valid = 0;
  cluster_size = 0;
}

-- `Metrics::global`: the cell of the process, and the gauges in it. The first call fills the cell.
unfoldable pub global : Option Metrics → Option Metrics × Metrics
global none = (some new_metrics, new_metrics)
global (some metrics) = (some metrics, metrics)

abbrev pub role_value : NodeRole → ℕ
role_value follower = 0
role_value candidate = 1
role_value leader = 2

abbrev lease_of : ℕ → Option LeaderState → ℕ
lease_of now none = 0
lease_of now (some ls) = if lease_is_valid now ls.lease then 1 else 0

-- The other gauges, and the counters, are left as they are.
unfoldable pub update_from_state : ℕ → RaftState → Metrics → Metrics
unfolding lease_is_valid
update_from_state now s metrics = record metrics {
  current_term = s.persistent.current_term;
  node_role = role_value s.role;
  commit_index = s.volatile.commit_index;
  last_applied = s.volatile.last_applied;
  cluster_size = length s.peers + 1;
  lease_valid = if is_leader s.role then lease_of now s.leader_state else 0;
}

-- What a response holds: the export of the gauges, the objects that serde_json prints, or a fixed text.
pub data Body : Type 0 where
  export : Metrics → Body
  healthy : ℕ → String → ℕ → Body
  ready : ℕ → String → Option ℕ → Body
  not_ready : ℕ → Body
  index_page : Body
  not_found : Body

-- `content_type` is none where no header is set.
pub record Response : Type 0 where
  pub status : ℕ
  pub content_type : Option String
  pub body : Body

abbrev pub role_name : NodeRole → String
role_name follower = "follower"
role_name candidate = "candidate"
role_name leader = "leader"

abbrev pub is_ready : RaftState → Bool
is_ready s = ltb 0 (length s.peers) || is_leader s.role

-- The answer of `/ready`.
unfoldable pub ready_response : RaftState → Response
ready_response s =
    if is_ready s
    then record {
      status = 200;
      content_type = some "application/json";
      body = ready s.node_id (role_name s.role) s.leader_id;
    }
    else record { status = 503; content_type = some "application/json"; body = not_ready s.node_id }

-- The closure of `service_fn`: the gauges after the request, and the response. Without `status` a
-- response has 200.
unfoldable pub respond : ℕ → String → RaftState → Metrics → Metrics × Response
unfolding update_from_state ready_response
respond now path s metrics =
    if path == "/metrics"
    then (let updated = update_from_state now s metrics in
        (
          updated,
          record {
            status = 200;
            content_type = some "text/plain; version=0.0.4";
            body = export updated;
          },
        ))
    else if path == "/health" || path == "/healthz"
    then (
      metrics,
      record {
        status = 200;
        content_type = some "application/json";
        body = healthy s.node_id (role_name s.role) s.persistent.current_term;
      },
    )
    else if path == "/ready" || path == "/readyz"
    then (metrics, ready_response s)
    else if path == "/"
    then (metrics, record { status = 200; content_type = some "text/html"; body = index_page })
    else (metrics, record { status = 404; content_type = none; body = not_found })

-- `start_metrics_server` where the address can be bound: the requests of its connections, one after the
-- other, each with the time and the state at which it is answered.
unfoldable pub serve_requests : List (ℕ × String × RaftState) → Metrics → Metrics × List Response
unfolding respond
serve_requests [] metrics = (metrics, [])
serve_requests ((now, path, s) ∷ requests) metrics =
    let (metrics', response) = respond now path s metrics in
    let (last, responses) = serve_requests requests metrics' in (last, response ∷ responses)

-- With the cell of the process; where the address cannot be bound nothing is served.
unfoldable pub start_metrics_server :
    Bool → List (ℕ × String × RaftState) → Option Metrics → Option Metrics × List Response
unfolding global serve_requests
start_metrics_server bound requests cell =
    let (cell', metrics) = global cell in
    if bound
    then (let (last, responses) = serve_requests requests metrics in (some last, responses))
    else (cell', [])
