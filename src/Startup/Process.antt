-- ===== src/Startup/Process.antt =====
-- main.rs, lines 97 to 300: the process of a node, with its main loop, its Raft service and its client
-- service on the same cells. The tasks take turns here: one event runs to its end before the next.
pub mod Round
pub mod Kept
use macro_service.Prelude.{
  ℕ, Bool, true, false, Option, none, some, List, [], ◌∷◌, String, if◌then◌else◌, length, ◌&&◌,
}
use macro_service.Config.{Text, NodeConfig}
use macro_service.Raft.Messages.{
  VoteRequest, VoteResponse, AppendEntriesResponse, InstallSnapshotResponse,
}
use macro_service.Raft.State.{RaftState, is_leader, majority_of}
use macro_service.Raft.Replication.{on_append_response, on_snapshot_response}
use macro_service.Raft.Node.{Node, Handled, returns, deadlocks}
use macro_service.Raft.Storage.{Storage}
use macro_service.Raft.Timer.{reset, should_beat}
use macro_service.Raft.Election
use macro_service.Raft.Election.{Rpc}
use macro_service.Raft.Replication.Snapshot
use macro_service.Raft.Service.{
  RaftService, new_service, Call, Served, answers, hangs, panics, serve_call,
}
use macro_service.Raft.Service.Calls.{alone, restarts_timer}
use macro_service.Kv.Store.{KvCodec, KvCommand}
use macro_service.Kv.Service.{Server, WriteResponse, write}
use macro_service.Startup.Boot.{boot}
use macro_service.Startup.MainLoop.{Loop, Turn, turn_loop}
use macro_service.Startup.Parts.{
  Election, new_election, Replication, replication_of, new_with_raft, KvServiceImpl,
}

-- `looping` is false once the task of the loop has panicked, and `stuck` is true while the task of a
-- call holds a lock on the state and waits for it again, where every other task waits for it too.
-- `successes` is `heartbeat_success_count` of the replication.
pub record Process (D : Type 0) : Type 0 where
  pub cells : Loop D
  pub changing : Bool
  pub looping : Bool
  pub stuck : Bool
  pub successes : ℕ

-- What comes from outside: the clock, the drawn timeout, and the answers of the other nodes.
pub record Outside : Type 0 where
  pub now : ℕ
  pub later : ℕ
  pub ms : ℕ
  pub pre_vote_rpc : Rpc VoteRequest VoteResponse
  pub rpc : Rpc VoteRequest VoteResponse
  pub timeout_rpc : String → ℕ → Option ℕ

-- A turn of the loop, a call of another node, a write of a client, and the spawned tasks that get the
-- answers to what a heartbeat has sent. `released` is the end of a call that is stuck, where its caller
-- has gone away and its task is dropped with its locks. A read of a client and a look at the metrics
-- leave the cells alone, and are no events.
pub data Event : Type 0 where
  turn : Outside → Event
  called : Outside → Call → Event
  written : Bool → ℕ → Bool → KvCommand → Event
  heard_append : ℕ → ℕ → AppendEntriesResponse → Event
  heard_snapshot : ℕ → ℕ → ℕ → InstallSnapshotResponse → Event
  released : Event

abbrev is_some {ℓ} : {A : Type ℓ} → Option A → Bool
is_some none = false
is_some (some a) = true

module _ {D : Type 0} where
  -- A turn in which no other task runs.
  abbrev pub solo : Outside → Node D → Turn D
  solo outside n = record {
    now = outside.now;
    later = outside.later;
    ms = outside.ms;
    pre_vote_rpc = outside.pre_vote_rpc;
    rpc = outside.rpc;
    logs_sent = λ i. n.log;
    logs_tried = λ i. n.log;
    after_role = λ m. m;
    after_pre_votes = λ m. m;
    election = Election.undisturbed;
    after_election = λ m. m;
    before_beat = λ m. m;
    after_beat = λ m. m;
    searching = λ m. m;
    before_apply = λ m. m;
    applying = λ m. m;
    applied = λ m. m;
    before_check = λ m. m;
    before_snapshot = λ m. m;
    snapshot = Snapshot.undisturbed;
  }

  -- A panic of the loop comes before it has written to the node.
  abbrev pub turned : Process D → ℕ → Option (Loop D) → Process D
  turned p count none = record p { looping = false; successes = count }
  turned p count (some cells) = record p { cells = cells; successes = count }

  abbrev pub with_service : RaftService D → Process D → Process D
  with_service s p = record p { cells = record p.cells { node = s.node }; changing = s.changing }

  -- A panic of such a task ends it before it has changed anything: both lists of indices have one length.
  abbrev pub heard : Process D → Option (RaftState × ℕ) → Process D
  heard p none = p
  heard p (some (s, count)) = record p {
    cells = record p.cells { node = record p.cells.node { state = s } };
    successes = count;
  }

  -- The count begins anew, with the leader itself, where a heartbeat goes out.
  abbrev pub beat_count : ℕ → Process D → ℕ
  beat_count now p =
      if is_leader p.cells.node.state.role
        && (is_some p.cells.node.state.leader_state && should_beat now p.cells.heartbeat)
      then 1
      else p.successes

  -- A panic of a handler ends its own task only.
  abbrev pub answered : Process D → Served D → Process D
  answered p (answers s r) = with_service s p
  answered p (hangs s) = record (with_service s p) { stuck = true }
  answered p (panics s) = with_service s p

  abbrev pub with_server : Server D → Process D → Process D
  with_server s p = record p { cells = record p.cells { node = s.node; pending = s.pending } }

  abbrev pub stored : Process D → Handled (Server D) WriteResponse → Process D
  stored p (returns s r) = with_server s p
  stored p (deadlocks s) = record (with_server s p) { stuck = true }

module _ {D : Type 0} (storage : Storage D) (codec : KvCodec) (address : Text → String)
    (config : NodeConfig) where
  -- The cells, and the flag of the `Membership` that the Raft service gets.
  unfoldable pub launch : ℕ → ℕ → D → Process D
  unfolding boot replication_of
  launch now ms disk =
      let cells = boot storage config now ms disk in
      record {
        cells = cells;
        changing = (new_service cells.node).changing;
        looping = true;
        stuck = false;
        successes = (replication_of address config).heartbeat_success_count;
      }

  abbrev parts : Election × Replication
  parts = (new_election address config, replication_of address config)

  unfoldable pub run_loop : Outside → Process D → Process D
  unfolding new_election replication_of turn_loop
  run_loop outside p =
      if p.looping
      then turned p (beat_count outside.now p) (
          turn_loop storage codec parts.0.peers parts.1.max_entries_per_append
            parts.1.snapshot_threshold (solo outside p.cells.node) p.cells)
      else p

  unfoldable pub run_call : Outside → Call → Process D → Process D
  unfolding new_election serve_call
  run_call outside call p = answered p (
      serve_call storage codec parts.0.peers
        (alone outside.now outside.ms outside.rpc outside.timeout_rpc) call
        (record { node = p.cells.node; changing = p.changing }))

  abbrev kv_service : Process D → KvServiceImpl D
  kv_service p = let n = p.cells.node in new_with_raft n.kv n.state n.log p.cells.pending storage

  unfoldable pub run_write : Bool → ℕ → Bool → KvCommand → Process D → Process D
  unfolding new_with_raft write
  run_write writer_waits notify woken cmd p = stored p (
      write storage codec (is_some (kv_service p).raft_state) writer_waits (λ s. s) notify woken cmd
        (record { node = p.cells.node; pending = p.cells.pending }))

  unfoldable pub run_append_answer : ℕ → ℕ → AppendEntriesResponse → Process D → Process D
  unfolding new_election on_append_response
  run_append_answer now peer_idx r p = heard p (
      on_append_response now (majority_of (length parts.1.peers)) peer_idx r p.cells.node.state
        p.successes)

  unfoldable pub run_snapshot_answer : ℕ → ℕ → ℕ → InstallSnapshotResponse → Process D → Process D
  unfolding new_election on_snapshot_response
  run_snapshot_answer now peer_idx index r p = heard p (
      on_snapshot_response now (majority_of (length parts.1.peers)) peer_idx index r
        p.cells.node.state p.successes)

  unfoldable pub handle_event : Event → Process D → Process D
  unfolding run_loop run_call run_write run_append_answer run_snapshot_answer
  handle_event (turn outside) p = run_loop outside p
  handle_event (called outside call) p = run_call outside call p
  handle_event (written writer_waits notify woken cmd) p = run_write writer_waits notify woken cmd p
  handle_event (heard_append now peer_idx r) p = run_append_answer now peer_idx r p
  handle_event (heard_snapshot now peer_idx index r) p = run_snapshot_answer now peer_idx index r p
  handle_event released p = p

  -- While a call is stuck. The handlers of the calls reset the election timer before they ask for the
  -- state; the loop, the writes and the answers ask for it first. What waits goes on after the release,
  -- as an event of its own.
  unfoldable pub handle_stuck : Event → Process D → Process D
  unfolding reset
  handle_stuck (called outside call) p =
      if restarts_timer call
      then record p {
        cells = record p.cells {
          node = record p.cells.node { timer = reset outside.now outside.ms p.cells.node.timer };
        };
      }
      else p
  handle_stuck released p = record p { stuck = false }
  handle_stuck _ p = p

  unfoldable pub run_event : Event → Process D → Process D
  unfolding handle_event handle_stuck
  run_event e p = if p.stuck then handle_stuck e p else handle_event e p

  unfoldable pub run_events : List Event → Process D → Process D
  unfolding run_event
  run_events [] p = p
  run_events (e ∷ es) p = run_events es (run_event e p)
