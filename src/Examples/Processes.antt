-- ===== src/Examples/Processes.antt =====
-- The process of node 2: it waits until its election is due, hears of a newer leader, refuses
-- a write, and gets an old answer from a node of a newer term.
use macro_service.Prelude.{ℕ, Option, none, List, [], ◌∷◌, arith, String, true, false}
use macro_service.Config.{Text}
use macro_service.Raft.State.Advances.{Advances}
use macro_service.Raft.Storage.{PersistentData}
use macro_service.Raft.Messages.{VoteRequest, VoteResponse, AppendEntriesRequest}
use macro_service.Raft.Election.{Rpc}
use macro_service.Raft.Service
use macro_service.Kv.Store.{put_command}
use macro_service.Startup.Process.{
  Process, Outside, Event, turn, called, written, heard_append, launch, run_events, run_event,
}
use macro_service.Startup.Process.Kept.{HasRoom, run_events-Advances}
use macro_service.Raft.Log
use macro_service.Raft.State.{new_state, become_follower}
use macro_service.Raft.Timer.{new_timer, reset, is_expired}
use macro_service.Raft.Election.{start_election, count_votes}
use macro_service.Raft.Replication.Apply.{apply_committed_entries}
use macro_service.Raft.Replication.Snapshot.{should_snapshot}
use macro_service.Raft.Rpc.{append_entries, follow_leader}
use macro_service.Raft.Service.{serve_call}
use macro_service.Startup.{recover, start_from}
use macro_service.Startup.Boot.{boot}
use macro_service.Startup.MainLoop.{turn_loop, follow, settle}
use macro_service.Startup.Parts.{
  new_election, new_replication, replication_of, with_pending_requests, with_storage, with_kv_store,
  addresses,
}
use macro_service.Startup.Process.{handle_event, run_loop, run_call}
use macro_service.Examples.Cluster.{config}
use macro_service.Examples.Disks.{memory}
use macro_service.Examples.Codecs.{small_codec}

abbrev silent : Rpc VoteRequest VoteResponse
silent addr asked = none

abbrev at : ℕ → Outside
at now = record {
  now = now;
  later = now;
  ms = 200;
  pre_vote_rpc = silent;
  rpc = silent;
  timeout_rpc = λ addr term. none;
}

abbrev address : Text → String
address text = "c:50051"

abbrev beat : AppendEntriesRequest
beat = record {
  term = 3;
  leader_id = 1;
  prev_log_index = 0;
  prev_log_term = 0;
  entries = [];
  leader_commit = 0;
}

abbrev events : List Event
events =
    turn (at 300)
    ∷ called (at 310) (Service.append beat)
    ∷ written false 0 true (put_command "x" (7 ∷ []))
    ∷ heard_append 320 1 (record { term = 4; success = false; match_index = 0 })
    ∷ []

abbrev launched : Process (Option PersistentData)
launched = launch memory small_codec address config 0 200 none

has_room : HasRoom memory small_codec address config events launched
unfolding launch boot recover start_from new_state run_event handle_event run_loop run_call
    turn_loop follow settle start_election count_votes apply_committed_entries should_snapshot
    is_expired reset serve_call append_entries follow_leader become_follower new_timer
    Log.match_entry Log.should_snapshot new_election replication_of new_replication
    with_pending_requests with_storage with_kv_store addresses
has_room = (omega arith, (omega arith, (omega arith, (omega arith, tt))))

run_events-Advances_example :
    Advances launched.cells.node.state.persistent
      (run_events memory small_codec address config events launched).cells.node.state.persistent
run_events-Advances_example =
    run_events-Advances memory small_codec address config events launched has_room
