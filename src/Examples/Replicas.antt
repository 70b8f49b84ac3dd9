-- ===== src/Examples/Replicas.antt =====
-- The cluster of three again: node 1 wins, takes a command, and sends it to node 2.
use macro_service.Prelude.{
  ◌≤◌, ℕ, ◌≡◌, ◌≢◌, refl, inl, inr, Option, some, List, [], ◌∷◌, ◌++◌, arith, ◌+◌, ◌<◌, u64_mod,
}
use macro_service.Raft.Log.{
  LogEntry, get, append_one, last_index, new_entry, entries_from, match_entry, append, truncate,
}
use macro_service.Raft.Storage.{PersistentData}
use macro_service.Raft.State.{become_candidate, become_leader, leader, candidate}
use macro_service.Raft.Messages.{AppendEntriesRequest}
use macro_service.Raft.Election.{vote_request, finish_election, save_in_gap}
use macro_service.Raft.Replication
use macro_service.Raft.Replication.{
  Message, send_heartbeat, messages, message_for, append_request, heartbeat_of, term_at,
}
use macro_service.Raft.Rpc.{
  append_entries, accept_entries, store_entries, follow_leader, follow_commit,
}
use macro_service.Kv.Store.{KvCommand, put_command, serialize}
use macro_service.Kv.Service.{append_command}
use macro_service.Startup.{recover, start_from}
use macro_service.Cluster.{stand, Run, put, vote, stands, wins, proposes, appends}
use macro_service.Cluster.Replicas.{Net, Sent, IsFresh, Moves, step, beats, begin, later}
use macro_service.Cluster.Replicas.Matching.{log_matching, one_leader, leader_has}
use macro_service.Raft.Pending.{new_pending}
use macro_service.Raft.Replication.ApplyOrder.{applied}
use macro_service.Cluster.Replicas.Stores.{stores_agree}
use macro_service.Examples.Cluster.{peers}
use macro_service.Examples.ClusterRuns.{
  no_log, start, req, voter, grant, answers, members, voted, counted, memory-IsReliable, backed_run,
  won_run,
}
use macro_service.Examples.Disks.{memory}
use macro_service.Examples.Codecs.{small_codec}
use mathlib.Core.List.Permᴰ

abbrev put_x : KvCommand
put_x = put_command "x" (7 ∷ [])

abbrev asked : Run (Option PersistentData)
asked = put 1 (append_command memory small_codec put_x (won_run.nodes 1)).0 won_run

abbrev out : List Message
out = (send_heartbeat memory 10 peers (λ _. (asked.nodes 1).log) (asked.nodes 1)).0 ++ []

abbrev request : AppendEntriesRequest
request = record {
  term = 2;
  leader_id = 1;
  prev_log_index = 0;
  prev_log_term = 0;
  entries = new_entry 2 1 (serialize small_codec put_x) ∷ [];
  leader_commit = 0;
}

abbrev copied : Run (Option PersistentData)
copied = put 2 (append_entries memory 5 200 request (asked.nodes 2)).0 asked

abbrev last_net : Net (Option PersistentData)
last_net = record { run = copied; sent = out }

start-IsFresh : IsFresh memory start
unfolding recover start_from
start-IsFresh = record { node_id = λ i. refl; role = λ i. refl; log = λ i. refl; disk = λ i. refl }

one_two : ◌≢◌ {A = ℕ} 1 2
one_two e = omega arith

stood :
    ((backed_run.nodes 1).state.role ≡ candidate)
    × ((backed_run.nodes 1).state.persistent.current_term ≡ 2)
    × ((backed_run.nodes 1).state.node_id ≡ 1)
unfolding stand save_in_gap become_candidate
stood = (refl, refl, refl)

leads_now : (won_run.nodes 1).state.role ≡ leader
unfolding finish_election become_leader
leads_now = refl

has_room : last_index (won_run.nodes 1).log + 1 < u64_mod
unfolding finish_election become_leader stand save_in_gap become_candidate last_index
has_room = omega arith

goes_out : Sent (Replication.append_entries request) out
unfolding send_heartbeat messages message_for append_request heartbeat_of term_at append_command
    append_one serialize finish_election become_leader stand save_in_gap become_candidate last_index
    entries_from get
goes_out = inl refl

reached : Moves memory small_codec members start last_net
unfolding vote_request
reached =
    later
      (later
        (later
          (later
            (later (later begin (step (stands 1 (omega arith)) tt))
              (step (vote 2 req voter grant voted) tt))
            (step
              (wins 1 2 1 2 peers answers no_log (Permᴰ.refl members) refl
                (inr refl, (inl refl, tt)) counted (omega arith))
              stood))
          (step (proposes 1 put_x) (leads_now, has_room)))
        (beats 1 10 peers))
      (step (appends 2 5 200 request) (goes_out, one_two))

abbrev entry : LogEntry
entry = new_entry 2 1 (serialize small_codec put_x)

at_leader : get (copied.nodes 1).log 1 ≡ some entry
unfolding get append_command append_one finish_election become_leader stand save_in_gap
    become_candidate last_index serialize
at_leader = refl

at_follower : get (copied.nodes 2).log 1 ≡ some entry
unfolding get append_entries accept_entries store_entries match_entry follow_leader follow_commit
    append truncate serialize
at_follower = refl

leads_still : (copied.nodes 1).state.role ≡ leader
unfolding append_command finish_election become_leader
leads_still = refl

led_term : entry.term ≡ (copied.nodes 1).state.persistent.current_term
unfolding append_command finish_election become_leader stand save_in_gap become_candidate
led_term = refl

log_matching_example : get (copied.nodes 1).log 1 ≡ get (copied.nodes 2).log 1
log_matching_example =
    log_matching memory memory-IsReliable small_codec members start last_net 1 2 1 entry entry
      start-IsFresh reached at_leader at_follower refl 1 (omega arith)

one_leader_example : ◌≡◌ {A = ℕ} 1 1
one_leader_example =
    one_leader memory memory-IsReliable small_codec members start last_net 1 1 start-IsFresh reached
      leads_still leads_still refl

leader_has_example : get (copied.nodes 1).log 1 ≡ get (copied.nodes 2).log 1
leader_has_example =
    leader_has memory memory-IsReliable small_codec members start last_net 1 2 1 entry start-IsFresh
      reached leads_still at_follower led_term 1 (omega arith)

-- Both nodes begin with the empty store, and have applied nothing yet.
same_store : (copied.nodes 1).kv ≡ (copied.nodes 2).kv
unfolding append_command append_entries accept_entries finish_election become_leader stand
    save_in_gap become_candidate match_entry follow_leader follow_commit
same_store = refl

same_applied :
    (copied.nodes 1).state.volatile.last_applied ≡ (copied.nodes 2).state.volatile.last_applied
unfolding append_command append_entries accept_entries finish_election become_leader stand
    save_in_gap become_candidate follow_leader follow_commit match_entry
same_applied = refl

low : (copied.nodes 1).state.volatile.last_applied ≤ 1
unfolding append_command finish_election become_leader stand save_in_gap become_candidate
low = omega arith

stores_agree_example :
    (applied small_codec 1 (copied.nodes 1) new_pending).kv
    ≡ (applied small_codec 1 (copied.nodes 2) new_pending).kv
stores_agree_example =
    stores_agree memory memory-IsReliable small_codec members start last_net 1 2 1 entry entry
      new_pending new_pending start-IsFresh reached at_leader at_follower refl same_store
      same_applied low (omega arith)
