-- ===== src/Examples/Turns.antt =====
-- A turn of a leader whose whole log one of two peers has acknowledged.
use macro_service.Prelude.{◌≡◌, refl, true, none, some, [], ◌∷◌, arith, Option}
use macro_service.Raft.Log.{LogStore, last_index, get}
use macro_service.Raft.Timer.{should_beat}
use macro_service.Raft.Replication.{term_at}
use macro_service.Raft.Replication.CommitRule.{Committable}
use macro_service.Raft.Storage.{PersistentData}
use macro_service.Kv.Store
use macro_service.Kv.Store.{KvCommand, put_command, serialize}
use macro_service.Kv.Service.Replay.{replay}
use macro_service.Kv.Service.Logged.{Carries}
use macro_service.Startup.MainLoop.{Loop, turn_loop}
use macro_service.Startup.Progress.{quiet}
use macro_service.Startup.Progress.Applied.{Woken, turn_loop-progress}
use macro_service.Examples.Cluster.{leader_node, leader_indices, peers}
use macro_service.Examples.Disks.{memory}
use macro_service.Examples.Codecs.{small_codec}

-- Two writes of one key, behind the entry that is applied.
abbrev first : KvCommand
first = put_command "x" (7 ∷ [])

abbrev second : KvCommand
second = put_command "x" (8 ∷ [])

abbrev written_log : LogStore
written_log = record {
  entries =
      record { term = 1; index = 1; command = [] }
      ∷ record { term = 2; index = 2; command = serialize small_codec first }
      ∷ record { term = 2; index = 3; command = serialize small_codec second }
      ∷ [];
  snapshot_last_index = 0;
  snapshot_last_term = 0;
}

-- Somebody waits for the last index.
abbrev before : Loop (Option PersistentData)
before = record {
  node = record leader_node { log = written_log };
  heartbeat = record { interval = 50; last_beat = 0 };
  pending = record { requests = (3, 77) ∷ [] };
  sent = [];
  woken = [];
}

due : should_beat 60 before.heartbeat ≡ true
unfolding should_beat
due = refl

acknowledged : Committable 2 peers leader_indices.match_index (λ i. written_log) 3
unfolding term_at get
acknowledged = (refl, omega arith)

carried : Carries small_codec written_log 2 (some first ∷ some second ∷ [])
unfolding get
carried = (refl, (refl, tt))

turn_loop-progress_example :
    (s' : Loop (Option PersistentData)) × (turn_loop memory small_codec peers 100 1000
        (quiet memory small_codec peers 60 200 (λ addr req. none) written_log)
        before
      ≡ some s')
    × (s'.node.state.volatile.commit_index ≡ last_index written_log)
    × (s'.node.state.volatile.last_applied ≡ last_index written_log)
    × (Store.get s'.node.kv "x" ≡ replay (first ∷ second ∷ []) (Store.get leader_node.kv) "x")
    × Woken (some 77) 3 (last_index written_log) s'.woken
unfolding last_index
turn_loop-progress_example =
    turn_loop-progress memory small_codec peers 100 1000 60 200 (λ addr req. none) before
      leader_indices (some first ∷ some second ∷ []) 3 "x" refl refl due (omega arith) (omega arith)
      (omega arith) (omega arith) (omega arith) acknowledged refl carried
