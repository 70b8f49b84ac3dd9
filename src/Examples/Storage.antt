-- ===== src/Examples/Storage.antt =====
-- The theorems on what is saved, at a file system of texts and a storage in memory.
use macro_service.Prelude.{
  ℕ, ◌≤◌, ◌≡◌, ◌≢◌, refl, Option, none, some, List, [], ◌∷◌, arith, String, leb, if◌then◌else◌, ap,
}
use macro_service.Raft.Log.{last_index, get}
use macro_service.Raft.Log.Valid.{IsValid}
use macro_service.Raft.Messages.{InstallSnapshotRequest}
use macro_service.Raft.Storage.{PersistentData}
use macro_service.Raft.Storage.File.{PersistentStorage, FilePath, temp_path, save}
use macro_service.Raft.Storage.File.Atomic.{Saved, save-Saved}
use macro_service.Raft.Node.{Node}
use macro_service.Raft.Rpc.{install_snapshot}
use macro_service.Raft.Rpc.Install.{install_snapshot_lem}
use macro_service.Raft.Replication.{term_at}
use macro_service.Raft.Replication.Snapshot.{undisturbed, ok, create_snapshot}
use macro_service.Raft.Replication.Compaction.{create_snapshot_keeps}
use macro_service.Kv.Store
use macro_service.Startup.Boot.{boot}
use macro_service.Startup.Restart.{boot-create_snapshot}
use macro_service.Raft.Replication.Apply.{apply_committed_entries}
use macro_service.Raft.Replication.Commit.{set_commit}
use macro_service.Kv.Store.{KvStore, KvCommand, put_command, serialize, new_store, snapshot}
use macro_service.Kv.Service.Replay.{replay}
use macro_service.Kv.Service.Logged.{Carries}
use macro_service.Kv.Service.Restored.{install_snapshot-replay}
use macro_service.Raft.Pending.{new_pending}
use macro_service.Raft.Replication.ApplyOrder.{applied}
use macro_service.Examples.Disks.{memory, texts, Texts, term_codec, term_data}
use macro_service.Examples.Codecs.{small_codec}
use macro_service.Examples.Cluster.{
  config, leader_node, follower_node, leader_log, follower_log, leader_log-IsValid,
  follower_log-IsValid,
}

abbrev file : PersistentStorage
file = record { path = record { data_dir = "data"; node_id = 1; file = "raft_state.json" } }

file_apart : temp_path file ≢ file.path
unfolding temp_path
file_apart e = cc (ap (λ (p : FilePath). p.file) e)

abbrev nothing : Texts
nothing = λ p. none

save-Saved_example :
    Saved texts term_codec file file_apart
      (term_data 5)
      nothing
      (save texts term_codec file (term_data 5) nothing)
save-Saved_example = save-Saved texts term_codec file file_apart (term_data 5) nothing

abbrev copied : KvStore
copied = record { entries = ("x", 7 ∷ []) ∷ [] }

abbrev copied_bytes : List ℕ
copied_bytes = 121 ∷ 0 ∷ 7 ∷ []

abbrev shipped : InstallSnapshotRequest
shipped = record {
  term = 2;
  leader_id = 1;
  last_included_index = 1;
  last_included_term = 1;
  content = copied_bytes;
}

content : copied_bytes ≡ snapshot small_codec copied
unfolding snapshot
content = refl

install_snapshot_lem_example :
    let n = (install_snapshot memory 0 200 small_codec shipped follower_node).0 in
    ((k : String) → Store.get n.kv k ≡ Store.get copied k)
    × IsValid n.log
    × (n.log.snapshot_last_index ≡ 1)
    × (n.log.snapshot_last_term ≡ 1)
    × ((i : ℕ) → get n.log i ≡ (if leb i 1 then none else get follower_log i))
    × (n.state.volatile.last_applied ≡ 1)
    × (1 ≤ n.state.volatile.commit_index)
    × (1 ≤ n.state.volatile.commit_index)
    × (n.state.persistent.current_term ≡ 2)
install_snapshot_lem_example =
    install_snapshot_lem memory 0 200 small_codec shipped follower_node copied copied_bytes
      follower_log-IsValid (omega arith) (omega arith) (omega arith) refl content

abbrev later : KvCommand
later = put_command "x" (8 ∷ [])

-- The follower after the snapshot, when one more entry has come.
abbrev behind_snapshot : Node (Option PersistentData)
behind_snapshot = record ((install_snapshot memory 0 200 small_codec shipped follower_node).0) {
  log = record {
    entries = record { term = 2; index = 2; command = serialize small_codec later } ∷ [];
    snapshot_last_index = 1;
    snapshot_last_term = 1;
  };
}

carried : Carries small_codec behind_snapshot.log 2 (some later ∷ [])
unfolding get
carried = (refl, tt)

install_snapshot-replay_example :
    Store.get (applied small_codec 2 behind_snapshot new_pending).kv "x"
    ≡ replay (later ∷ []) (Store.get copied) "x"
install_snapshot-replay_example =
    install_snapshot-replay memory small_codec 0 200 shipped follower_node behind_snapshot copied
      copied_bytes (some later ∷ []) new_pending follower_log-IsValid (omega arith) (omega arith)
      (omega arith) refl content refl refl carried "x"

abbrev after_snapshot : Node (Option PersistentData)
after_snapshot = (create_snapshot small_codec memory undisturbed leader_node).0

one_in_log : 1 ≤ last_index leader_log
unfolding last_index
one_in_log = omega arith

create_snapshot_keeps_example :
    IsValid after_snapshot.log
    × (after_snapshot.log.snapshot_last_index ≡ 1)
    × (after_snapshot.log.snapshot_last_term ≡ term_at leader_log 1)
    × (last_index after_snapshot.log ≡ last_index leader_log)
    × ((i : ℕ) → get after_snapshot.log i ≡ (if leb i 1 then none else get leader_log i))
    × (after_snapshot.state ≡ leader_node.state)
    × (after_snapshot.kv ≡ leader_node.kv)
create_snapshot_keeps_example =
    create_snapshot_keeps small_codec memory leader_node leader_log-IsValid (omega arith) one_in_log
      (omega arith)

snapshot_taken : (create_snapshot small_codec memory undisturbed leader_node).1 ≡ ok
unfolding create_snapshot
snapshot_taken = refl

boot-create_snapshot_example :
    let s = boot memory config 0 200 after_snapshot.disk in
    (s.node.log ≡ after_snapshot.log)
    × (s.node.kv ≡ new_store)
    × ((apply_committed_entries small_codec (λ m. m) (λ m. m) (set_commit 1 s.node) s.pending).0.kv
        ≡ new_store)
boot-create_snapshot_example =
    boot-create_snapshot memory config 0 200 small_codec leader_node (omega arith) (omega arith)
      snapshot_taken
