-- ===== src/Examples/Requests.antt =====
-- The theorems on commands, requests and waiting, at small stores.
use macro_service.Prelude.{
  ℕ, ◌+◌, ◌≡◌, ◌⊎◌, inl, inr, refl, true, false, Option, some, List, [], ◌∷◌, arith,
}
use macro_service.Raft.Log.{last_index}
use macro_service.Raft.Node.{Node}
use macro_service.Raft.Storage.{PersistentData}
use macro_service.Raft.Pending.{PendingRequests, new_pending}
use macro_service.Raft.Replication.ApplyOrder.{applied, applied-applied}
use macro_service.Kv.Store
use macro_service.Kv.Store.{
  KvStore, KvCommand, put_command, delete_command, ok, apply_command, serialize, restore, snapshot,
}
use macro_service.Kv.Service.{get, GetResponse, read_store, holds_lease}
use macro_service.Kv.Service.Replay.{appended, replay, writes_replayed}
use macro_service.Kv.Service.Read.{Reached, RanOut, get_reads, get_answers}
use macro_service.Examples.Disks.{memory}
use macro_service.Examples.Codecs.{small_codec}
use macro_service.Examples.Cluster.{leader_node, leader_log, leader_log-IsValid}
use macro_service.Kv.Store.Map.{lookup}

abbrev put_x : KvCommand
put_x = put_command "x" (7 ∷ [])

abbrev store_y : KvStore
store_y = record { entries = ("y", 1 ∷ []) ∷ [] }

-- The leader with its whole log applied.
abbrev caught_up : Node (Option PersistentData)
caught_up = record (leader_node) {
  state = record (leader_node.state) { volatile = record { commit_index = 3; last_applied = 3 } };
}

last_is_three : 3 ≡ last_index leader_log
unfolding last_index
last_is_three = refl

-- The client puts a key and deletes it again; a peer has the leader's log.
abbrev commands : List KvCommand
commands = put_x ∷ delete_command "x" ∷ put_command "y" (2 ∷ []) ∷ []

abbrev peer : Node (Option PersistentData)
peer = record (caught_up) { log = (appended memory small_codec commands caught_up).log }

writes_replayed_example :
    Store.get (applied small_codec (last_index leader_log + 3) peer new_pending).kv "y"
    ≡ replay commands (Store.get caught_up.kv) "y"
writes_replayed_example =
    writes_replayed memory small_codec commands caught_up peer new_pending leader_log-IsValid
      (omega (arith, last_is_three)) last_is_three refl (λ i low high. refl) "y"

applied-applied_example :
    applied small_codec 3 (applied small_codec 2 leader_node new_pending) new_pending
    ≡ applied small_codec 3 leader_node new_pending
applied-applied_example =
    applied-applied small_codec leader_node 2 3 new_pending new_pending new_pending (omega arith)
      (omega arith) (omega arith)

abbrev two_waiting : PendingRequests
two_waiting = record { requests = (2, 10) ∷ (4, 11) ∷ [] }

-- The second poll sees the index applied.
abbrev polls : List (ℕ × ℕ)
polls = (0, 10) ∷ (1, 20) ∷ (1, 5001) ∷ []

abbrev read_y : GetResponse
read_y = record { found = true; value = 1 ∷ []; error = ""; leader_hint = 0 }

answer : get true 9 polls store_y "y" leader_node ≡ some read_y
unfolding get lookup
answer = refl

ran_out : RanOut polls
ran_out = inr (inr (inl (omega arith)))

get_reads_example :
    ((read_y ≡ read_store "y" store_y)
      × (true ≡ true)
      × ((holds_lease 9 leader_node.state.leader_state ≡ true)
          ⊎ (leader_node.state.volatile.commit_index ≡ 0)
          ⊎ Reached 1 polls))
    ⊎ ((read_y.error ≡ "not leader") × (true ≡ false))
    ⊎ ((read_y.error ≡ "timeout waiting for apply") × (¬ Reached 1 polls))
get_reads_example = get_reads 9 polls store_y "y" leader_node read_y answer

get_answers_example : (r : GetResponse) × (get true 9 polls store_y "y" leader_node ≡ some r)
get_answers_example = get_answers 9 polls store_y "y" leader_node ran_out
