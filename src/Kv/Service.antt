-- ===== src/Kv/Service.antt =====
-- server-rust/src/kv/service.rs: the client requests. `with_raft` says whether the service was made
-- with the Raft parts, all of them as `new_with_raft` does, or with none (single node).
pub mod Propose
pub mod Replay
pub mod Logged
pub mod Restored
pub mod Read
use macro_service.Prelude.{
  ℕ, Bool, true, false, not, Option, none, some, List, [], ◌∷◌, add64, ltb, leb, ◌==◌,
  if◌then◌else◌, String,
}
use macro_service.Raft.Log.{LogStore, new_entry, last_index, append_one}
use macro_service.Raft.State.{RaftState, LeaderState, is_leader, lease_is_valid}
use macro_service.Raft.Storage.{Storage, from_state_and_log}
use macro_service.Raft.Node.{Node, Handled, returns, deadlocks}
use macro_service.Raft.Pending.{PendingRequests, register}
use macro_service.Kv.Store
use macro_service.Kv.Store.{KvStore, KvCommand, put_command, delete_command, KvCodec, serialize}

-- The node, and the requests that wait for a commit.
pub record Server (D : Type 0) : Type 0 where
  pub node : Node D
  pub pending : PendingRequests

pub record GetResponse : Type 0 where
  pub found : Bool
  pub value : List ℕ
  pub error : String
  pub leader_hint : ℕ

-- `PutResponse` and `DeleteResponse`
pub record WriteResponse : Type 0 where
  pub success : Bool
  pub error : String
  pub leader_hint : ℕ

abbrev pub hint : Option ℕ → ℕ
hint none = 0
hint (some id) = id

-- The `match` on `store.get`.
unfoldable pub read_store : String → KvStore → GetResponse
unfolding Store.get
read_store key kv = elim (Store.get kv key) [
  | some value ↦ record { found = true; value = value; error = ""; leader_hint = 0 }
  | none ↦ record { found = false; value = []; error = ""; leader_hint = 0 }
]

-- The polls of `wait_for_apply`: each reads `last_applied`, and the milliseconds since the start.
-- `none` means that the wait goes on after the polls given.
unfoldable pub poll : ℕ → List (ℕ × ℕ) → Option Bool
poll target_index [] = none
poll target_index ((last_applied, elapsed) ∷ polls) =
    let rest = poll target_index polls in
    if leb target_index last_applied
    then some true
    else if ltb 5000 elapsed
    then some false
    else rest

unfoldable pub wait_for_apply : ℕ → List (ℕ × ℕ) → Option Bool
unfolding poll
wait_for_apply target_index polls = if target_index == 0 then some true else poll target_index polls

-- Step 5 of `get`, after the wait.
unfoldable pub finish_get : String → KvStore → Option Bool → Option GetResponse
unfolding read_store
finish_get key kv none = none
finish_get key kv (some true) = some (read_store key kv)
finish_get key kv (some false) =
    some
      (record { found = false; value = []; error = "timeout waiting for apply"; leader_hint = 0 })

unfoldable pub holds_lease : ℕ → Option LeaderState → Bool
unfolding lease_is_valid
holds_lease now none = false
holds_lease now (some ls) = lease_is_valid now ls.lease

-- `get`: the state is read in `n`, and the store, later, is `kv`.
unfoldable pub get :
    {D : Type 0} → Bool → ℕ → List (ℕ × ℕ) → KvStore → String → Node D → Option GetResponse
unfolding finish_get wait_for_apply holds_lease
get with_raft now polls kv key n =
    if not with_raft
    then some (read_store key kv)
    else if not (is_leader n.state.role)
    then some (record {
      found = false;
      value = [];
      error = "not leader";
      leader_hint = hint n.state.leader_id;
    })
    else if holds_lease now n.state.leader_state
    then some (read_store key kv)
    else finish_get key kv (wait_for_apply n.state.volatile.commit_index polls)

abbrev pub accepted : WriteResponse
accepted = record { success = true; error = ""; leader_hint = 0 }

abbrev pub timed_out : WriteResponse
timed_out = record { success = false; error = "timeout waiting for commit"; leader_hint = 0 }

-- The single-node writes.
unfoldable pub write_single : KvCommand → KvStore → KvStore × WriteResponse
unfolding Store.put Store.delete
write_single (put_command key value) kv = (Store.put key value kv, accepted)
write_single (delete_command key) kv =
    let (kv', deleted) = Store.delete key kv in
    (kv', record { success = deleted; error = ""; leader_hint = 0 })

module _ {D : Type 0} (storage : Storage D) (codec : KvCodec) where
  -- The entry of a command goes to the end of the log, and the log is saved.
  unfoldable pub append_command : KvCommand → Node D → Node D × ℕ
  unfolding serialize append_one from_state_and_log
  append_command cmd n =
      let index = add64 (last_index n.log) 1 in
      let entry = new_entry n.state.persistent.current_term index (serialize codec cmd) in
      let log = (append_one n.log entry).0 in
      (
        record n {
          log = log;
          disk = (storage.save (from_state_and_log n.state.persistent log) n.disk).0;
        },
        index,
      )

  -- `put` and `delete`. While it holds a read lock on the state the handler asks for another: where a
  -- writer waits in between (`writer_waits`) the lock is not given, and both wait for ever. `between`
  -- is what runs until the request is registered under the notify `notify`, and `woken` says whether
  -- it is woken within five seconds.
  unfoldable pub write :
      Bool
      → Bool
      → (Server D → Server D)
      → ℕ
      → Bool
      → KvCommand
      → Server D
      → Handled (Server D) WriteResponse
  unfolding append_command write_single register
  write with_raft writer_waits between notify woken cmd s =
      if not with_raft
      then (let (kv, response) = write_single cmd s.node.kv in
          returns (record s { node = record s.node { kv = kv } }) response)
      else if not (is_leader s.node.state.role)
      then returns s (record {
        success = false;
        error = "not leader";
        leader_hint = hint s.node.state.leader_id;
      })
      else if writer_waits
      then deadlocks (record s {
        node = record s.node {
          log =
              (append_one s.node.log (
                new_entry s.node.state.persistent.current_term (add64 (last_index s.node.log) 1)
                  (serialize codec cmd))).0;
        };
      })
      else (let (node, index) = append_command cmd s.node in
          let t = between (record s { node = node }) in
          returns (record t { pending = register index notify t.pending })
            (if woken then accepted else timed_out))
