-- ===== src/Kv/Store.antt =====
-- server-rust/src/kv/store.rs: the map that the committed commands build. The map is an association
-- list with one entry for a key; the code never iterates over it. serde_json is a parameter.
pub mod Map
pub mod Commands
use Prim.Native.String.{String}
use macro_service.Prelude.{◌≡◌, ℕ, Bool, true, false, Option, none, some, List, []}
use macro_service.Kv.Store.Map.{KvMap, lookup, insert, remove}

pub record KvStore : Type 0 where
  pub entries : KvMap

-- `KVStore::new`
abbrev pub new_store : KvStore
new_store = record { entries = [] }

unfoldable pub get : KvStore → String → Option (List ℕ)
get s key = lookup key s.entries

unfoldable pub put : String → List ℕ → KvStore → KvStore
put key value s = record s { entries = insert key value s.entries }

abbrev is_some {ℓ} : {A : Type ℓ} → Option A → Bool
is_some (some a) = true
is_some none = false

-- The new store, and whether the key was there.
unfoldable pub delete : String → KvStore → KvStore × Bool
delete key s = (record s { entries = remove key s.entries }, is_some (lookup key s.entries))

pub data KvCommand : Type 0 where
  put_command : String → List ℕ → KvCommand
  delete_command : String → KvCommand

-- serde_json on commands and on the map. What it prints it reads back, a map up to the order of its
-- entries; no value is printed as the empty text, and that text does not parse.
pub record KvCodec : Type 0 where
  pub command_to_vec : KvCommand → List ℕ
  pub command_from_slice : List ℕ → Option KvCommand
  pub command_round_trip : (c : KvCommand) → command_from_slice (command_to_vec c) ≡ some c
  pub command_from_empty : command_from_slice [] ≡ none
  pub map_to_vec : KvMap → Option (List ℕ)
  pub map_from_slice : List ℕ → Option KvMap
  pub map_round_trip :
      (m : KvMap) (bytes : List ℕ)
      → map_to_vec m ≡ some bytes
      → (n : KvMap) × (map_from_slice bytes ≡ some n) × ((k : String) → lookup k n ≡ lookup k m)

-- `Err` carries a message, which the callers only log.
pub data Outcome : Type 0 where
  ok failed_to_deserialize : Outcome

-- The effect of a command that was read.
unfoldable pub run_command : KvCommand → KvStore → KvStore
unfolding put delete
run_command (put_command key value) s = put key value s
run_command (delete_command key) s = (delete key s).0

module _ (codec : KvCodec) where
  -- `KVCommand::serialize`
  unfoldable pub serialize : KvCommand → List ℕ
  serialize = codec.command_to_vec

  unfoldable pub apply_command : List ℕ → KvStore → KvStore × Outcome
  unfolding run_command
  apply_command command s = elim (codec.command_from_slice command) [
    | some cmd ↦ (run_command cmd s, ok)
    | none ↦ (s, failed_to_deserialize)
  ]

  -- `unwrap_or_default`
  unfoldable pub snapshot : KvStore → List ℕ
  snapshot s = elim (codec.map_to_vec s.entries) [ some bytes ↦ bytes | none ↦ [] ]

  unfoldable pub restore : List ℕ → KvStore → KvStore × Outcome
  restore bytes s = elim (codec.map_from_slice bytes) [
    | some m ↦ (record s { entries = m }, ok)
    | none ↦ (s, failed_to_deserialize)
  ]
