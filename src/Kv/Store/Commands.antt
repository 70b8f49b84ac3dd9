-- ===== src/Kv/Store/Commands.antt =====
-- store.rs: what the commands do to the map, as a client sees it.
use Prim.Native.String.{String}
use text.Mathlib.Text.{◌==◌}
use macro_service.Prelude.{ℕ, ◌≡◌, refl, Option, none, some, List, if◌then◌else◌}
use macro_service.Kv.Store.Map.{KvMap, lookup-insert, lookup-remove}
use macro_service.Kv.Store.{
  failed_to_deserialize, KvStore, get, put, delete, KvCommand, put_command, delete_command, KvCodec,
  ok, run_command, serialize, apply_command, snapshot, restore,
}

-- The abstract map: a command is an update at one key.
abbrev pub apply_to_view : KvCommand → (String → Option (List ℕ)) → String → Option (List ℕ)
apply_to_view (put_command key value) view k = if key == k then some value else view k
apply_to_view (delete_command key) view k = if key == k then none else view k

pub get-run_command :
    (c : KvCommand) (s : KvStore) (k : String) → get (run_command c s) k ≡ apply_to_view c (get s) k
unfolding run_command get put delete
get-run_command (put_command key value) s k = lookup-insert key k value s.entries
get-run_command (delete_command key) s k = lookup-remove key k s.entries

module _ (codec : KvCodec) where
  pub apply_command-eq :
      (c : KvCommand) (s : KvStore)
      → apply_command codec (serialize codec c) s ≡ (run_command c s, ok)
  unfolding apply_command serialize
  apply_command-eq c s = rw (codec.command_round_trip c, apply_command)

  -- A serialised command, applied, updates the map at its key and nowhere else.
  pub apply_command-serialize :
      (c : KvCommand) (s : KvStore)
      → ((apply_command codec (serialize codec c) s).1 ≡ ok)
        × ((k : String)
            → get (apply_command codec (serialize codec c) s).0 k ≡ apply_to_view c (get s) k)
  apply_command-serialize c s = rw (apply_command-eq c s) (refl, get-run_command c s)

  -- A serialised snapshot that was read, `n`, is what `restore` puts in place.
  pub restore-eq :
      (s t : KvStore) (bytes : List ℕ) (n : KvMap)
      → codec.map_to_vec s.entries ≡ some bytes
      → codec.map_from_slice bytes ≡ some n
      → restore codec (snapshot codec s) t ≡ (record { entries = n }, ok)
  unfolding restore snapshot
  restore-eq s t bytes n e read = rw (e, snapshot) (rw (read, restore))

  -- Restoring a snapshot, in any store, gives back the map that it was made of.
  pub restore-snapshot :
      (s t : KvStore) (bytes : List ℕ)
      → codec.map_to_vec s.entries ≡ some bytes
      → ((restore codec (snapshot codec s) t).1 ≡ ok)
        × ((k : String) → get (restore codec (snapshot codec s) t).0 k ≡ get s k)
  unfolding get
  restore-snapshot s t bytes e =
      let (n, read, same) = codec.map_round_trip s.entries bytes e in
      rw (restore-eq s t bytes n e read) (refl, same)

  -- Bytes that do not parse leave the store as it was, and are reported.
  pub garbage_keeps :
      (bytes : List ℕ) (s : KvStore)
      → (codec.command_from_slice bytes ≡ none
          → apply_command codec bytes s ≡ (s, failed_to_deserialize))
        × (codec.map_from_slice bytes ≡ none → restore codec bytes s ≡ (s, failed_to_deserialize))
  unfolding apply_command restore
  garbage_keeps bytes s = (λ h. rw (h, apply_command), λ h. rw (h, restore))
