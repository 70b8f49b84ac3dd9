-- ===== src/Kv/Service/Logged.antt =====
-- replication.rs and store.rs together: a part of the log and the commands that clients have put there.
use macro_service.Prelude.{
  ℕ, ◌+◌, ◌≡◌, refl, ap, ◌∙◌, Option, none, some, List, [], ◌∷◌, length, is_empty, String,
  if◌then◌else◌,
}
use macro_service.Raft.Log.{LogEntry, LogStore, get}
use macro_service.Raft.Replication.Apply.{apply_range, apply_entry}
use macro_service.Kv.Store
use macro_service.Kv.Store.{KvStore, KvCommand, KvCodec, serialize, run_command, apply_command}
use macro_service.Kv.Store.Commands.{apply_command-eq, get-run_command}
use macro_service.Kv.Service.Replay.{View, replay, replay_agree}

-- The map of the clients after the commands `cs`; `none` stands for an entry without a command.
abbrev pub commands_of : List (Option KvCommand) → List KvCommand
commands_of [] = []
commands_of (none ∷ cs) = commands_of cs
commands_of (some c ∷ cs) = c ∷ commands_of cs

module _ (codec : KvCodec) where
  abbrev bytes_of : Option KvCommand → List ℕ
  bytes_of none = []
  bytes_of (some c) = serialize codec c

  -- The entry is there, and has the command.
  abbrev Holds : Option LogEntry → Option KvCommand → Type 0
  Holds none c = ⊥
  Holds (some e) c = e.command ≡ bytes_of c

  -- The entries from the index `i` on have the commands, in their order.
  abbrev pub Carries : LogStore → ℕ → List (Option KvCommand) → Type 0
  Carries log i [] = Unit
  Carries log i (c ∷ cs) = Holds (get log i) c × Carries log (i + 1) cs

  apply_bytes :
      (c : KvCommand) (bytes : List ℕ) (kv : KvStore)
      → bytes ≡ serialize codec c
      → (if is_empty bytes then kv else (apply_command codec bytes kv).0) ≡ run_command c kv
  unfolding serialize
  apply_bytes c [] kv e = absurd (cc (codec.command_round_trip c, codec.command_from_empty))
  apply_bytes c (b ∷ bytes) kv e = rw e (ap (λ r. r.0) (apply_command-eq codec c kv))

  apply_entry-Holds :
      (o : Option LogEntry) (c : Option KvCommand) (kv : KvStore)
      → Holds o c
      → (k : String)
      → Store.get (apply_entry codec o kv) k ≡ replay (commands_of (c ∷ [])) (Store.get kv) k
  unfolding apply_entry
  apply_entry-Holds none c kv h k = absurd h
  apply_entry-Holds (some e) none kv h k = rw h refl
  apply_entry-Holds (some e) (some c) kv h k =
      ap (λ s. Store.get s k) (apply_bytes c e.command kv h) ∙ get-run_command c kv k

  replay-commands_of :
      (c : Option KvCommand) (cs : List (Option KvCommand)) (v : View) (k : String)
      → replay (commands_of cs) (replay (commands_of (c ∷ [])) v) k
        ≡ replay (commands_of (c ∷ cs)) v k
  replay-commands_of none cs v k = refl
  replay-commands_of (some c) cs v k = refl

  -- Applying a part of the log brings the store to where the commands there bring the map.
  pub apply_range-Carries :
      (log : LogStore) (i : ℕ) (cs : List (Option KvCommand)) (kv : KvStore)
      → Carries log i cs
      → (k : String)
      → Store.get (apply_range codec log i (length cs) kv) k
        ≡ replay (commands_of cs) (Store.get kv) k
  unfolding apply_range
  apply_range-Carries log i [] kv h k = refl
  apply_range-Carries log i (c ∷ cs) kv h k =
      let one = apply_entry codec (get log i) kv in
      apply_range-Carries log (i + 1) cs one h.1 k
      ∙ (replay_agree (commands_of cs) (Store.get one)
            (replay (commands_of (c ∷ [])) (Store.get kv)) (apply_entry-Holds (get log i) c kv h.0)
            k
          ∙ replay-commands_of c cs (Store.get kv) k)
