-- ===== src/Startup/Process/Kept.antt =====
-- main.rs: the process of a node never lets its term fall, and never changes its vote.
use macro_service.Prelude.{
  ℕ, ◌+◌, ◌<◌, ◌≡◌, refl, Bool, Option, none, some, List, [], ◌∷◌, String, u64_mod, inl, inr,
  Bool-cases,
}
use macro_service.Config.{Text, NodeConfig}
use macro_service.Raft.State.{PersistentState, RaftState, is_leader}
use macro_service.Raft.Messages.{AppendEntriesResponse, InstallSnapshotResponse}
use macro_service.Raft.Replication.Heard.{
  MovesOn, on_append_response-MovesOn, on_snapshot_response-MovesOn,
}
use macro_service.Raft.State.Advances.{Advances, Advances-refl, Advances-trans}
use macro_service.Raft.Storage.{Storage}
use macro_service.Raft.Service.{RaftService, Call, Served, answers, hangs, panics, serve_call}
use macro_service.Raft.Service.Calls.{restarts_timer, alone, served, serve_call_keeps}
use macro_service.Kv.Store.{KvCodec, KvCommand}
use macro_service.Kv.Service.{write, append_command}
use macro_service.Startup.MainLoop.{Loop, turn_loop}
use macro_service.Startup.Parts.{new_election, replication_of, new_with_raft}
use macro_service.Startup.Process.{
  Process, Outside, Event, turn, called, written, heard_append, heard_snapshot, released, solo,
  turned, heard, beat_count, run_append_answer, run_snapshot_answer, answered, run_loop, run_call,
  run_write, handle_event, handle_stuck, run_event, run_events,
}
use macro_service.Startup.Process.Round.{MovesIn, turn_loop-MovesIn}

module _ {D : Type 0} where
  abbrev pub persistent_of : Process D → PersistentState
  persistent_of p = p.cells.node.state.persistent

  abbrev Keeps : Process D → Process D → Type 0
  Keeps p q = Advances (persistent_of p) (persistent_of q)

  answered-Keeps :
      (p : Process D) (r : Served D)
      → Advances (persistent_of p) (served r).node.state.persistent
      → Keeps p (answered p r)
  answered-Keeps p (answers s r) h = h
  answered-Keeps p (hangs s) h = h
  answered-Keeps p (panics s) h = h

module _ {D : Type 0} (storage : Storage D) (codec : KvCodec) (address : Text → String)
    (config : NodeConfig) where
  turned-Keeps :
      (p : Process D) (outside : Outside) (o : Option (Loop D))
      → MovesIn storage codec
          (new_election address config).peers
          outside
          p.cells.node
          p.cells.node
          o
      → Keeps p (turned p (beat_count outside.now p) o)
  turned-Keeps p outside none h = Advances-refl (persistent_of p)
  turned-Keeps p outside (some s) h = h

  run_loop-Keeps :
      (outside : Outside) (p : Process D)
      → (persistent_of p).current_term + 1 < u64_mod
      → Keeps p (run_loop storage codec address config outside p)
  unfolding run_loop
  run_loop-Keeps outside p room = elim (Bool-cases p.looping) [
    | inr ended ↦ rw ended (Advances-refl (persistent_of p))
    | inl goes ↦ simp goes (
        turned-Keeps p outside
          (turn_loop storage codec (new_election address config).peers
            (replication_of address config).max_entries_per_append
            (replication_of address config).snapshot_threshold (solo outside p.cells.node) p.cells)
          (turn_loop-MovesIn storage codec (new_election address config).peers outside p.cells.node
            (replication_of address config).max_entries_per_append
            (replication_of address config).snapshot_threshold p.cells room))
  ]

  run_call-Keeps :
      (outside : Outside) (call : Call) (p : Process D)
      → (persistent_of p).current_term + 1 < u64_mod
      → Keeps p (run_call storage codec address config outside call p)
  unfolding run_call
  run_call-Keeps outside call p room =
      let s : RaftService D = record { node = p.cells.node; changing = p.changing } in
      let peers = (new_election address config).peers in
      let around = alone outside.now outside.ms outside.rpc outside.timeout_rpc in
      answered-Keeps p (serve_call storage codec peers around call s) (
        (serve_call_keeps storage codec peers outside.now outside.ms outside.rpc outside.timeout_rpc
          call s room).0)

  run_write-persistent :
      (writer_waits : Bool) (notify : ℕ) (woken : Bool) (cmd : KvCommand) (p : Process D)
      → persistent_of (run_write storage codec address config writer_waits notify woken cmd p)
        ≡ persistent_of p
  unfolding run_write write append_command new_with_raft
  run_write-persistent writer_waits notify woken cmd p =
      elim (Bool-cases (is_leader p.cells.node.state.role)) [
        | inr other ↦ rw other refl
        | inl leads ↦ elim (Bool-cases writer_waits) [
          | inl waits ↦ rw (leads, waits) refl
          | inr free ↦ rw (leads, free) refl
        ]
      ]

  heard-Keeps :
      (p : Process D) (o : Option (RaftState × ℕ))
      → MovesOn p.cells.node.state o
      → Keeps p (heard p o)
  heard-Keeps p none h = Advances-refl (persistent_of p)
  heard-Keeps p (some (s, count)) h = h

  run_append_answer-Keeps :
      (now peer_idx : ℕ) (r : AppendEntriesResponse) (p : Process D)
      → Keeps p (run_append_answer storage codec address config now peer_idx r p)
  unfolding run_append_answer
  run_append_answer-Keeps now peer_idx r p =
      heard-Keeps p _ (on_append_response-MovesOn now _ peer_idx r p.cells.node.state p.successes)

  run_snapshot_answer-Keeps :
      (now peer_idx index : ℕ) (r : InstallSnapshotResponse) (p : Process D)
      → Keeps p (run_snapshot_answer storage codec address config now peer_idx index r p)
  unfolding run_snapshot_answer
  run_snapshot_answer-Keeps now peer_idx index r p =
      heard-Keeps p _
        (on_snapshot_response-MovesOn now _ peer_idx index r p.cells.node.state p.successes)

  handle_event-Keeps :
      (e : Event) (p : Process D)
      → (persistent_of p).current_term + 1 < u64_mod
      → Keeps p (handle_event storage codec address config e p)
  unfolding handle_event
  handle_event-Keeps (turn outside) p room = run_loop-Keeps outside p room
  handle_event-Keeps (called outside call) p room = run_call-Keeps outside call p room
  handle_event-Keeps (written writer_waits notify woken cmd) p room =
      rw (run_write-persistent writer_waits notify woken cmd p) (Advances-refl (persistent_of p))
  handle_event-Keeps (heard_append now peer_idx r) p room = run_append_answer-Keeps now peer_idx r p
  handle_event-Keeps (heard_snapshot now peer_idx index r) p room =
      run_snapshot_answer-Keeps now peer_idx index r p
  handle_event-Keeps released p room = Advances-refl (persistent_of p)

  handle_stuck-Keeps :
      (e : Event) (p : Process D) → Keeps p (handle_stuck storage codec address config e p)
  unfolding handle_stuck
  handle_stuck-Keeps (turn outside) p = Advances-refl (persistent_of p)
  handle_stuck-Keeps (called outside call) p = elim (Bool-cases (restarts_timer call)) [
    | inl resets ↦ rw resets (Advances-refl (persistent_of p))
    | inr other ↦ rw other (Advances-refl (persistent_of p))
  ]
  handle_stuck-Keeps (written writer_waits notify woken cmd) p = Advances-refl (persistent_of p)
  handle_stuck-Keeps (heard_append now peer_idx r) p = Advances-refl (persistent_of p)
  handle_stuck-Keeps (heard_snapshot now peer_idx index r) p = Advances-refl (persistent_of p)
  handle_stuck-Keeps released p = Advances-refl (persistent_of p)

  run_event-Keeps :
      (e : Event) (p : Process D)
      → (persistent_of p).current_term + 1 < u64_mod
      → Keeps p (run_event storage codec address config e p)
  unfolding run_event
  run_event-Keeps e p room = elim (Bool-cases p.stuck) [
    | inl stays ↦ simp stays (handle_stuck-Keeps e p)
    | inr free ↦ simp free (handle_event-Keeps e p room)
  ]

  -- Before each event the term is not the last of a `u64`.
  abbrev pub HasRoom : List Event → Process D → Type 0
  HasRoom [] p = Unit
  HasRoom (e ∷ es) p =
      ((persistent_of p).current_term + 1 < u64_mod)
      × HasRoom es (run_event storage codec address config e p)

  -- While the process of a node runs, whatever turns of its loop, calls of other nodes, writes of
  -- clients and answers to its heartbeats come, one after the other, and with panics, calls that are stuck
  -- and their release, the term of the node does not fall, and a vote is not changed within its term, if
  -- no term reaches the last of a `u64`.
  pub run_events-Advances :
      (es : List Event) (p : Process D)
      → HasRoom es p
      → Advances p.cells.node.state.persistent
          (run_events storage codec address config es p).cells.node.state.persistent
  unfolding run_events
  run_events-Advances [] p h = Advances-refl (persistent_of p)
  run_events-Advances (e ∷ es) p h =
      let q = run_event storage codec address config e p in
      Advances-trans (persistent_of p) (persistent_of q) _ (run_event-Keeps e p h.0)
        (run_events-Advances es q h.1)
