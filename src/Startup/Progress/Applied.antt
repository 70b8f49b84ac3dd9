-- ===== src/Startup/Progress/Applied.antt =====
-- main.rs over replication.rs, pending.rs and store.rs: what a leader's turn means to the clients.
use macro_service.Prelude.{
  ℕ, ◌+◌, ◌-◌, ◌≤◌, ◌<◌, ◌≡◌, refl, ap, ◌∙◌, true, Option, none, some, List, arith, u64_mod, length,
  ◌⊎◌, inl, inr, String, le-or-lt,
}
use macro_service.Raft.Log.{last_index}
use macro_service.Raft.Messages.{VoteRequest, VoteResponse}
use macro_service.Raft.State.{LeaderState, is_leader}
use macro_service.Raft.Storage.{Storage}
use macro_service.Raft.Timer.{should_beat}
use macro_service.Raft.Election.{Rpc, Peers}
use macro_service.Raft.Pending.{PendingRequests, notify_committed}
use macro_service.Raft.Pending.Waiting.{waiting, IsIn, woken-notify_committed}
use macro_service.Raft.Replication.Apply.{apply_range}
use macro_service.Raft.Replication.CommitRule.{Committable}
use macro_service.Kv.Store
use macro_service.Kv.Store.{KvCodec, KvCommand}
use macro_service.Kv.Service.Replay.{replay}
use macro_service.Kv.Service.Logged.{Carries, commands_of, apply_range-Carries}
use macro_service.Startup.MainLoop.{Loop, turn_loop}
use macro_service.Startup.Progress.{quiet, turn_loop_lem}

-- Whoever waits for the index `j` is woken, if it is at most `c`.
abbrev pub Woken : Option ℕ → ℕ → ℕ → List ℕ → Type 0
Woken none j c woken = Unit
Woken (some t) j c woken = (c < j) ⊎ IsIn t woken

notify_committed-Woken :
    (p : PendingRequests) (c j : ℕ) (o : Option ℕ)
    → waiting p j ≡ o
    → Woken o j c (notify_committed c p).1
notify_committed-Woken p c j none e = tt
notify_committed-Woken p c j (some t) e = elim (le-or-lt j c) [
  | inl low ↦ inr (woken-notify_committed p c j t e low)
  | inr high ↦ inl high
]

module _ {D : Type 0} (storage : Storage D) (codec : KvCodec) (peers : Peers)
    (max_entries threshold now ms : ℕ) (rpc : Rpc VoteRequest VoteResponse) (s : Loop D) where
  -- A leader's turn with no other task at work, at the time of its heartbeat and with an index for each
  -- peer, where a majority has acknowledged the whole log, which ends with an entry of the leader's term,
  -- and where the entries behind last_applied have the commands `cs` of clients, or none: all of the log
  -- is committed and applied, the store then answers at each key as the clients' map does after these
  -- commands in their order, and whoever waits for an index of the log is woken.
  pub turn_loop-progress :
      (ls : LeaderState) (cs : List (Option KvCommand)) (j : ℕ) (k : String)
      → is_leader s.node.state.role ≡ true
      → s.node.state.leader_state ≡ some ls
      → should_beat now s.heartbeat ≡ true
      → length peers < length ls.next_index
      → length peers < length ls.match_index
      → s.node.state.volatile.last_applied ≤ s.node.state.volatile.commit_index
      → s.node.state.volatile.commit_index < last_index s.node.log
      → last_index s.node.log + 1 < u64_mod
      → Committable s.node.state.persistent.current_term peers ls.match_index
          (λ i. s.node.log)
          (last_index s.node.log)
      → s.node.state.volatile.last_applied + length cs ≡ last_index s.node.log
      → Carries codec s.node.log (s.node.state.volatile.last_applied + 1) cs
      → (s' : Loop D) × (turn_loop storage codec peers max_entries threshold
            (quiet storage codec peers now ms rpc s.node.log)
            s
          ≡ some s')
        × (s'.node.state.volatile.commit_index ≡ last_index s.node.log)
        × (s'.node.state.volatile.last_applied ≡ last_index s.node.log)
        × (Store.get s'.node.kv k ≡ replay (commands_of cs) (Store.get s.node.kv) k)
        × Woken (waiting s.pending j) j (last_index s.node.log) s'.woken
  turn_loop-progress ls cs j k leads here due nexts matches applied_low behind room rule size
        carried =
      let a = s.node.state.volatile.last_applied in
      let top = last_index s.node.log in
      let (s', goes, commits, applies, kv, wakes) =
        turn_loop_lem storage codec peers max_entries threshold now ms rpc s ls leads here due nexts
          matches applied_low behind room rule in
      let rounds : top - a ≡ length cs = omega (arith, size) in
      (
        s',
        goes,
        commits,
        applies,
        ap (λ x. Store.get x k)
              (kv ∙ ap (λ r. apply_range codec s.node.log (a + 1) r s.node.kv) rounds)
            ∙ apply_range-Carries codec s.node.log (a + 1) cs s.node.kv carried k,
        rw wakes (notify_committed-Woken s.pending top j (waiting s.pending j) refl),
      )
