-- ===== src/Kv/Service/Propose.antt =====
-- service.rs, replication.rs and store.rs together: a write goes through the log into the store.
use macro_service.Prelude.{
  ℕ, ◌+◌, ◌-◌, ◌≤◌, ◌<◌, ◌≡◌, refl, some, [], ◌∷◌, arith, u64_mod, add64, leb, if◌then◌else◌,
  get_elem?, ◌≢◌, is_empty, ap, ◌∙◌, zero, suc, sym, String, List,
}
use macro_service.Raft.Log.{LogEntry, LogStore, new_entry, last_index, get, append, append_one}
use macro_service.Raft.Log.Valid.{IsValid, append_one-IsValid}
use macro_service.Raft.Log.View.{get-append}
use macro_service.Raft.Storage.{Storage}
use macro_service.Raft.Node.{Node}
use macro_service.Kv.Store
use macro_service.Kv.Store.{KvCommand, KvCodec, serialize, KvStore, run_command, apply_command}
use macro_service.Kv.Service.{append_command}
use macro_service.Raft.Pending.{PendingRequests}
use macro_service.Raft.State.{RaftState}
use macro_service.Raft.Replication.Apply.{apply_range, apply_entry}
use macro_service.Raft.Replication.ApplyOrder.{applied, applied-eq}
use macro_service.Kv.Store.Commands.{apply_command-eq, apply_to_view, get-run_command}

get-append_one :
    (l : LogStore) (e : LogEntry) (i : ℕ)
    → IsValid l
    → get (append_one l e).0 i
      ≡ (if leb i (last_index l) then get l i else get_elem? (e ∷ []) (i - last_index l - 1))
unfolding append_one
get-append_one l e i v = unfold append in get-append l (e ∷ []) i v

module _ {D : Type 0} (storage : Storage D) (codec : KvCodec) (cmd : KvCommand) (n : Node D) where
  abbrev entry : LogEntry
  entry = new_entry n.state.persistent.current_term (last_index n.log + 1) (serialize codec cmd)

  -- A write adds one entry behind the log, with the leader's term and the command, and changes no
  -- other; the log stays valid, and the index is the one of the entry.
  pub append_command_lem :
      IsValid n.log
      → last_index n.log + 1 < u64_mod
      → let (n', index) = append_command storage codec cmd n in
        IsValid n'.log
        × (index ≡ last_index n.log + 1)
        × (get n'.log index ≡ some entry)
        × ((i : ℕ) → i ≤ last_index n.log → get n'.log i ≡ get n.log i)
  unfolding append_command
  append_command_lem v room =
      let next : add64 (last_index n.log) 1 ≡ last_index n.log + 1 = omega arith in
      rw next (
        append_one-IsValid n.log entry v (omega arith) (omega arith),
        refl,
        ground (arith, get-append_one n.log entry (last_index n.log + 1) v),
        λ i low. ground (arith, get-append_one n.log entry i v),
      )

  serialize-ne : serialize codec cmd ≢ []
  unfolding serialize
  serialize-ne e = cc (codec.command_round_trip cmd, codec.command_from_empty)

  -- The empty commands are passed over, and a serialised command is none.
  pub apply_entry-eq : (kv : KvStore) → apply_entry codec (some entry) kv ≡ run_command cmd kv
  unfolding apply_entry
  apply_entry-eq kv = by_bytes (serialize codec cmd) refl
    where
      by_bytes :
          (bytes : List ℕ)
          → serialize codec cmd ≡ bytes
          → (if is_empty bytes then kv else (apply_command codec bytes kv).0) ≡ run_command cmd kv
      by_bytes [] e = absurd (serialize-ne e)
      by_bytes (b ∷ bytes) e = rw (← e) (ap (λ r. r.0) (apply_command-eq codec cmd kv))

  apply_one :
      (log : LogStore) (i k : ℕ) (kv : KvStore)
      → k ≡ 1
      → apply_range codec log i k kv ≡ apply_entry codec (get log i) kv
  unfolding apply_range
  apply_one log i zero kv e = absurd (omega arith)
  apply_one log i (suc zero) kv e = refl
  apply_one log i (suc (suc k)) kv e = absurd (omega arith)

  pub state-append_command :
      ((append_command storage codec cmd n).0.state ≡ n.state)
      × ((append_command storage codec cmd n).0.kv ≡ n.kv)
  unfolding append_command
  state-append_command = (refl, refl)

  -- On a node that has applied its whole log, a write that is appended, committed and applied with
  -- no other task at work updates the store at the key of the command and nowhere else.
  pub write_applied :
      (p : PendingRequests)
      → IsValid n.log
      → n.state.volatile.last_applied ≡ last_index n.log
      → last_index n.log + 2 < u64_mod
      → (k : String)
      → Store.get
          (applied codec (last_index n.log + 1) (append_command storage codec cmd n).0 p).kv
          k
        ≡ apply_to_view cmd (Store.get n.kv) k
  write_applied p v whole room k =
      let n' = (append_command storage codec cmd n).0 in
      let c = last_index n.log + 1 in
      let (valid, index, found, kept) = append_command_lem v (omega arith) in
      let (state, kv) = state-append_command in
      let a : n'.state.volatile.last_applied ≡ last_index n.log =
        ap (λ (s : RaftState). s.volatile.last_applied) state ∙ whole in
      let a1 : n'.state.volatile.last_applied + 1 ≡ c = omega arith in
      let store : (applied codec c n' p).kv ≡ run_command cmd n.kv =
        ap (λ (m : Node D). m.kv) (applied-eq codec n' c p (omega arith) (omega arith))
        ∙ (apply_one n'.log (n'.state.volatile.last_applied + 1)
              (c - n'.state.volatile.last_applied) n'.kv (omega arith)
            ∙ (ap (λ i. apply_entry codec (get n'.log i) n'.kv) (a1 ∙ sym index)
                ∙ (ap (λ o. apply_entry codec o n'.kv) found
                    ∙ (apply_entry-eq n'.kv ∙ ap (run_command cmd) kv)))) in
      rw store (get-run_command cmd n.kv k)
