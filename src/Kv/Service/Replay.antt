-- ===== src/Kv/Service/Replay.antt =====
-- service.rs, replication.rs and store.rs together: the writes of a client against the map that the
-- client has in mind.
use macro_service.Prelude.{
  ℕ, ◌+◌, ◌-◌, ◌≤◌, ◌<◌, ◌≡◌, refl, sym, ap, ◌∙◌, Option, none, some, List, [], ◌∷◌, arith, u64_mod,
  length, String, if◌then◌else◌,
}
use text.Mathlib.Text.{◌==◌}
use macro_service.Raft.Log.{last_index, get}
use macro_service.Raft.Log.Valid.{IsValid}
use macro_service.Raft.Log.Last.{append_one_end}
use macro_service.Raft.Storage.{Storage}
use macro_service.Raft.Node.{Node}
use macro_service.Raft.Pending.{PendingRequests}
use macro_service.Raft.Replication.Apply.{apply_range, apply_entry}
use macro_service.Raft.Replication.ApplyOrder.{applied, applied-eq, apply_range_agree}
use macro_service.Kv.Store
use macro_service.Kv.Store.{
  KvStore, KvCommand, put_command, delete_command, KvCodec, serialize, run_command,
}
use macro_service.Kv.Store.Commands.{apply_to_view, get-run_command}
use macro_service.Kv.Service.{append_command}
use macro_service.Kv.Service.Propose.{append_command_lem, apply_entry-eq}

-- What a client reads at each key.
abbrev pub View : Type 0
View = String → Option (List ℕ)

-- The map of the client: its commands one after the other.
abbrev pub replay : List KvCommand → View → View
replay [] view = view
replay (cmd ∷ cmds) view = replay cmds (apply_to_view cmd view)

apply_to_view_agree :
    (cmd : KvCommand) (v w : View)
    → ((k : String) → v k ≡ w k)
    → (k : String) → apply_to_view cmd v k ≡ apply_to_view cmd w k
apply_to_view_agree (put_command key value) v w h k =
    ap (λ o. if key == k then some value else o) (h k)
apply_to_view_agree (delete_command key) v w h k = ap (λ o. if key == k then none else o) (h k)

pub replay_agree :
    (cmds : List KvCommand) (v w : View)
    → ((k : String) → v k ≡ w k)
    → (k : String) → replay cmds v k ≡ replay cmds w k
replay_agree [] v w h k = h k
replay_agree (cmd ∷ cmds) v w h k =
    replay_agree cmds (apply_to_view cmd v) (apply_to_view cmd w) (apply_to_view_agree cmd v w h) k

module _ {D : Type 0} (storage : Storage D) (codec : KvCodec) where
  -- The commands go to the log of a leader, one after the other.
  abbrev pub appended : List KvCommand → Node D → Node D
  appended [] n = n
  appended (cmd ∷ cmds) n = appended cmds (append_command storage codec cmd n).0

  last_index-append_command :
      (cmd : KvCommand) (n : Node D)
      → IsValid n.log
      → last_index n.log + 1 < u64_mod
      → last_index (append_command storage codec cmd n).0.log ≡ last_index n.log + 1
  unfolding append_command
  last_index-append_command cmd n v room = (append_one_end n.log _ v (omega arith) (omega arith)).0

  -- Later commands leave the entries in front of them.
  get-appended :
      (cmds : List KvCommand) (n : Node D)
      → IsValid n.log
      → last_index n.log + length cmds < u64_mod
      → (i : ℕ) → i ≤ last_index n.log
      → get (appended cmds n).log i ≡ get n.log i
  get-appended [] n v room i le = refl
  get-appended (cmd ∷ cmds) n v room i le =
      let m = (append_command storage codec cmd n).0 in
      let (valid, index, found, kept) = append_command_lem storage codec cmd n v (omega arith) in
      let last = last_index-append_command cmd n v (omega arith) in
      get-appended cmds m valid (omega (arith, last)) i (omega (arith, last)) ∙ kept i le

  apply_range-appended :
      (cmds : List KvCommand) (n : Node D) (kv : KvStore)
      → IsValid n.log
      → last_index n.log + length cmds < u64_mod
      → (k : String)
      → Store.get
          (apply_range codec (appended cmds n).log (last_index n.log + 1) (length cmds) kv)
          k
        ≡ replay cmds (Store.get kv) k
  unfolding apply_range
  apply_range-appended [] n kv v room k = refl
  apply_range-appended (cmd ∷ cmds) n kv v room k =
      let m = (append_command storage codec cmd n).0 in
      let (valid, index, found, kept) = append_command_lem storage codec cmd n v (omega arith) in
      let last = last_index-append_command cmd n v (omega arith) in
      let here : get (appended cmds m).log (last_index n.log + 1) ≡ some _ =
        get-appended cmds m valid (omega (arith, last)) (last_index n.log + 1) (omega (arith, last))
        ∙ (ap (get m.log) (sym index) ∙ found) in
      let one : apply_entry codec (get (appended cmds m).log (last_index n.log + 1)) kv
          ≡ run_command cmd kv =
        ap (λ o. apply_entry codec o kv) here ∙ apply_entry-eq storage codec cmd n kv in
      let next : last_index n.log + 1 + 1 ≡ last_index m.log + 1 = omega (arith, last) in
      ap
        (λ s.
          Store.get
            (apply_range codec (appended cmds m).log (last_index n.log + 1 + 1) (length cmds) s) k)
        one
      ∙ (ap
            (λ i.
              Store.get
                (apply_range codec (appended cmds m).log i (length cmds) (run_command cmd kv)) k)
            next
          ∙ (apply_range-appended cmds m (run_command cmd kv) valid (omega (arith, last)) k
              ∙ replay_agree cmds (Store.get (run_command cmd kv))
                  (apply_to_view cmd (Store.get kv)) (get-run_command cmd kv) k))

  -- A leader with a valid log appends the commands of a client, one after the other. Every node that had
  -- applied the leader's log up to where it ended before, to the same store, that has the leader's entries
  -- behind it, and that applies up to the last of them, with no other task at work, then answers at each
  -- key as the client's own map does, to which the commands were applied in order.
  pub writes_replayed :
      (cmds : List KvCommand) (n m : Node D) (p : PendingRequests)
      → IsValid n.log
      → last_index n.log + length cmds + 1 < u64_mod
      → m.state.volatile.last_applied ≡ last_index n.log
      → m.kv ≡ n.kv
      → ((i : ℕ)
          → last_index n.log < i
          → i ≤ last_index n.log + length cmds
          → get m.log i ≡ get (appended cmds n).log i)
      → (k : String)
      → Store.get (applied codec (last_index n.log + length cmds) m p).kv k
        ≡ replay cmds (Store.get n.kv) k
  writes_replayed cmds n m p v room whole same logs k =
      let a = m.state.volatile.last_applied in
      let c = last_index n.log + length cmds in
      let size : c - a ≡ length cmds = omega (arith, whole) in
      let start : a + 1 ≡ last_index n.log + 1 = omega (arith, whole) in
      let done = ap (λ (x : Node D). x.kv) (applied-eq codec m c p (omega (arith, whole)) room) in
      let range =
        ap (λ j. apply_range codec m.log (a + 1) j m.kv) size
        ∙ (ap (λ i. apply_range codec m.log i (length cmds) m.kv) start
            ∙ ap (apply_range codec m.log (last_index n.log + 1) (length cmds)) same) in
      let copied =
        apply_range_agree codec m.log (appended cmds n).log (length cmds) (last_index n.log + 1)
          n.kv (λ j low high. logs j (omega arith) (omega arith)) in
      ap (λ s. Store.get s k) (done ∙ (range ∙ copied))
      ∙ apply_range-appended cmds n n.kv v (omega arith) k
