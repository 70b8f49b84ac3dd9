-- ===== src/Raft/Replication/ApplyOrder.antt =====
-- replication.rs: committed entries are applied once, in the order of the log.
use macro_service.Prelude.{
  ℕ, zero, suc, ◌+◌, ◌-◌, ◌≤◌, ◌<◌, ◌≡◌, refl, ◌∙◌, ap, sym, arith, u64_mod, le-or-lt, inl, inr,
}
use macro_service.Raft.Log.{LogStore, get}
use macro_service.Raft.Node.{Node}
use macro_service.Raft.Pending.{PendingRequests}
use macro_service.Raft.Replication.Commit.{set_commit}
use macro_service.Raft.Replication.Apply.{
  apply_entry, apply_range, set_applied, apply_committed_entries,
}
use macro_service.Kv.Store.{KvStore, KvCodec}

module _ (codec : KvCodec) where
  -- A range is applied piece by piece.
  pub apply_range-add :
      (log : LogStore) (j k i m : ℕ) (kv : KvStore)
      → m ≡ i + j
      → apply_range codec log i (j + k) kv
        ≡ apply_range codec log m k (apply_range codec log i j kv)
  unfolding apply_range
  apply_range-add log zero k i m kv e =
      let e' : m ≡ i = omega arith in
      let none_first : zero + k ≡ k = omega arith in rw (e', none_first)
  apply_range-add log (suc j) k i m kv e =
      let later : suc j + k ≡ suc (j + k) = omega arith in
      rw later (apply_range-add log j k (i + 1) m (apply_entry codec (get log i) kv) (omega arith))

  -- Logs that hold the same entries over the range build the same store.
  pub apply_range_agree :
      (l l' : LogStore) (k i : ℕ) (kv : KvStore)
      → ((j : ℕ) → i ≤ j → j < i + k → get l j ≡ get l' j)
      → apply_range codec l i k kv ≡ apply_range codec l' i k kv
  unfolding apply_range
  apply_range_agree l l' zero i kv same = refl
  apply_range_agree l l' (suc k) i kv same = rw (same i (omega arith) (omega arith)) (
      apply_range_agree l l' k (i + 1) (apply_entry codec (get l' i) kv)
        (λ j low high. same j (omega arith) (omega arith)))

  apply_range-zero :
      (log : LogStore) (i k : ℕ) (kv : KvStore) → k ≡ 0 → apply_range codec log i k kv ≡ kv
  unfolding apply_range
  apply_range-zero log i zero kv e = refl
  apply_range-zero log i (suc k) kv e = absurd (omega arith)

  module _ {D : Type 0} where
    -- A node after it was told the commit index and has applied up to it, with no other task at work.
    unfoldable pub applied : ℕ → Node D → PendingRequests → Node D
    applied commit n p = (apply_committed_entries codec (λ k. k) (λ k. k) (set_commit commit n) p).0

    pub applied-eq :
        (n : Node D) (c : ℕ) (p : PendingRequests)
        → n.state.volatile.last_applied ≤ c
        → c + 1 < u64_mod
        → applied c n p
          ≡ set_applied codec c (record (set_commit c n) {
            kv =
                apply_range codec n.log
                  (n.state.volatile.last_applied + 1)
                  (c - n.state.volatile.last_applied)
                  n.kv;
          })
    unfolding applied apply_committed_entries
    applied-eq n c p low room =
        let a = n.state.volatile.last_applied in
        elim (le-or-lt c a) [
          | inl reached ↦ ground (arith, apply_range-zero n.log (a + 1) (c - a) n.kv (omega arith))
          | inr ahead ↦ ground arith
        ]

    -- With no other task at work, applying up to `c` and later up to `c'` leaves the node as applying
    -- up to `c'` at once does, whoever waits.
    pub applied-applied :
        (n : Node D) (c c' : ℕ) (p p' p'' : PendingRequests)
        → n.state.volatile.last_applied ≤ c
        → c ≤ c'
        → c' + 1 < u64_mod
        → applied c' (applied c n p) p' ≡ applied c' n p''
    applied-applied n c c' p p' p'' low high room =
        let a = n.state.volatile.last_applied in
        let m =
          set_applied codec c
            (record (set_commit c n) { kv = apply_range codec n.log (a + 1) (c - a) n.kv }) in
        let pieces = apply_range-add n.log (c - a) (c' - c) (a + 1) (c + 1) n.kv (omega arith) in
        let whole : c - a + (c' - c) ≡ c' - a = omega arith in
        rw
          (
            applied-eq n c p low (omega arith),
            applied-eq m c' p' high room,
            applied-eq n c' p'' (omega arith) room,
          )
          (ap (λ kv. set_applied codec c' (record (set_commit c' n) { kv = kv }))
            (sym pieces ∙ ap (λ k. apply_range codec n.log (a + 1) k n.kv) whole))

    -- Nodes with the same store and the same `last_applied`, whose logs hold the same entries above
    -- it up to the commit index, have the same store once they have applied up to it.
    pub applied_agree :
        (n m : Node D) (c : ℕ) (p q : PendingRequests)
        → n.kv ≡ m.kv
        → n.state.volatile.last_applied ≡ m.state.volatile.last_applied
        → n.state.volatile.last_applied ≤ c
        → c + 1 < u64_mod
        → ((i : ℕ) → n.state.volatile.last_applied < i → i ≤ c → get n.log i ≡ get m.log i)
        → (applied c n p).kv ≡ (applied c m q).kv
    applied_agree n m c p q same from low room logs =
        rw (applied-eq n c p low room, applied-eq m c q (omega arith) room)
          (let a = n.state.volatile.last_applied in
            apply_range_agree n.log m.log (c - a) (a + 1) n.kv
              (λ j above below. logs j (omega arith) (omega arith))
            ∙ (ap (λ kv. apply_range codec m.log (a + 1) (c - a) kv) same
                ∙ ap (λ k. apply_range codec m.log (k + 1) (c - k) m.kv) from))
