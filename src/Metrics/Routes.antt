-- ===== src/Metrics/Routes.antt =====
-- metrics.rs: what the routes tell of the node.
use macro_service.Prelude.{
  ℕ, ◌≤◌, ◌≡◌, ◌⊎◌, ◌↔◌, inl, inr, refl, true, false, some, List, [], ◌∷◌, arith, length, String,
  Bool-cases, ltb,
}
use macro_service.Raft.State.{RaftState, is_leader}
use macro_service.Kv.Store.{KvStore}
use macro_service.Kv.Service.{holds_lease, get, read_store}
use macro_service.Raft.Node.{Node}
use macro_service.Metrics.{Metrics, update_from_state, respond, ready_response}

-- The lease gauge is 1 exactly for a leader with a valid lease, and 0 for every other node; where it
-- is 1, the service answers a read at that moment from its store, without a wait.
pub lease_valid-get :
    {D : Type 0} (now : ℕ) (polls : List (ℕ × ℕ)) (kv : KvStore) (key : String) (n : Node D)
    (metrics : Metrics)
    → (((update_from_state now n.state metrics).lease_valid ≡ 1)
        ↔ ((is_leader n.state.role ≡ true) × (holds_lease now n.state.leader_state ≡ true)))
      × ((update_from_state now n.state metrics).lease_valid ≤ 1)
      × (((update_from_state now n.state metrics).lease_valid ≡ 0)
          ⊎ (get true now polls kv key n ≡ some (read_store key kv)))
unfolding update_from_state holds_lease get
lease_valid-get now polls kv key n metrics = (
  ((λ h. ground arith), (λ h. ground arith)),
  ground arith,
  elim (Bool-cases (is_leader n.state.role)) [
    | inr follows ↦ inl (ground arith)
    | inl leads ↦ elim (Bool-cases (holds_lease now n.state.leader_state)) [
      | inl held ↦ inr (ground arith)
      | inr not_held ↦ inl (ground arith)
    ]
  ],
)

no_peers : (peers : List ℕ) → ltb 0 (length peers) ≡ false → peers ≡ []
no_peers [] h = refl
no_peers (x ∷ xs) h = absurd (ground arith)

-- `/ready` answers 503 exactly for a node that has no peers and does not lead, and changes no gauge;
-- `/readyz` answers the same, and `/health` always 200.
pub ready_iff :
    (now : ℕ) (s : RaftState) (metrics : Metrics)
    → (((respond now "/ready" s metrics).1.status ≡ 503)
        ↔ ((s.peers ≡ []) × (is_leader s.role ≡ false)))
      × ((respond now "/ready" s metrics).0 ≡ metrics)
      × ((respond now "/readyz" s metrics) ≡ respond now "/ready" s metrics)
      × ((respond now "/health" s metrics).1.status ≡ 200)
unfolding respond ready_response
ready_iff now s metrics = (
  (λ h. (no_peers s.peers (ground arith), ground arith), λ h. rw h.0 (ground arith)),
  refl,
  refl,
  refl,
)
