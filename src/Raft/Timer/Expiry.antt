-- ===== src/Raft/Timer/Expiry.antt =====
-- timer.rs: when a timer that was reset runs out.
use macro_service.Prelude.{ℕ, ◌+◌, ◌≤◌, ◌<◌, ◌≡◌, ◌↔◌, true, arith}
use macro_service.Raft.Timer.{ElectionTimer, reset, is_expired, remaining}

-- A timer that was reset at `now` with a positive timeout has expired exactly from the end of the
-- timeout on, which is exactly when nothing remains of it; no more than the timeout ever remains.
pub is_expired-reset :
    (now ms later : ℕ) (t : ElectionTimer)
    → 0 < ms
    → ((is_expired later (reset now ms t) ≡ true) ↔ (now + ms ≤ later))
      × ((is_expired later (reset now ms t) ≡ true) ↔ (remaining later (reset now ms t) ≡ 0))
      × (remaining later (reset now ms t) ≤ ms)
unfolding reset is_expired remaining
is_expired-reset now ms later t positive = (
  ((λ h. ground arith), (λ h. ground arith)),
  ((λ h. ground arith), (λ h. ground arith)),
  ground arith,
)
