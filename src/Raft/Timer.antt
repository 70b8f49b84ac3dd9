-- ===== src/Raft/Timer.antt =====
-- server-rust/src/raft/timer.rs: the election and the heartbeat timer. The clock reads `now`
-- milliseconds, and `ms` is what `random_range` draws (the rand crate).
pub mod Expiry
use macro_service.Prelude.{ℕ, ◌-◌, Bool, leb}

pub record ElectionTimer : Type 0 where
  pub timeout : ℕ
  pub last_heartbeat : ℕ
  pub min_timeout_ms : ℕ
  pub max_timeout_ms : ℕ

unfoldable pub with_range : ℕ → ℕ → ℕ → ℕ → ElectionTimer
with_range min_ms max_ms now ms = record {
  timeout = ms;
  last_heartbeat = now;
  min_timeout_ms = min_ms;
  max_timeout_ms = max_ms;
}

-- `ElectionTimer::new`
unfoldable pub new_timer : ℕ → ℕ → ElectionTimer
new_timer now ms = record {
  timeout = ms;
  last_heartbeat = now;
  min_timeout_ms = 150;
  max_timeout_ms = 300;
}

unfoldable pub reset : ℕ → ℕ → ElectionTimer → ElectionTimer
reset now ms t = record t { last_heartbeat = now; timeout = ms }

-- `Instant::elapsed` is 0 for an instant in the future, as `-` is.
unfoldable pub is_expired : ℕ → ElectionTimer → Bool
is_expired now t = leb t.timeout (now - t.last_heartbeat)

unfoldable pub remaining : ℕ → ElectionTimer → ℕ
remaining now t = t.timeout - (now - t.last_heartbeat)

pub record HeartbeatTimer : Type 0 where
  pub interval : ℕ
  pub last_beat : ℕ

-- `HeartbeatTimer::new`
unfoldable pub new_heartbeat : ℕ → ℕ → HeartbeatTimer
new_heartbeat interval_ms now = record { interval = interval_ms; last_beat = now }

unfoldable pub reset_beat : ℕ → HeartbeatTimer → HeartbeatTimer
reset_beat now t = record t { last_beat = now }

unfoldable pub should_beat : ℕ → HeartbeatTimer → Bool
should_beat now t = leb t.interval (now - t.last_beat)

unfoldable pub beat_remaining : ℕ → HeartbeatTimer → ℕ
beat_remaining now t = t.interval - (now - t.last_beat)
