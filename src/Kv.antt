-- ===== src/Kv.antt =====
-- server-rust/src/kv: the replicated map and its client service.
pub mod Store
pub mod Service
