-- ===== src/Nats.antt =====
-- The NATS query editor: `crates/nats/src/statement.rs`, `replay.rs` and `validate_subject` of
-- `core_subscription.rs`.
pub mod Replay
pub mod Parse
pub mod Tests
