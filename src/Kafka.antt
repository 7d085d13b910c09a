-- ===== src/Kafka.antt =====
-- The Kafka query editor (`crates/kafka/src/statement.rs`, and `valid_topic` of `browse.rs`).
pub mod Statement
pub mod Range
pub mod Parse
pub mod Tests
