-- ===== src/RabbitMq.antt =====
-- The RabbitMQ query editor (`crates/rabbitmq/src/statement.rs`): the text of a statement to the
-- request of the management API, and its response to a page or an outcome.
pub mod Statement
pub mod Parse
pub mod Request
pub mod Response
pub mod Tests
