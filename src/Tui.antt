-- ===== src/Tui.antt =====
-- The terminal interface: the table of a view, its pages, a followed stream, and the query history
-- (`crates/tui/src`).
pub mod Value
pub mod Table
pub mod Session
pub mod History
pub mod Editor
pub mod Tests
