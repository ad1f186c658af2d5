-- ===== src/Cursor.antt =====
-- rust/element/src/cursor.rs: a position in a text, moved by characters, by lines and by searches.
pub mod State
pub mod Metric
pub mod Moves
pub mod Lines
pub mod Search
pub mod Regexes
pub mod Runs
