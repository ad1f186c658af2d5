-- ===== src/Crates.antt =====
-- The third-party crates that the parser calls, as interfaces with their documented behaviour.
pub mod Memchr
pub mod Regex
