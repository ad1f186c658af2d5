-- ===== src/Rust.antt =====
-- What the crate uses of Rust and of its standard library: panics, `str` slices, `char` methods.
pub mod Outcome
pub mod Str
pub mod Utf8
pub mod Trim
