-- ===== src/Affiliated.antt =====
-- rust/element/src/affiliated.rs: the keywords in front of an element, such as `#+CAPTION:`.
pub mod Output
pub mod Collect
pub mod Equality
