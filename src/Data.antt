-- ===== src/Data.antt =====
-- rust/element/src/data.rs, and the data types of the modules beside it: the syntax tree.
pub mod Kind
pub mod Contain
pub mod Objects
pub mod Outline
pub mod Elements
pub mod Syntax
