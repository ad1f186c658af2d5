-- ===== src/Parser.antt =====
-- rust/element/src/parser.rs: the modes, the choice of an element's parser, and the recursion over
-- the elements. The element parsers of the other files are an interface; all of them are stubs.
pub mod Mode
pub mod Interface
pub mod Contract
pub mod Expressions
pub mod Branch
pub mod Current
pub mod Elements
pub mod Input
