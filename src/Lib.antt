-- ===== src/Lib.antt =====
-- org-rs is a parser of Org-mode text after org-element.el. The crate rust/element has a cursor over
-- the input (rust/element/src/cursor.rs), the data of the syntax tree (rust/element/src/data.rs and a
-- file for each group of elements), the collection of affiliated keywords
-- (rust/element/src/affiliated.rs), and the parser (rust/element/src/parser.rs): `parse_buffer` sets
-- the cursor to the beginning and calls `parse_elements`, which asks `current_element` for an element
-- at a time, sets the cursor behind it, and goes into its contents. A file that is named without a
-- directory below lies in rust/element/src.
--
-- The files.
--   Prelude          names of the library, arithmetic, lists, tactics' rule sets
--   Rust             outcomes with their panics, &str as a list of bytes, UTF-8, trim
--   Crates           the interfaces of the crates memchr and regex
--   Data             SyntaxT, its classes and can_contain; the data of all elements and objects, the
--                    tree (data.rs, headline.rs, list.rs, blocks.rs, table.rs, markup.rs and others)
--   Cursor.State     Cursor and the monad of its methods
--   Cursor.Metric    BaseMetric and LinesMetric; Cursor.Moves: the moves by characters, skip_whitespace
--                    and skip_chars_forward; Cursor.Lines: the moves by lines and the two line
--                    positions; Cursor.Search: search_forward; Cursor.Regexes: looking_at,
--                    capturing_at, on_headline, next_headline, re_search_forward (all cursor.rs)
--   Cursor.Runs      what runs do from every cursor: they end, keep the text, put the cursor back
--   Affiliated       AffiliatedData, collect_affiliated_keywords, and the equality of the data
--                    (affiliated.rs, and StringOrObject of data.rs)
--   Parser.Mode      ParseGranularity, ParserMode, next_mode; Parser.Current: current_element, with a
--                    stage for each test of its closure, in the order of the source (the last ones, and
--                    those behind `#`, in Parser.Branch), and Parser.Current.Choice, the same choice as a
--                    table of rules; Parser.Elements: parse_elements and parse_buffer (all parser.rs)
--   Parser.Input     the struct Parser with its input, Parser::new, and parse_buffer on it
--   Parser.Interface the element parsers, and their bodies in the source; Parser.Contract: what the
--                    loop needs of them
--   Tests            the test functions of cursor.rs and affiliated.rs with their runs, matchers and element
--                    parsers for them, and the theorems at concrete inputs
-- A definition carries the name of its function in snake case. Where a function is cut into parts, a
-- part is named for what it does (line_begin_back, planning_stage), and its file says which lines it is.
--
-- The model. A method on the cursor is a function from a cursor to an outcome: a value and the cursor,
-- a panic with its cause, or `stuck`, which only a loop without fuel gives. Texts are lists of bytes,
-- positions are byte offsets in the native numbers. Panics are those of a debug build: an index or a
-- slice out of range or within a character, an overflow of `i32`, a failed `debug_assert`, `unwrap` on
-- `None`, `unimplemented!()`, a failed assertion of a test, and a `RefCell` that is borrowed
-- twice. A place where the source cannot overflow, because the lengths of slices are below 2 ^ 63, is
-- without that test.
--
-- Fuel. The loops of the moves run on the length of the text and one more, as each round reads a
-- character; the collection of affiliated keywords does too, as each round moves on by a line. The loop
-- over the elements runs on fuel that bounds the elements of a level and the levels together: three
-- times the bytes behind the cursor and the level of the mode, at most 2, where an element may begin its
-- contents where it begins only if they are parsed in a mode of a lower level (a section, then a list or
-- a table, then items or rows). `parse_buffer` needs three times the length of the text and 3.
--
-- Parameters. The crates memchr and regex are records whose laws are the documented behaviour: the
-- first and the last index of a byte, and a match that lies within the haystack on boundaries of
-- characters. What an expression matches is left open. The element parsers (headline_parser and the
-- others) are `unimplemented!()` in the source. They are the record ElementParsers, an argument of the
-- parser; `stubs` is that record with the bodies of the source. Theorems on the loop assume the records
-- Contract, AllEnsure or Kinds of them, each with an instance in Tests.Paragraphs and one for `stubs` in
-- Parser.Elements.Stubs and Parser.Current.Stubs.
--
-- Not in the model: the parent pointer of a node, which the code creates empty and never sets; the
-- shared borrow of the cursor which the argument `self.cursor.borrow().pos()` of paragraph_parser holds
-- during that call (parser.rs:347), since what an element parser borrows is unknown; the test
-- affiliated_re, which runs an expression of the crate regex alone; lib.rs and
-- fixed_width.rs, which have no code of their own.
pub mod Prelude
pub mod Rust
pub mod Crates
pub mod Data
pub mod Cursor
pub mod Affiliated
pub mod Parser
mod Tests
