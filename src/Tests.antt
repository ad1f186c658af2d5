-- ===== src/Tests.antt =====
-- Runs of the model: the tests of the source, and the theorems at concrete inputs.
pub mod Scan
pub mod Small
pub mod Engine
pub mod Paragraphs
pub mod Constant
pub mod CursorTests
mod RegexTests
mod AffiliatedTests
mod KeywordExamples
mod BlockExamples
mod TwoNames
mod InputExamples
mod ChoiceExamples
mod LineExamples
mod MoveExamples
mod ParserExamples
mod RunExamples
