-- ===== src/Parser/Current/Stubs.antt =====
-- `current_element` with the element parsers of this commit, whose bodies are `unimplemented!()`.
use org_rs.Prelude.{ℕ, ◌≢◌, Option}
use org_rs.Crates.Memchr.{Memchr}
use org_rs.Crates.Regex.{RegexEngine}
use org_rs.Cursor.State.{Cursor}
use org_rs.Data.Outline.{ListStruct}
use org_rs.Data.Syntax.{SyntaxNode}
use org_rs.Parser.Current.{current_element}
use org_rs.Cursor.Runs.Returns.{Ensures, Ensures-panic}
use org_rs.Parser.Current.Ensures.{AllEnsure}
use org_rs.Parser.Current.Ladder.{current_element-Returned}
use org_rs.Parser.Interface.Stubs.{stubs}
use org_rs.Parser.Mode.{ParseGranularity, ParserMode}
use org_rs.Rust.Outcome.{ok, panic, unimplemented}

-- The parsers of the source return nothing.
pub stubs-AllEnsure : (P : SyntaxNode → Type 0) → AllEnsure P stubs
stubs-AllEnsure P =
    let never : Ensures P (λ c. panic unimplemented) = Ensures-panic P unimplemented in
    record {
      headline_parser_ensures = never;
      inlinetask_parser_ensures = λ a b. never;
      property_drawer_parser_ensures = λ a. never;
      node_property_parser_ensures = λ a. never;
      item_parser_ensures = λ a b. never;
      plain_list_parser_ensures = λ a b c d. never;
      center_block_parser_ensures = λ a b c. never;
      comment_block_parser_ensures = λ a b c. never;
      example_block_parser_ensures = λ a b c. never;
      export_block_parser_ensures = λ a b c. never;
      quote_block_parser_ensures = λ a b c. never;
      src_block_parser_ensures = λ a b c. never;
      verse_block_parser_ensures = λ a b c. never;
      special_block_parser_ensures = λ a b c. never;
      dynamic_block_parser_ensures = λ a b c. never;
      latex_environment_parser_ensures = λ a b c. never;
      table_row_parser_ensures = never;
      table_parser_ensures = λ a b c. never;
      comment_parser_ensures = λ a b c. never;
      horizontal_rule_parser_ensures = λ a b c. never;
      footnote_definition_parser_ensures = λ a b c. never;
      fixed_width_parser_ensures = λ a b c. never;
      keyword_parser_ensures = λ a b c. never;
      babel_call_parser_ensures = λ a b c. never;
      paragraph_parser_ensures = λ a b c. never;
      section_parser_ensures = λ a. never;
      drawer_parser_ensures = λ a b c. never;
      planning_parser_ensures = λ a. never;
      clock_line_parser_ensures = λ a. never;
      diary_sexp_parser_ensures = λ a b c. never;
    }

module _ (mc : Memchr) (engine : RegexEngine) (granularity : ParseGranularity) where
  -- With the element parsers as they are, bodies of `unimplemented!()`, `current_element` returns
  -- from no cursor, in no mode.
  pub current_element-stubs :
      (mode : ParserMode) (structure : Option ListStruct) (limit : ℕ) (c c' : Cursor)
      (a : SyntaxNode)
      → current_element mc engine stubs granularity limit mode structure c ≢ ok (a, c')
  current_element-stubs mode structure limit c c' a e =
      (current_element-Returned (λ x. ⊥) mc engine stubs granularity (stubs-AllEnsure (λ x. ⊥)) mode
        structure limit c c' a e).0
