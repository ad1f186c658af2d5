-- ===== src/Tests/Constant.antt =====
-- Element parsers that all return one paragraph.
use org_rs.Prelude.{◌≡◌, none, arith}
use org_rs.Cursor.State.{pure}
use org_rs.Data.Syntax.{SyntaxNode, Syntax, nil}
use org_rs.Cursor.Runs.Returns.{Ensures}
use org_rs.Parser.Current.Ensures.{AllEnsure}
use org_rs.Parser.Interface.{ElementParsers, stub}

-- A paragraph, which all the parsers return.
abbrev pub para : SyntaxNode
para = SyntaxNode.node nil Syntax.paragraph (record { start = 0; end = 2 }) none 0 none

abbrev pub constant : ElementParsers
constant = record {
  headline_parser = pure para;
  inlinetask_parser = λ _ _. pure para;
  property_drawer_parser = λ _. pure para;
  node_property_parser = λ _. pure para;
  item_parser = λ _ _. pure para;
  plain_list_parser = λ _ _ _ _. pure para;
  list_struct = λ _. stub;
  center_block_parser = λ _ _ _. pure para;
  comment_block_parser = λ _ _ _. pure para;
  example_block_parser = λ _ _ _. pure para;
  export_block_parser = λ _ _ _. pure para;
  quote_block_parser = λ _ _ _. pure para;
  src_block_parser = λ _ _ _. pure para;
  verse_block_parser = λ _ _ _. pure para;
  special_block_parser = λ _ _ _. pure para;
  dynamic_block_parser = λ _ _ _. pure para;
  latex_environment_parser = λ _ _ _. pure para;
  table_row_parser = pure para;
  table_parser = λ _ _ _. pure para;
  comment_parser = λ _ _ _. pure para;
  horizontal_rule_parser = λ _ _ _. pure para;
  footnote_definition_parser = λ _ _ _. pure para;
  fixed_width_parser = λ _ _ _. pure para;
  keyword_parser = λ _ _ _. pure para;
  babel_call_parser = λ _ _ _. pure para;
  paragraph_parser = λ _ _ _. pure para;
  section_parser = λ _. pure para;
  drawer_parser = λ _ _ _. pure para;
  planning_parser = λ _. pure para;
  clock_line_parser = λ _. pure para;
  diary_sexp_parser = λ _ _ _. pure para;
  parse_objects = λ _ _ _. pure nil;
}

always : Ensures (λ a. a ≡ para) (pure para)
always = record { returns = λ c c' a e. grind arith }

pub constant-AllEnsure : AllEnsure (λ a. a ≡ para) constant
constant-AllEnsure = record {
  headline_parser_ensures = always;
  inlinetask_parser_ensures = λ a b. always;
  property_drawer_parser_ensures = λ a. always;
  node_property_parser_ensures = λ a. always;
  item_parser_ensures = λ a b. always;
  plain_list_parser_ensures = λ a b c d. always;
  center_block_parser_ensures = λ a b c. always;
  comment_block_parser_ensures = λ a b c. always;
  example_block_parser_ensures = λ a b c. always;
  export_block_parser_ensures = λ a b c. always;
  quote_block_parser_ensures = λ a b c. always;
  src_block_parser_ensures = λ a b c. always;
  verse_block_parser_ensures = λ a b c. always;
  special_block_parser_ensures = λ a b c. always;
  dynamic_block_parser_ensures = λ a b c. always;
  latex_environment_parser_ensures = λ a b c. always;
  table_row_parser_ensures = always;
  table_parser_ensures = λ a b c. always;
  comment_parser_ensures = λ a b c. always;
  horizontal_rule_parser_ensures = λ a b c. always;
  footnote_definition_parser_ensures = λ a b c. always;
  fixed_width_parser_ensures = λ a b c. always;
  keyword_parser_ensures = λ a b c. always;
  babel_call_parser_ensures = λ a b c. always;
  paragraph_parser_ensures = λ a b c. always;
  section_parser_ensures = λ a. always;
  drawer_parser_ensures = λ a b c. always;
  planning_parser_ensures = λ a. always;
  clock_line_parser_ensures = λ a. always;
  diary_sexp_parser_ensures = λ a b c. always;
}
