-- ===== src/Parser/Interface/Stubs.antt =====
-- The element parsers of the source, one for each function: every body is `unimplemented!()`.
use org_rs.Prelude.{ℕ, Bool, Option}
use org_rs.Affiliated.Output.{AffiliatedData}
use org_rs.Cursor.State.{M, get_pos, set, ◌>>=◌, ◌>>◌}
use org_rs.Data.Kind.{SyntaxT}
use org_rs.Data.Outline.{ListStruct}
use org_rs.Data.Syntax.{SyntaxNode, Children}
use org_rs.Parser.Interface.{ElementParser, ElementParsers, stub}

-- headline.rs
abbrev headline_parser : M SyntaxNode
headline_parser = stub

abbrev inlinetask_parser : ℕ → Bool → M SyntaxNode
inlinetask_parser limit raw_secondary = stub

abbrev property_drawer_parser : ℕ → M SyntaxNode
property_drawer_parser limit = stub

abbrev node_property_parser : ℕ → M SyntaxNode
node_property_parser limit = stub

-- list.rs
abbrev item_parser : Option ListStruct → Bool → M SyntaxNode
item_parser structure raw_secondary = stub

abbrev plain_list_parser : ℕ → ℕ → Option AffiliatedData → ListStruct → M SyntaxNode
plain_list_parser limit start affiliated structure = stub

abbrev list_struct : ℕ → M ListStruct
list_struct limit = stub

-- blocks.rs
abbrev center_block_parser : ElementParser
center_block_parser limit start affiliated = stub

abbrev comment_block_parser : ElementParser
comment_block_parser limit start affiliated = stub

abbrev example_block_parser : ElementParser
example_block_parser limit start affiliated = stub

abbrev export_block_parser : ElementParser
export_block_parser limit start affiliated = stub

abbrev quote_block_parser : ElementParser
quote_block_parser limit start affiliated = stub

abbrev src_block_parser : ElementParser
src_block_parser limit start affiliated = stub

abbrev verse_block_parser : ElementParser
verse_block_parser limit start affiliated = stub

abbrev special_block_parser : ElementParser
special_block_parser limit start affiliated = stub

abbrev dynamic_block_parser : ElementParser
dynamic_block_parser limit start affiliated = stub

-- latex.rs
abbrev latex_environment_parser : ElementParser
latex_environment_parser limit start affiliated = stub

-- table.rs
abbrev table_row_parser : M SyntaxNode
table_row_parser = stub

abbrev table_parser : ElementParser
table_parser limit start affiliated = stub

-- markup.rs
abbrev comment_parser : ElementParser
comment_parser limit start affiliated = stub

abbrev horizontal_rule_parser : ElementParser
horizontal_rule_parser limit start affiliated = stub

abbrev footnote_definition_parser : ElementParser
footnote_definition_parser limit start affiliated = stub

abbrev fixed_width_parser : ElementParser
fixed_width_parser limit start affiliated = stub

-- keyword.rs
abbrev keyword_parser : ElementParser
keyword_parser limit start affiliated = stub

-- babel.rs
abbrev babel_call_parser : ElementParser
babel_call_parser limit start affiliated = stub

-- paragraph.rs
abbrev paragraph_parser : ElementParser
paragraph_parser limit start affiliated = stub

abbrev section_parser : ℕ → M SyntaxNode
section_parser limit = stub

-- drawer.rs
abbrev drawer_parser : ElementParser
drawer_parser limit start affiliated = stub

-- planning.rs
abbrev planning_parser : ℕ → M SyntaxNode
planning_parser limit = stub

abbrev clock_line_parser : ℕ → M SyntaxNode
clock_line_parser limit = stub

abbrev diary_sexp_parser : ElementParser
diary_sexp_parser limit start affiliated = stub

-- parser.rs
abbrev parse_objects : ℕ → ℕ → (SyntaxT → Bool) → M Children
parse_objects beg end restriction = do saved ← get_pos; set saved; stub

abbrev pub stubs : ElementParsers
stubs = record {
  headline_parser = headline_parser;
  inlinetask_parser = inlinetask_parser;
  property_drawer_parser = property_drawer_parser;
  node_property_parser = node_property_parser;
  item_parser = item_parser;
  plain_list_parser = plain_list_parser;
  list_struct = list_struct;
  center_block_parser = center_block_parser;
  comment_block_parser = comment_block_parser;
  example_block_parser = example_block_parser;
  export_block_parser = export_block_parser;
  quote_block_parser = quote_block_parser;
  src_block_parser = src_block_parser;
  verse_block_parser = verse_block_parser;
  special_block_parser = special_block_parser;
  dynamic_block_parser = dynamic_block_parser;
  latex_environment_parser = latex_environment_parser;
  table_row_parser = table_row_parser;
  table_parser = table_parser;
  comment_parser = comment_parser;
  horizontal_rule_parser = horizontal_rule_parser;
  footnote_definition_parser = footnote_definition_parser;
  fixed_width_parser = fixed_width_parser;
  keyword_parser = keyword_parser;
  babel_call_parser = babel_call_parser;
  paragraph_parser = paragraph_parser;
  section_parser = section_parser;
  drawer_parser = drawer_parser;
  planning_parser = planning_parser;
  clock_line_parser = clock_line_parser;
  diary_sexp_parser = diary_sexp_parser;
  parse_objects = parse_objects;
}
