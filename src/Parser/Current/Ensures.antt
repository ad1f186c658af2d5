-- ===== src/Parser/Current/Ensures.antt =====
-- A property of the values that all element parsers return.
use org_rs.Prelude.{ℕ, Bool, Option}
use org_rs.Affiliated.Output.{AffiliatedData}
use org_rs.Data.Outline.{ListStruct}
use org_rs.Data.Syntax.{SyntaxNode}
use org_rs.Cursor.Runs.Returns.{Ensures}
use org_rs.Parser.Interface.{ElementParsers}

-- Every element parser ensures `P`.
pub record AllEnsure (P : SyntaxNode → Type 0) (ps : ElementParsers) : Type 0 where
  pub headline_parser_ensures : Ensures P ps.headline_parser
  pub inlinetask_parser_ensures :
      (limit : ℕ) (raw : Bool) → Ensures P (ps.inlinetask_parser limit raw)
  pub property_drawer_parser_ensures : (limit : ℕ) → Ensures P (ps.property_drawer_parser limit)
  pub node_property_parser_ensures : (limit : ℕ) → Ensures P (ps.node_property_parser limit)
  pub item_parser_ensures :
      (structure : Option ListStruct) (raw : Bool) → Ensures P (ps.item_parser structure raw)
  pub plain_list_parser_ensures :
      (limit start : ℕ) (aff : Option AffiliatedData) (structure : ListStruct)
      → Ensures P (ps.plain_list_parser limit start aff structure)
  pub center_block_parser_ensures :
      (limit start : ℕ) (aff : Option AffiliatedData)
      → Ensures P (ps.center_block_parser limit start aff)
  pub comment_block_parser_ensures :
      (limit start : ℕ) (aff : Option AffiliatedData)
      → Ensures P (ps.comment_block_parser limit start aff)
  pub example_block_parser_ensures :
      (limit start : ℕ) (aff : Option AffiliatedData)
      → Ensures P (ps.example_block_parser limit start aff)
  pub export_block_parser_ensures :
      (limit start : ℕ) (aff : Option AffiliatedData)
      → Ensures P (ps.export_block_parser limit start aff)
  pub quote_block_parser_ensures :
      (limit start : ℕ) (aff : Option AffiliatedData)
      → Ensures P (ps.quote_block_parser limit start aff)
  pub src_block_parser_ensures :
      (limit start : ℕ) (aff : Option AffiliatedData)
      → Ensures P (ps.src_block_parser limit start aff)
  pub verse_block_parser_ensures :
      (limit start : ℕ) (aff : Option AffiliatedData)
      → Ensures P (ps.verse_block_parser limit start aff)
  pub special_block_parser_ensures :
      (limit start : ℕ) (aff : Option AffiliatedData)
      → Ensures P (ps.special_block_parser limit start aff)
  pub dynamic_block_parser_ensures :
      (limit start : ℕ) (aff : Option AffiliatedData)
      → Ensures P (ps.dynamic_block_parser limit start aff)
  pub latex_environment_parser_ensures :
      (limit start : ℕ) (aff : Option AffiliatedData)
      → Ensures P (ps.latex_environment_parser limit start aff)
  pub table_row_parser_ensures : Ensures P ps.table_row_parser
  pub table_parser_ensures :
      (limit start : ℕ) (aff : Option AffiliatedData) → Ensures P (ps.table_parser limit start aff)
  pub comment_parser_ensures :
      (limit start : ℕ) (aff : Option AffiliatedData)
      → Ensures P (ps.comment_parser limit start aff)
  pub horizontal_rule_parser_ensures :
      (limit start : ℕ) (aff : Option AffiliatedData)
      → Ensures P (ps.horizontal_rule_parser limit start aff)
  pub footnote_definition_parser_ensures :
      (limit start : ℕ) (aff : Option AffiliatedData)
      → Ensures P (ps.footnote_definition_parser limit start aff)
  pub fixed_width_parser_ensures :
      (limit start : ℕ) (aff : Option AffiliatedData)
      → Ensures P (ps.fixed_width_parser limit start aff)
  pub keyword_parser_ensures :
      (limit start : ℕ) (aff : Option AffiliatedData)
      → Ensures P (ps.keyword_parser limit start aff)
  pub babel_call_parser_ensures :
      (limit start : ℕ) (aff : Option AffiliatedData)
      → Ensures P (ps.babel_call_parser limit start aff)
  pub paragraph_parser_ensures :
      (limit start : ℕ) (aff : Option AffiliatedData)
      → Ensures P (ps.paragraph_parser limit start aff)
  pub section_parser_ensures : (limit : ℕ) → Ensures P (ps.section_parser limit)
  pub drawer_parser_ensures :
      (limit start : ℕ) (aff : Option AffiliatedData) → Ensures P (ps.drawer_parser limit start aff)
  pub planning_parser_ensures : (limit : ℕ) → Ensures P (ps.planning_parser limit)
  pub clock_line_parser_ensures : (limit : ℕ) → Ensures P (ps.clock_line_parser limit)
  pub diary_sexp_parser_ensures :
      (limit start : ℕ) (aff : Option AffiliatedData)
      → Ensures P (ps.diary_sexp_parser limit start aff)
