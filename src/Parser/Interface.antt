-- ===== src/Parser/Interface.antt =====
-- The element parsers that parser.rs calls, as an interface.
pub mod Stubs
use org_rs.Prelude.{ℕ, Bool, Option}
use org_rs.Affiliated.Output.{AffiliatedData}
use org_rs.Cursor.State.{M}
use org_rs.Data.Kind.{SyntaxT}
use org_rs.Data.Outline.{ListStruct}
use org_rs.Data.Syntax.{SyntaxNode, Children}
use org_rs.Rust.Outcome.{panic, unimplemented}

-- limit, start, affiliated
abbrev pub ElementParser : Type 0
ElementParser = ℕ → ℕ → Option AffiliatedData → M SyntaxNode

pub record ElementParsers : Type 0 where
  pub headline_parser : M SyntaxNode
  pub inlinetask_parser : ℕ → Bool → M SyntaxNode
  pub property_drawer_parser : ℕ → M SyntaxNode
  pub node_property_parser : ℕ → M SyntaxNode
  pub item_parser : Option ListStruct → Bool → M SyntaxNode
  pub plain_list_parser : ℕ → ℕ → Option AffiliatedData → ListStruct → M SyntaxNode
  pub list_struct : ℕ → M ListStruct
  pub center_block_parser : ElementParser
  pub comment_block_parser : ElementParser
  pub example_block_parser : ElementParser
  pub export_block_parser : ElementParser
  pub quote_block_parser : ElementParser
  pub src_block_parser : ElementParser
  pub verse_block_parser : ElementParser
  pub special_block_parser : ElementParser
  pub dynamic_block_parser : ElementParser
  pub latex_environment_parser : ElementParser
  pub table_row_parser : M SyntaxNode
  pub table_parser : ElementParser
  pub comment_parser : ElementParser
  pub horizontal_rule_parser : ElementParser
  pub footnote_definition_parser : ElementParser
  pub fixed_width_parser : ElementParser
  pub keyword_parser : ElementParser
  pub babel_call_parser : ElementParser
  pub paragraph_parser : ElementParser
  pub section_parser : ℕ → M SyntaxNode
  pub drawer_parser : ElementParser
  pub planning_parser : ℕ → M SyntaxNode
  pub clock_line_parser : ℕ → M SyntaxNode
  pub diary_sexp_parser : ElementParser
  pub parse_objects : ℕ → ℕ → (SyntaxT → Bool) → M Children

-- `unimplemented!()`
abbrev pub stub {ℓ} : {A : Type ℓ} → M A
stub c = panic unimplemented
