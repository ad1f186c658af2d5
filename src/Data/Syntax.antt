-- ===== src/Data/Syntax.antt =====
-- `Syntax` of data.rs: a kind with its data; `Interval`; and `SyntaxNode`, the tree.
use org_rs.Prelude.{ℕ, Option, none}
use org_rs.Data.Kind.{SyntaxT}
use org_rs.Data.Objects.{
  DiarySexpData, CodeData, EntityData, ExportSnippetData, FootnoteReferenceData,
  InlineBabelCallData, InlineSrcBlockData, LinkData, MacroData, RadioTargetData,
  StatisticsCookieData, SubscriptData, SuperscriptData, TargetData, TimestampData, ClockData,
  PlanningData, VerbatimData,
}
use org_rs.Data.Outline.{NodePropertyData, HeadlineData, InlineTaskData, PlainListData, ItemData}
use org_rs.Data.Elements.{
  DynamicBlockData, CommentBlockData, ExampleBlockData, ExportBlockData, SpecialBlockData,
  SrcBlockData, LatexEnvironmentData, LatexFragmentData, TableData, TableRowData, CommentData,
  FixedWidthData, FootnoteDefinitionData, KeywordData, BabelCallData, DrawerData,
}
use org_rs.Rust.Str.{Str}

pub data Syntax : Type 0 where
  org_data : Syntax
  babel_call : BabelCallData → Syntax
  center_block : Syntax
  clock : ClockData → Syntax
  comment : CommentData → Syntax
  comment_block : CommentBlockData → Syntax
  diary_sexp : DiarySexpData → Syntax
  drawer : DrawerData → Syntax
  dynamic_block : DynamicBlockData → Syntax
  example_block : ExampleBlockData → Syntax
  export_block : ExportBlockData → Syntax
  fixed_width : FixedWidthData → Syntax
  footnote_definition : FootnoteDefinitionData → Syntax
  headline : HeadlineData → Syntax
  horizontal_rule : Syntax
  inline_task : InlineTaskData → Syntax
  item : ItemData → Syntax
  keyword : KeywordData → Syntax
  latex_environment : LatexEnvironmentData → Syntax
  node_property : NodePropertyData → Syntax
  paragraph : Syntax
  plain_list : PlainListData → Syntax
  planning : PlanningData → Syntax
  property_drawer : Syntax
  quote_block : Syntax
  section : Syntax
  special_block : SpecialBlockData → Syntax
  src_block : SrcBlockData → Syntax
  table : TableData → Syntax
  table_row : TableRowData → Syntax
  verse_block : Syntax
  bold : Syntax
  code : CodeData → Syntax
  entity : EntityData → Syntax
  export_snippet : ExportSnippetData → Syntax
  footnote_reference : FootnoteReferenceData → Syntax
  inline_babel_call : InlineBabelCallData → Syntax
  inline_src_block : InlineSrcBlockData → Syntax
  italic : Syntax
  line_break : Syntax
  latex_fragment : LatexFragmentData → Syntax
  link : LinkData → Syntax
  macro : MacroData → Syntax
  radio_target : RadioTargetData → Syntax
  statistics_cookie : StatisticsCookieData → Syntax
  strike_through : Syntax
  subscript : SubscriptData → Syntax
  superscript : SuperscriptData → Syntax
  table_cell : Syntax
  target : TargetData → Syntax
  timestamp : TimestampData → Syntax
  underline : Syntax
  verbatim : VerbatimData → Syntax
  plain_text : Str → Syntax

-- `SyntaxT::from`, derived by the crate `strum`.
unfoldable pub kind_of : Syntax → SyntaxT
kind_of org_data = SyntaxT.org_data
kind_of (babel_call d) = SyntaxT.babel_call
kind_of center_block = SyntaxT.center_block
kind_of (clock d) = SyntaxT.clock
kind_of (comment d) = SyntaxT.comment
kind_of (comment_block d) = SyntaxT.comment_block
kind_of (diary_sexp d) = SyntaxT.diary_sexp
kind_of (drawer d) = SyntaxT.drawer
kind_of (dynamic_block d) = SyntaxT.dynamic_block
kind_of (example_block d) = SyntaxT.example_block
kind_of (export_block d) = SyntaxT.export_block
kind_of (fixed_width d) = SyntaxT.fixed_width
kind_of (footnote_definition d) = SyntaxT.footnote_definition
kind_of (headline d) = SyntaxT.headline
kind_of horizontal_rule = SyntaxT.horizontal_rule
kind_of (inline_task d) = SyntaxT.inline_task
kind_of (item d) = SyntaxT.item
kind_of (keyword d) = SyntaxT.keyword
kind_of (latex_environment d) = SyntaxT.latex_environment
kind_of (node_property d) = SyntaxT.node_property
kind_of paragraph = SyntaxT.paragraph
kind_of (plain_list d) = SyntaxT.plain_list
kind_of (planning d) = SyntaxT.planning
kind_of property_drawer = SyntaxT.property_drawer
kind_of quote_block = SyntaxT.quote_block
kind_of section = SyntaxT.section
kind_of (special_block d) = SyntaxT.special_block
kind_of (src_block d) = SyntaxT.src_block
kind_of (table d) = SyntaxT.table
kind_of (table_row d) = SyntaxT.table_row
kind_of verse_block = SyntaxT.verse_block
kind_of bold = SyntaxT.bold
kind_of (code d) = SyntaxT.code
kind_of (entity d) = SyntaxT.entity
kind_of (export_snippet d) = SyntaxT.export_snippet
kind_of (footnote_reference d) = SyntaxT.footnote_reference
kind_of (inline_babel_call d) = SyntaxT.inline_babel_call
kind_of (inline_src_block d) = SyntaxT.inline_src_block
kind_of italic = SyntaxT.italic
kind_of line_break = SyntaxT.line_break
kind_of (latex_fragment d) = SyntaxT.latex_fragment
kind_of (link d) = SyntaxT.link
kind_of (macro d) = SyntaxT.macro
kind_of (radio_target d) = SyntaxT.radio_target
kind_of (statistics_cookie d) = SyntaxT.statistics_cookie
kind_of strike_through = SyntaxT.strike_through
kind_of (subscript d) = SyntaxT.subscript
kind_of (superscript d) = SyntaxT.superscript
kind_of table_cell = SyntaxT.table_cell
kind_of (target d) = SyntaxT.target
kind_of (timestamp d) = SyntaxT.timestamp
kind_of underline = SyntaxT.underline
kind_of (verbatim d) = SyntaxT.verbatim
kind_of (plain_text d) = SyntaxT.plain_text

pub record Interval : Type 0 where
  pub start : ℕ
  pub end : ℕ

-- The parent pointer is left out: the code creates it empty and never sets it. `affiliated` is
-- the stub `Option<()>`.
mutual
  pub data SyntaxNode : Type 0 where
    node : Children → Syntax → Interval → Option Interval → ℕ → Option (Unit {0}) → SyntaxNode

  pub data Children : Type 0 where
    nil : Children
    cons : SyntaxNode → Children → Children

abbrev pub children_of : SyntaxNode → Children
children_of (node children d location content post_blank affiliated) = children

abbrev pub data_of : SyntaxNode → Syntax
data_of (node children d location content post_blank affiliated) = d

abbrev pub location_of : SyntaxNode → Interval
location_of (node children d location content post_blank affiliated) = location

abbrev pub content_of : SyntaxNode → Option Interval
content_of (node children d location content post_blank affiliated) = content

-- `element.children.replace(…)`
abbrev pub replace_children : SyntaxNode → Children → SyntaxNode
replace_children (node children d location content post_blank affiliated) new =
    node new d location content post_blank affiliated

-- `SyntaxNode::create_root`
abbrev pub create_root : SyntaxNode
create_root = node nil org_data (record { start = 0; end = 0 }) none 0 none
