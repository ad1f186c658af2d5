-- ===== src/Data/Contain.antt =====
-- `SyntaxT::can_contain` of data.rs: the objects that an element or object may hold.
pub mod Laws
use org_rs.Prelude.{Bool, true, false}
use org_rs.Data.Kind.{
  SyntaxT, org_data, babel_call, center_block, clock, comment, comment_block, diary_sexp, drawer,
  dynamic_block, example_block, export_block, fixed_width, footnote_definition, headline,
  horizontal_rule, inline_task, item, keyword, latex_environment, node_property, paragraph,
  plain_list, planning, property_drawer, quote_block, section, special_block, src_block, table,
  table_row, verse_block, bold, code, entity, export_snippet, footnote_reference, inline_babel_call,
  inline_src_block, italic, line_break, latex_fragment, link, macro, radio_target,
  statistics_cookie, strike_through, subscript, superscript, table_cell, target, timestamp,
  underline, verbatim, plain_text, is_object,
}

-- `is_from_standard_set`
unfoldable pub is_from_standard_set : SyntaxT → Bool
unfolding is_object
is_from_standard_set table_cell = false
is_from_standard_set x = is_object x

unfoldable pub is_from_standard_set_no_line_break : SyntaxT → Bool
unfolding is_from_standard_set
is_from_standard_set_no_line_break line_break = false
is_from_standard_set_no_line_break x = is_from_standard_set x

-- The arm of `Keyword`, and those of `Link`, `RadioTarget`, `TableCell` and `TableRow`.
unfoldable pub keyword_can_contain : SyntaxT → Bool
unfolding is_from_standard_set
keyword_can_contain footnote_reference = false
keyword_can_contain x = is_from_standard_set x

unfoldable pub link_can_contain : SyntaxT → Bool
link_can_contain bold = true
link_can_contain code = true
link_can_contain entity = true
link_can_contain export_snippet = true
link_can_contain inline_babel_call = true
link_can_contain inline_src_block = true
link_can_contain italic = true
link_can_contain latex_fragment = true
link_can_contain macro = true
link_can_contain statistics_cookie = true
link_can_contain strike_through = true
link_can_contain subscript = true
link_can_contain superscript = true
link_can_contain underline = true
link_can_contain verbatim = true
link_can_contain _ = false

unfoldable pub radio_target_can_contain : SyntaxT → Bool
radio_target_can_contain bold = true
radio_target_can_contain code = true
radio_target_can_contain entity = true
radio_target_can_contain italic = true
radio_target_can_contain latex_fragment = true
radio_target_can_contain strike_through = true
radio_target_can_contain subscript = true
radio_target_can_contain superscript = true
radio_target_can_contain underline = true
radio_target_can_contain _ = false

unfoldable pub table_cell_can_contain : SyntaxT → Bool
table_cell_can_contain bold = true
table_cell_can_contain code = true
table_cell_can_contain entity = true
table_cell_can_contain export_snippet = true
table_cell_can_contain footnote_reference = true
table_cell_can_contain italic = true
table_cell_can_contain latex_fragment = true
table_cell_can_contain link = true
table_cell_can_contain macro = true
table_cell_can_contain radio_target = true
table_cell_can_contain strike_through = true
table_cell_can_contain subscript = true
table_cell_can_contain superscript = true
table_cell_can_contain target = true
table_cell_can_contain timestamp = true
table_cell_can_contain underline = true
table_cell_can_contain verbatim = true
table_cell_can_contain _ = false

unfoldable pub table_row_can_contain : SyntaxT → Bool
table_row_can_contain table_cell = true
table_row_can_contain _ = false

unfoldable pub can_contain : SyntaxT → SyntaxT → Bool
unfolding is_from_standard_set is_from_standard_set_no_line_break keyword_can_contain
    link_can_contain radio_target_can_contain table_cell_can_contain table_row_can_contain
can_contain bold that = is_from_standard_set that
can_contain italic that = is_from_standard_set that
can_contain footnote_reference that = is_from_standard_set that
can_contain paragraph that = is_from_standard_set that
can_contain strike_through that = is_from_standard_set that
can_contain subscript that = is_from_standard_set that
can_contain superscript that = is_from_standard_set that
can_contain underline that = is_from_standard_set that
can_contain verse_block that = is_from_standard_set that
can_contain headline that = is_from_standard_set_no_line_break that
can_contain inline_task that = is_from_standard_set_no_line_break that
can_contain item that = is_from_standard_set_no_line_break that
can_contain keyword that = keyword_can_contain that
can_contain link that = link_can_contain that
can_contain radio_target that = radio_target_can_contain that
can_contain table_cell that = table_cell_can_contain that
can_contain table_row that = table_row_can_contain that
can_contain _ that = false
