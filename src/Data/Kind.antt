-- ===== src/Data/Kind.antt =====
-- `SyntaxT` of data.rs, the discriminants of `Syntax`, and its classification of the kinds.
pub mod Partition
use org_rs.Prelude.{Bool, true, false, ◌||◌}

pub data SyntaxT : Type 0 where
  org_data babel_call center_block clock comment comment_block : SyntaxT
  diary_sexp drawer dynamic_block example_block export_block fixed_width : SyntaxT
  footnote_definition headline horizontal_rule inline_task item keyword : SyntaxT
  latex_environment node_property paragraph plain_list planning property_drawer : SyntaxT
  quote_block section special_block src_block table table_row : SyntaxT
  verse_block bold code entity export_snippet footnote_reference : SyntaxT
  inline_babel_call inline_src_block italic line_break latex_fragment link : SyntaxT
  macro radio_target statistics_cookie strike_through subscript superscript : SyntaxT
  table_cell target timestamp underline verbatim plain_text : SyntaxT

unfoldable pub is_greater_element : SyntaxT → Bool
is_greater_element center_block = true
is_greater_element drawer = true
is_greater_element dynamic_block = true
is_greater_element footnote_definition = true
is_greater_element headline = true
is_greater_element inline_task = true
is_greater_element item = true
is_greater_element plain_list = true
is_greater_element property_drawer = true
is_greater_element quote_block = true
is_greater_element section = true
is_greater_element special_block = true
is_greater_element table = true
is_greater_element _ = false

unfoldable pub is_element : SyntaxT → Bool
is_element babel_call = true
is_element center_block = true
is_element clock = true
is_element comment = true
is_element comment_block = true
is_element diary_sexp = true
is_element drawer = true
is_element dynamic_block = true
is_element example_block = true
is_element export_block = true
is_element fixed_width = true
is_element footnote_definition = true
is_element headline = true
is_element horizontal_rule = true
is_element inline_task = true
is_element item = true
is_element keyword = true
is_element latex_environment = true
is_element node_property = true
is_element paragraph = true
is_element plain_list = true
is_element planning = true
is_element property_drawer = true
is_element quote_block = true
is_element section = true
is_element special_block = true
is_element src_block = true
is_element table = true
is_element table_row = true
is_element verse_block = true
is_element _ = false

unfoldable pub is_object : SyntaxT → Bool
is_object bold = true
is_object code = true
is_object entity = true
is_object export_snippet = true
is_object footnote_reference = true
is_object inline_babel_call = true
is_object inline_src_block = true
is_object italic = true
is_object line_break = true
is_object latex_fragment = true
is_object link = true
is_object macro = true
is_object radio_target = true
is_object statistics_cookie = true
is_object strike_through = true
is_object subscript = true
is_object superscript = true
is_object table_cell = true
is_object target = true
is_object timestamp = true
is_object underline = true
is_object verbatim = true
is_object plain_text = true
is_object _ = false

unfoldable pub is_recursive_object : SyntaxT → Bool
is_recursive_object bold = true
is_recursive_object footnote_reference = true
is_recursive_object italic = true
is_recursive_object link = true
is_recursive_object radio_target = true
is_recursive_object strike_through = true
is_recursive_object subscript = true
is_recursive_object superscript = true
is_recursive_object table_cell = true
is_recursive_object underline = true
is_recursive_object _ = false

unfoldable pub is_object_container : SyntaxT → Bool
is_object_container paragraph = true
is_object_container table_row = true
is_object_container verse_block = true
is_object_container bold = true
is_object_container footnote_reference = true
is_object_container italic = true
is_object_container link = true
is_object_container radio_target = true
is_object_container strike_through = true
is_object_container subscript = true
is_object_container superscript = true
is_object_container table_cell = true
is_object_container underline = true
is_object_container _ = false

unfoldable pub is_container : SyntaxT → Bool
unfolding is_greater_element is_object_container
is_container k = is_greater_element k || is_object_container k
