-- ===== src/Tests/ParserExamples.antt =====
-- The theorems on kinds, keywords and the choice of a parser, applied to concrete data.
use org_rs.Prelude.{◌≡◌, refl, true, ◌||◌, none, some, List, [], ◌∷◌, ◌++◌, arith, if◌then◌else◌}
use org_rs.Affiliated.Collect.{
  collect_one, collect_affiliated_keywords, collect_from_bol, collect_loop, matched_group,
  value_begin, groups,
}
use org_rs.Affiliated.Collect.LastLine.{collect_one_last_line}
use org_rs.Affiliated.Output.{default, Group, push_attr, equal}
use org_rs.Affiliated.Output.Attr.{values, values-push_attr}
use org_rs.Crates.Regex.{Captures, Match}
use org_rs.Cursor.Lines.Spec.{Clear}
use org_rs.Cursor.Lines.{
  line_beginning_position, line_begin_move, line_begin_back, prev_lines_or_start, repeat,
  abs_pred_i32, goto_next_line, goto_line_begin, is_bol,
}
use org_rs.Cursor.Metric.{lines_next, lines_is_boundary, lines_prev, base_next}
use org_rs.Cursor.Moves.{at_or_prev, next, prev, char_after, get_next_char}
use org_rs.Cursor.Regexes.{looking_at, haystack_end, is_multiline_regex, on_headline, capturing_at}
use org_rs.Cursor.State.{Cursor, new}
use org_rs.Data.Contain.{can_contain}
use org_rs.Data.Contain.Laws.{has_secondary, can_contain-is_object, can_contain-containers}
use org_rs.Data.Kind.{SyntaxT, is_object, is_object_container}
use org_rs.Data.Kind.Partition.{IsClassified, SyntaxT-IsClassified}
use org_rs.Parser.Branch.{
  hashtag_or_other, with_affiliated, without_hashtag, after_hashtag, plain_list, block_parser,
  block_or, try,
}
use org_rs.Parser.Current.{
  current_element, get_current_element, headline_stage, section_stage, planning_stage,
  after_headline, drawer_stage, line_stage, inlinetask_stage, affiliated_stage, first_section_stage,
}
use org_rs.Parser.Mode.{ParseGranularity, ParserMode}
use org_rs.Rust.Outcome.{ok, panic, not_char_boundary}
use org_rs.Rust.Str.{
  Str, codes, bytes_to, bytes_from, str_between, is_char_boundary, byte_at, contains, str_from,
}
use org_rs.Rust.Utf8.{first_char}
use org_rs.Tests.Engine.{literal}
use org_rs.Tests.Scan.{scan, first_index, last_index, first_none}
use org_rs.Tests.Constant.{para, constant}

SyntaxT-IsClassified_example : IsClassified SyntaxT.paragraph
SyntaxT-IsClassified_example = SyntaxT-IsClassified SyntaxT.paragraph

row_contains_cell : can_contain SyntaxT.table_row SyntaxT.table_cell ≡ true
unfolding can_contain
row_contains_cell = refl

can_contain-is_object_example : is_object SyntaxT.table_cell ≡ true
can_contain-is_object_example =
    can_contain-is_object SyntaxT.table_row SyntaxT.table_cell row_contains_cell

can_contain-containers_example :
    (can_contain SyntaxT.headline SyntaxT.bold
      ≡ (is_object_container SyntaxT.headline || has_secondary SyntaxT.headline))
    × ((that : SyntaxT)
        → can_contain SyntaxT.headline that ≡ true
        → (is_object_container SyntaxT.headline || has_secondary SyntaxT.headline) ≡ true)
can_contain-containers_example = can_contain-containers SyntaxT.headline

abbrev html : List (Str × List Str)
html = (codes "ATTR_HTML", codes "a" ∷ []) ∷ []

values-push_attr_example :
    values (codes "ATTR_HTML") (push_attr (codes "ATTR_HTML") (codes "b") html) ≡ (
      if equal (codes "ATTR_HTML") (codes "ATTR_HTML")
      then values (codes "ATTR_HTML") html ++ codes "b" ∷ []
      else values (codes "ATTR_HTML") html)
values-push_attr_example = values-push_attr (codes "ATTR_HTML") (codes "ATTR_HTML") (codes "b") html

-- "#+NAME:", whose group NAME is matched.
abbrev keyword : Str
keyword = codes "#+NAME:"

abbrev name_match : Match
name_match = record { start = 2; end = 6 }

abbrev name_captures : Captures
name_captures = record {
  whole = record { start = 0; end = 7 };
  name = λ n. if equal (codes n) (codes "NAME") then some name_match else none;
  get = λ i. none;
}

no_newline : first_index 10 keyword ≡ none
unfolding first_index
no_newline = refl

keyword-Clear : Clear keyword 0 7
keyword-Clear i lo hi = first_none 10 keyword i no_newline

name_group : matched_group name_captures groups ≡ ok (Group.name, name_match)
unfolding matched_group
name_group = refl

value_at_end : value_begin 0 name_match (name_captures.name "SECONDARY") ≡ 7
unfolding value_begin
value_at_end = refl

collect_one_last_line_example :
    collect_one scan literal name_captures default (new keyword 0) ≡ panic not_char_boundary
collect_one_last_line_example =
    collect_one_last_line scan literal keyword 0 name_captures default Group.name name_match
      (omega arith) keyword-Clear (omega arith) name_group value_at_end

abbrev word : Cursor
word = new (codes "ab") 0

-- In the mode `Planning` none of the expressions matches, and the paragraph's parser runs.
word_runs :
    current_element scan literal constant ParseGranularity.element 2 ParserMode.planning none word
    ≡ ok (para, word)
unfolding current_element get_current_element headline_stage section_stage planning_stage
    after_headline drawer_stage line_stage inlinetask_stage affiliated_stage with_affiliated
    hashtag_or_other without_hashtag after_hashtag plain_list block_parser block_or try
    first_section_stage on_headline capturing_at line_beginning_position line_begin_move
    line_begin_back prev_lines_or_start repeat abs_pred_i32 goto_next_line goto_line_begin is_bol
    at_or_prev next prev char_after get_next_char lines_is_boundary lines_prev bytes_to last_index
    first_char byte_at collect_affiliated_keywords collect_from_bol collect_loop looking_at
    haystack_end is_multiline_regex contains lines_next bytes_from str_between is_char_boundary
    first_index base_next str_from
word_runs = refl
