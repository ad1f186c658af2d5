-- ===== src/Tests/RunExamples.antt =====
-- The theorems on runs, applied to the text "ab".
use org_rs.Prelude.{◌≡◌, refl, none, some, List, [], ◌∷◌, arith}
use org_rs.Prelude.Int.{pos}
use org_rs.Affiliated.Collect.{collect_affiliated_keywords, collect_from_bol, collect_loop}
use org_rs.Affiliated.Collect.Collected.{Collected, collect_affiliated_keywords-Collected}
use org_rs.Cursor.Lines.{
  is_bol, line_beginning_position, line_end_position, line_begin_move, line_begin_back,
  prev_lines_or_start, repeat, abs_pred_i32, goto_next_line, goto_line_begin,
}
use org_rs.Cursor.Metric.{lines_next, lines_is_boundary, lines_prev, base_next}
use org_rs.Cursor.Moves.{char_after, at_or_prev, next, prev, get_next_char}
use org_rs.Cursor.Moves.Whitespace.{skipped, left}
use org_rs.Cursor.Moves.Zipper.{between}
use org_rs.Cursor.Regexes.{
  looking_at, capturing_at, on_headline, next_headline, haystack_end, is_multiline_regex,
  regex_empty_line,
}
use org_rs.Cursor.Runs.Saved.{save_excursion}
use org_rs.Parser.Branch.{
  hashtag_or_other, with_affiliated, without_hashtag, after_hashtag, plain_list, block_parser,
  block_or, try,
}
use org_rs.Parser.Current.{
  current_element, get_current_element, headline_stage, section_stage, planning_stage,
  after_headline, drawer_stage, line_stage, inlinetask_stage, affiliated_stage, first_section_stage,
}
use org_rs.Parser.Current.Answers.{current_element-Answer}
use org_rs.Parser.Elements.{parse_elements, parse_buffer}
use org_rs.Parser.Elements.Tiling.{parse_elements-Tiled}
use org_rs.Parser.Interface.{stub}
use org_rs.Parser.Current.Inlinetask.{inlinetask_parser_unused}
use org_rs.Parser.Elements.Buffer.{enough_fuel, Parsed, parse_buffer-Parsed}
use org_rs.Rust.Outcome.{ok}
use org_rs.Rust.Utf8.{Char, encode_all, encode, first_char}
use org_rs.Rust.Utf8.Encoding.{AllChars}
use org_rs.Tests.Engine.{literal}
use org_rs.Tests.Scan.{scan, first_index, last_index}
use org_rs.Cursor.Runs.{Meets, Same}
use org_rs.Cursor.State.{Cursor, new}
use org_rs.Data.Syntax.{Syntax, Children, nil, cons, replace_children}
use org_rs.Parser.Contract.{Answer, Contract}
use org_rs.Parser.Elements.Spec.{TiledFrom}
use org_rs.Parser.Mode.{ParserMode, ParseGranularity}
use org_rs.Rust.Str.{
  bytes_to, bytes_from, str_between, is_char_boundary, byte_at, contains, str_from,
}
use org_rs.Tests.Paragraphs.{
  to_end, around, paragraphs, ab, paragraphs-Contract, PlainKind, paragraphs-AllEnsure,
  paragraphs-Kinds,
}

abbrev at_start : Cursor
at_start = new ab 0

save_excursion_example :
    Same (looking_at scan literal regex_empty_line)
    × Same (capturing_at scan literal regex_empty_line)
    × Same (on_headline scan literal)
    × Same (is_bol scan)
    × Same (line_beginning_position scan (some (pos 2)))
    × Same (line_end_position scan (some (pos 2)))
    × Same (char_after 1)
save_excursion_example = save_excursion scan literal regex_empty_line (some (pos 2)) 1

collect_affiliated_keywords-Collected_example :
    Meets (Collected at_start) (collect_affiliated_keywords scan literal 2 at_start)
collect_affiliated_keywords-Collected_example =
    collect_affiliated_keywords-Collected scan literal 2 at_start (omega arith) (omega arith)

current_element-Answer_example :
    Meets
      (λ a d. Answer ab 0 1 a d × (d.pos ≡ 0))
      (current_element scan literal paragraphs ParseGranularity.element 2 ParserMode.planning none
        at_start)
current_element-Answer_example =
    current_element-Answer scan literal paragraphs ParseGranularity.element ab paragraphs-Contract
      none 2 (omega arith) ParserMode.planning at_start refl (omega arith)

parse_elements-Tiled_example :
    Meets
      (λ kids d. (d ≡ at_start) × TiledFrom literal ParseGranularity.element ab 0 2 kids)
      (parse_elements scan literal paragraphs ParseGranularity.element 9 0 2
        ParserMode.first_section none at_start)
parse_elements-Tiled_example =
    parse_elements-Tiled scan literal paragraphs ParseGranularity.element ab paragraphs-Contract 9 0
      2 ParserMode.first_section none (omega arith) (omega arith) (omega arith) at_start refl

-- A section, and in it a paragraph.
abbrev pub one_section : Children
one_section =
    cons
      (replace_children (around Syntax.section at_start)
        (cons (to_end Syntax.paragraph 0 at_start) nil))
      nil

pub section_first :
    current_element scan literal paragraphs ParseGranularity.element 2 ParserMode.first_section none
      at_start
    ≡ ok (around Syntax.section at_start, at_start)
unfolding current_element get_current_element headline_stage section_stage first_section_stage
    on_headline next_headline looking_at haystack_end is_multiline_regex contains lines_next
    goto_line_begin at_or_prev next prev bytes_from str_between is_char_boundary first_index
    str_from lines_prev lines_is_boundary
section_first = refl

pub paragraph_second :
    current_element scan literal paragraphs ParseGranularity.element 2 ParserMode.planning none
      at_start
    ≡ ok (to_end Syntax.paragraph 0 at_start, at_start)
unfolding current_element get_current_element headline_stage section_stage planning_stage
    after_headline drawer_stage line_stage inlinetask_stage affiliated_stage with_affiliated
    hashtag_or_other without_hashtag after_hashtag plain_list block_parser block_or try
    first_section_stage on_headline capturing_at line_beginning_position line_begin_move
    line_begin_back prev_lines_or_start repeat abs_pred_i32 goto_next_line goto_line_begin is_bol
    at_or_prev next prev char_after get_next_char lines_is_boundary lines_prev bytes_to last_index
    first_char byte_at collect_affiliated_keywords collect_from_bol collect_loop looking_at
    haystack_end is_multiline_regex contains lines_next bytes_from str_between is_char_boundary
    first_index base_next str_from
paragraph_second = refl

abbrev pub letters : List Char
letters = 97 ∷ 98 ∷ []

pub letters-AllChars : AllChars letters
letters-AllChars = (omega arith, (omega arith, tt))

pub letters-Contract : Contract (encode_all letters) paragraphs
unfolding encode_all encode
letters-Contract = paragraphs-Contract

parse_buffer-Parsed_example :
    Meets
      (λ root d.
        (d ≡ between (skipped letters) (left letters))
        × Parsed literal (encode_all letters) PlainKind ParseGranularity.element root)
      (parse_buffer scan literal paragraphs ParseGranularity.element
        (enough_fuel (encode_all letters))
        (new (encode_all letters) 0))
parse_buffer-Parsed_example =
    parse_buffer-Parsed scan literal paragraphs ParseGranularity.element PlainKind letters
      letters-AllChars letters-Contract paragraphs-AllEnsure paragraphs-Kinds 0

inlinetask_parser_unused_example :
    current_element scan literal paragraphs ParseGranularity.element 2 ParserMode.planning none
      at_start
    ≡ current_element scan literal
        (record paragraphs { inlinetask_parser = λ _ _. stub })
        ParseGranularity.element
        2
        ParserMode.planning
        none
        at_start
inlinetask_parser_unused_example =
    inlinetask_parser_unused scan literal paragraphs ParseGranularity.element (λ _ _. stub) none 2
      at_start ParserMode.planning
