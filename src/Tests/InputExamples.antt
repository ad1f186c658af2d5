-- ===== src/Tests/InputExamples.antt =====
-- `Parser`, for the text "ab".
use org_rs.Prelude.{◌≡◌, refl}
use org_rs.Cursor.Metric.{base_next, base_prev, boundary_below, len_utf8_from_first_byte}
use org_rs.Cursor.Moves.{
  skip_whitespace, skip_whitespace_loop, get_next_char, get_prev_char, next, prev,
}
use org_rs.Cursor.State
use org_rs.Cursor.State.{Cursor}
use org_rs.Data.Syntax.{SyntaxNode, create_root, replace_children, kind_of}
use org_rs.Data.Kind.{is_greater_element}
use org_rs.Parser.Elements.{
  parse_buffer, parse_elements, elements_from, skip_to_headline, elements_loop, children_at,
  goes_inside,
}
use org_rs.Parser.Elements.Buffer.{enough_fuel}
use org_rs.Parser.Input
use org_rs.Parser.Input.{Parser, IsValid, run_parse_buffer, parse_buffer-again}
use org_rs.Parser.Mode.{ParseGranularity, next_mode}
use org_rs.Rust.Outcome.{ok}
use org_rs.Rust.Str.{byte_at, str_from, is_char_boundary}
use org_rs.Rust.Utf8.{encode_all, encode, first_char, is_whitespace}
use org_rs.Tests.Engine.{literal}
use org_rs.Tests.Paragraphs.{ab, paragraphs, paragraphs-AllEnsure, paragraphs-Kinds, PlainKind}
use org_rs.Tests.RunExamples.{
  letters, letters-AllChars, letters-Contract, one_section, section_first, paragraph_second,
}
use org_rs.Tests.Scan.{scan}

ab_parsed :
    parse_buffer scan literal paragraphs ParseGranularity.element 9 (State.new ab 0)
    ≡ ok (replace_children create_root one_section, State.new ab 0)
unfolding parse_buffer parse_elements elements_from skip_to_headline elements_loop children_at
    goes_inside kind_of next_mode is_greater_element skip_whitespace skip_whitespace_loop
    get_next_char get_prev_char next prev base_next base_prev boundary_below byte_at str_from
    is_char_boundary len_utf8_from_first_byte first_char is_whitespace
ab_parsed = rw (section_first, paragraph_second) refl

abbrev parsed_root : SyntaxNode
parsed_root = replace_children create_root one_section

abbrev parser_of_ab : Parser
parser_of_ab = Input.new (encode_all letters) ParseGranularity.element

letters_parsed :
    run_parse_buffer scan literal paragraphs (enough_fuel (encode_all letters)) parser_of_ab
    ≡ ok (parsed_root, parser_of_ab)
unfolding run_parse_buffer encode_all encode
letters_parsed = rw ab_parsed refl

parse_buffer-again_example :
    (parser_of_ab.input ≡ encode_all letters)
    × IsValid parser_of_ab
    × (run_parse_buffer scan literal paragraphs (enough_fuel (encode_all letters)) parser_of_ab
        ≡ ok (parsed_root, parser_of_ab))
parse_buffer-again_example =
    parse_buffer-again scan literal paragraphs ParseGranularity.element PlainKind letters
      letters-AllChars letters-Contract paragraphs-AllEnsure paragraphs-Kinds parsed_root
      parser_of_ab letters_parsed
