-- ===== src/Tests/TwoNames.antt =====
-- The collection of affiliated keywords, run on two lines that both give a name.
use org_rs.Prelude.{◌≡◌, refl, true, none, some, [], ◌∷◌, List, arith, inl, inr}
use org_rs.Affiliated.Collect.{collect_affiliated_keywords}
use org_rs.Affiliated.Collect.Block.{KeywordLine}
use org_rs.Affiliated.Collect.Block.Gathered.{gathered}
use org_rs.Affiliated.Collect.Block.Keywords.{
  Keyword, keyword, DataOf, Keywords, no_more, on_line, collect_affiliated_keywords-DataOf,
}
use org_rs.Affiliated.Output.{AffiliatedData, Group}
use org_rs.Cursor.Lines.Spec.{Clear, IsNextLine}
use org_rs.Cursor.Regexes.{regex_empty_line}
use org_rs.Cursor.Regexes.Line.{rest_of_line}
use org_rs.Cursor.State.{new}
use org_rs.Rust.Outcome.{ok}
use org_rs.Rust.Str.{Str, codes, is_char_boundary}
use org_rs.Rust.Trim.{trim}
use org_rs.Rust.Utf8.{encode_all, first_char, is_whitespace, encode}
use org_rs.Tests.BlockExamples.{keywords}
use org_rs.Tests.KeywordExamples.{name_match, name_captures}
use org_rs.Tests.Scan.{scan, first_index, first_first}

abbrev two_names : Str
two_names = codes "#+NAME: x\n#+NAME: y\n"

newline_at_nine : first_index 10 two_names ≡ some 9
unfolding first_index
newline_at_nine = refl

first-IsNextLine : IsNextLine two_names 0 10
first-IsNextLine = record {
  above = omega arith;
  inside = omega arith;
  newline_before = refl;
  clear = λ i lo hi. first_first 10 two_names 9 i newline_at_nine hi;
}

second-Clear : Clear two_names 10 19
second-Clear i lo hi = ground arith

second-IsNextLine : IsNextLine two_names 10 20
second-IsNextLine = record {
  above = omega arith;
  inside = omega arith;
  newline_before = refl;
  clear = second-Clear;
}

boundaries :
    (is_char_boundary two_names 0 ≡ true)
    × (is_char_boundary two_names 7 ≡ true)
    × (is_char_boundary two_names 10 ≡ true)
    × (is_char_boundary two_names 17 ≡ true)
    × (is_char_boundary two_names 20 ≡ true)
unfolding is_char_boundary
boundaries = (refl, refl, refl, refl, refl)

abbrev first_line : KeywordLine keywords two_names 0 10
first_line = record {
  cap = name_captures;
  group = Group.name;
  found = name_match;
  secondary = none;
  backend = [];
  first = 7;
  next = first-IsNextLine;
  boundary = boundaries.0;
  captured = refl;
  matched = (refl, refl, refl, refl, refl);
  secondary_taken = refl;
  backend_taken = refl;
  value_at = refl;
  value_inside = omega arith;
  value_boundary = boundaries.1;
}

abbrev second_line : KeywordLine keywords two_names 10 20
second_line = record {
  cap = name_captures;
  group = Group.name;
  found = name_match;
  secondary = none;
  backend = [];
  first = 17;
  next = second-IsNextLine;
  boundary = boundaries.2;
  captured = refl;
  matched = (refl, refl, refl, refl, refl);
  secondary_taken = refl;
  backend_taken = refl;
  value_at = refl;
  value_inside = omega arith;
  value_boundary = boundaries.3;
}

abbrev two_keywords : List Keyword
two_keywords = keyword Group.name (codes "x") none [] ∷ keyword Group.name (codes "y") none [] ∷ []

two_names-Keywords : Keywords keywords two_names 20 0 two_keywords 20
unfolding trim encode_all first_char is_whitespace encode
two_names-Keywords =
    on_line 0 10 20 (keyword Group.name (codes "y") none [] ∷ []) first_line (omega arith) (
      on_line 10 20 20 [] second_line (omega arith) (
        no_more 20 none (record {
          inside = omega arith;
          boundary = boundaries.4;
          line = λ i lo hi. absurd (omega arith);
          over = inr refl;
        })))

collect_affiliated_keywords-DataOf_example :
    (out : AffiliatedData) × DataOf two_keywords out
    × (collect_affiliated_keywords scan keywords 20 (new two_names 0)
        ≡ ok (
            gathered scan keywords two_names 0 20 out
              (keywords.find regex_empty_line (rest_of_line two_names 20 none))))
collect_affiliated_keywords-DataOf_example =
    collect_affiliated_keywords-DataOf scan keywords two_names 20 0 20 two_keywords none (inl refl)
      two_names-Keywords (λ i lo hi. absurd (omega arith))
