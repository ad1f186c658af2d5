-- ===== src/Tests/KeywordExamples.antt =====
-- The theorems on a keyword's line and on the tests at a line, applied to "#+NAME: x" and a newline.
use org_rs.Prelude.{ℕ, ◌≡◌, refl, true, false, Option, none, some, [], arith, inl, if◌then◌else◌}
use org_rs.Affiliated.Collect.{matched_group, value_begin, groups}
use org_rs.Affiliated.Output.{Group, equal}
use org_rs.Crates.Regex.{Captures, Match}
use org_rs.Cursor.Lines.Spec.{Clear, IsLineBegin, IsNextLine, NextAnswer}
use org_rs.Cursor.Regexes.{
  next_headline, regex_headline_multiline, looking_at, on_headline, is_some, is_multiline_regex,
  regex_headline_short, regex_empty_line,
}
use org_rs.Cursor.Regexes.Line.{
  rest_of_line, looking_at-line, on_headline-line, headline_from, next_headline-from,
}
use org_rs.Cursor.State.{new}
use org_rs.Rust.Outcome.{ok}
use org_rs.Rust.Str.{Str, codes, contains, is_char_boundary}
use org_rs.Tests.Engine.{literal}
use org_rs.Tests.Scan.{scan, first_index, first_first}

abbrev pub named : Str
named = codes "#+NAME: x\n"

abbrev pub name_match : Match
name_match = record { start = 2; end = 6 }

abbrev pub name_captures : Captures
name_captures = record {
  whole = record { start = 0; end = 8 };
  name = λ n. if equal (codes n) (codes "NAME") then some name_match else none;
  get = λ i. none;
}

newline_at_nine : first_index 10 named ≡ some 9
unfolding first_index
newline_at_nine = refl

named-Clear : Clear named 0 9
named-Clear i lo hi = first_first 10 named 9 i newline_at_nine hi

pub named-IsNextLine : IsNextLine named 0 10
named-IsNextLine = record {
  above = omega arith;
  inside = omega arith;
  newline_before = refl;
  clear = named-Clear;
}

pub name_group : matched_group name_captures groups ≡ ok (Group.name, name_match)
unfolding matched_group
name_group = refl

pub value_at_seven : value_begin 0 name_match (name_captures.name "SECONDARY") ≡ 7
unfolding value_begin
value_at_seven = refl

pub starts_at_seven : is_char_boundary named 7 ≡ true
unfolding is_char_boundary
starts_at_seven = refl

empty_line_single : is_multiline_regex regex_empty_line ≡ false
unfolding is_multiline_regex contains
empty_line_single = refl

looking_at-line_example :
    (r : Option ℕ) × NextAnswer named 7 r
    × (looking_at scan literal regex_empty_line (new named 7)
        ≡ ok (literal.find regex_empty_line (rest_of_line named 7 r), new named 7))
looking_at-line_example =
    looking_at-line scan literal named regex_empty_line 7 empty_line_single (omega arith)
      starts_at_seven

three-IsLineBegin : IsLineBegin named 3 0
three-IsLineBegin = record {
  below = omega arith;
  starts = inl refl;
  clear = λ i lo hi. named-Clear i lo (omega arith);
}

pub starts_at_zero : is_char_boundary named 0 ≡ true
unfolding is_char_boundary
starts_at_zero = refl

on_headline-line_example :
    (r : Option ℕ) × NextAnswer named 0 r
    × (on_headline scan literal (new named 3)
        ≡ ok (is_some (literal.find regex_headline_short (rest_of_line named 0 r)), new named 3))
on_headline-line_example =
    on_headline-line scan literal named 3 0 (omega arith) three-IsLineBegin starts_at_zero

pub starts_at_end : is_char_boundary named 10 ≡ true
unfolding is_char_boundary
starts_at_end = refl

next_headline-from_example :
    next_headline scan literal (new named 0)
    ≡ ok (headline_from scan literal named 10 (literal.find regex_headline_multiline []))
next_headline-from_example =
    next_headline-from scan literal named 0 (some 10) (omega arith) named-IsNextLine starts_at_end
