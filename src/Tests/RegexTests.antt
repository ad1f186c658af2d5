-- ===== src/Tests/RegexTests.antt =====
-- The test module of cursor.rs: the tests with regular expressions, by the matcher, and their runs with
-- a matcher for these expressions.
use org_rs.Prelude.{Bool, Option, none, some, ◌≡◌, refl, ◌==◌, ◌+◌}
use org_rs.Affiliated.Output.{equal}
use org_rs.Crates.Regex.{Match, RegexEngine}
use org_rs.Cursor.Lines.{goto_line_begin, goto_next_line}
use org_rs.Cursor.Metric.{lines_is_boundary, lines_prev, lines_next}
use org_rs.Cursor.Moves.{next, prev, at_or_prev}
use org_rs.Cursor.Regexes.{
  looking_at, on_headline, next_headline, re_search_forward, re_search_within, haystack_end,
  is_multiline_regex, regex_empty_line, regex_headline_short, is_some,
}
use org_rs.Cursor.State.{M, new, pure, lift, set, get_pos, get_text, ◌>>=◌, ◌>>◌}
use org_rs.Rust.Outcome.{ok, panic, unwrap_none}
use org_rs.Rust.Str.{
  Str, codes, contains, str_between, str_from, is_char_boundary, bytes_to, bytes_from, byte_at,
}
use org_rs.Tests.CursorTests.{holds, is, answers, yes, no, begin, seven, anywhere}
use org_rs.Tests.Scan.{scan, first_index, last_index}
use org_rs.Tests.Small.{small, regex_digit}

abbrev some_of : M (Option Match) → M Bool
some_of m = do found ← m; pure (is_some found)

abbrev match_of : Option Match → M Match
match_of none = lift (panic unwrap_none)
match_of (some m) = pure m

abbrev headlined : Str
headlined = codes "Some text\n**** headline\n"

module _ (engine : RegexEngine) where
  abbrev looking_at_headline : M (Unit {0})
  looking_at_headline = do
    begin headlined 0
    no (some_of (looking_at scan engine regex_headline_short))
    set 4
    no (some_of (looking_at scan engine regex_headline_short))
    is 4 get_pos
    set 15
    no (some_of (looking_at scan engine regex_headline_short))
    set 10
    found ← looking_at scan engine regex_headline_short
    m ← match_of found
    holds (0 == m.start)
    holds (5 == m.end)
    text ← get_text
    slice ← lift (str_between text (10 + m.start) (10 + m.end))
    holds (equal (codes "**** ") slice)
    is 10 get_pos

  abbrev looking_at_empty_line_re : M (Unit {0})
  looking_at_empty_line_re = do
    begin (codes "First line\n   \n\nFourth line") 0
    no (some_of (looking_at scan engine regex_empty_line))
    goto_next_line scan
    yes (some_of (looking_at scan engine regex_empty_line))
    goto_next_line scan
    yes (some_of (looking_at scan engine regex_empty_line))
    goto_next_line scan
    no (some_of (looking_at scan engine regex_empty_line))

  abbrev on_headline_test : M (Unit {0})
  on_headline_test = do
    begin headlined 0
    no (on_headline scan engine)
    set 4
    no (on_headline scan engine)
    is 4 get_pos
    set 15
    yes (on_headline scan engine)
    set 10
    yes (on_headline scan engine)
    is 10 get_pos

  abbrev next_headline_test : M (Unit {0})
  next_headline_test = do
    begin headlined 0
    answers (some 10) (next_headline scan engine)
    is 10 get_pos
    begin (codes "* First\n** Second\n") 0
    answers (some 8) (next_headline scan engine)
    is 8 get_pos

  abbrev re_search_forward_test : M (Unit {0})
  re_search_forward_test = do
    begin seven 0
    answers (some 15) (re_search_forward engine regex_digit none)
    is 15 get_pos
    answers none (re_search_forward engine regex_digit (some 10))
    is 15 get_pos
    answers (some 25) (re_search_forward engine regex_digit (some 25))
    answers none (re_search_forward engine regex_digit (some 24))
    is 25 get_pos

looking_at_headline_passes : looking_at_headline small anywhere ≡ ok (tt, new headlined 10)
unfolding looking_at haystack_end is_multiline_regex contains lines_next bytes_from first_index
    str_between is_char_boundary
looking_at_headline_passes = refl

looking_at_empty_line_re_passes :
    looking_at_empty_line_re small anywhere
    ≡ ok (tt, new (codes "First line\n   \n\nFourth line") 16)
unfolding looking_at haystack_end is_multiline_regex contains lines_next bytes_from first_index
    str_between is_char_boundary goto_next_line next
looking_at_empty_line_re_passes = refl

on_headline_test_passes : on_headline_test small anywhere ≡ ok (tt, new headlined 10)
unfolding on_headline looking_at haystack_end is_multiline_regex contains lines_next bytes_from
    first_index str_between is_char_boundary goto_line_begin at_or_prev prev lines_is_boundary
    lines_prev bytes_to byte_at last_index
on_headline_test_passes = refl

next_headline_test_passes :
    next_headline_test small anywhere ≡ ok (tt, new (codes "* First\n** Second\n") 8)
unfolding next_headline next lines_next bytes_from first_index str_from is_char_boundary
next_headline_test_passes = refl

re_search_forward_test_passes : re_search_forward_test small anywhere ≡ ok (tt, new seven 25)
unfolding re_search_forward re_search_within str_between is_char_boundary
re_search_forward_test_passes = refl
