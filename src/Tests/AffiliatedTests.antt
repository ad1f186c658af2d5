-- ===== src/Tests/AffiliatedTests.antt =====
-- The test module of affiliated.rs, less the test of the expression alone, and its runs with a matcher
-- for the lines of the tests.
use org_rs.Prelude.{
  ℕ, ◌+◌, Bool, not, Option, none, some, [], ◌∷◌, ◌++◌, ◌≡◌, refl, ◌==◌, length, if◌then◌else◌,
  String,
}
use org_rs.Affiliated.Collect.{
  collect_affiliated_keywords, collect_from_bol, collect_loop, collect_one, matched_group,
  value_begin, regex_affiliated,
}
use org_rs.Affiliated.Equality.{
  eq, vec_eq, elements_eq, option_eq, dual_val_eq, hash_map_eq, entries_in, get,
}
use org_rs.Affiliated.Output.{AffiliatedData, DualVal, StringOrObject, raw, equal, push_attr, store}
use org_rs.Crates.Regex.{Match, Captures, RegexEngine}
use org_rs.Cursor.Lines.{goto_next_line, is_bol, line_end_position, line_end_move}
use org_rs.Cursor.Metric.{lines_is_boundary, lines_next, base_prev, boundary_below}
use org_rs.Cursor.Moves.{next, prev}
use org_rs.Cursor.Regexes.{looking_at, capturing_at, haystack_end, is_multiline_regex, is_some}
use org_rs.Cursor.State.{M, new, pure, lift, get_pos, ◌>>=◌, ◌>>◌}
use org_rs.Rust.Outcome.{Outcome, ok, panic, unwrap_none}
use org_rs.Rust.Str.{Str, codes, contains, str_between, is_char_boundary, bytes_from, byte_at}
use org_rs.Rust.Trim.{to_ascii_uppercase, trim}
use org_rs.Rust.Utf8.{encode_all, first_char, is_whitespace, encode}
use org_rs.Tests.CursorTests.{holds, is, yes, no, begin, anywhere}
use org_rs.Tests.Scan.{scan, first_index}
use org_rs.Tests.Small.{small, checked, checked-IsMatchIn}

abbrev part : ℕ → ℕ → Option Match
part a b = some (record { start = a; end = b })

abbrev caption_line : Str
caption_line = codes "#+caPtion[GIT]: org-rs"

abbrev attr_line : Str
attr_line = codes "#+attr_html: :file filename.ext"

-- The groups of a line with a caption behind `n` bytes, and of the line with an attribute.
abbrev caption_groups : ℕ → String → Option Match
caption_groups n name =
    if equal (codes name) (codes "CAPTION")
    then part (n + 2) (n + 9)
    else if equal (codes name) (codes "SECONDARY")
    then part (n + 10) (n + 13)
    else none

abbrev attr_groups : String → Option Match
attr_groups name = if equal (codes name) (codes "ATTR") then part 2 11 else none

abbrev keywords_in : Str → Option Captures
keywords_in s =
    if equal s caption_line
    then some (record {
      whole = record { start = 0; end = 16 };
      name = caption_groups 0;
      get = λ i. none;
    })
    else if equal s (codes " " ++ caption_line)
    then some (record {
      whole = record { start = 0; end = 17 };
      name = caption_groups 1;
      get = λ i. none;
    })
    else if equal s attr_line
    then some
        (record { whole = record { start = 0; end = 13 }; name = attr_groups; get = λ i. none })
    else none

abbrev whole_of : Option Captures → Option Match
whole_of none = none
whole_of (some c) = some c.whole

abbrev keyword_lines : RegexEngine
keyword_lines = record {
  find = λ re s.
      checked s (if equal re regex_affiliated then whole_of (keywords_in s) else small.find re s);
  captures = λ re s. if equal re regex_affiliated then keywords_in s else none;
  find-IsMatchIn = λ re s m.
      checked-IsMatchIn s
        (if equal re regex_affiliated then whole_of (keywords_in s) else small.find re s) m;
}

abbrev found_in {ℓ} : {A : Type ℓ} → M (Option A) → M Bool
found_in m = do found ← m; pure (is_some found)

abbrev expected_re : Str
expected_re =
    codes
      "(?i)^[ \\t]*#\\+(?:(?:(?P<CAPTION>CAPTION)|(?P<RESULTS>RESULTS?))(?:\\[(?P<SECONDARY>.*)\\])?|(?P<HEADER>HEADERS?)|(?P<PLOT>PLOT)|(?P<NAME>(?:DATA|LABEL|NAME|RESNAME|(?:S(?:OURC|RCNAM)|TBLNAM)E))|(?P<ATTR>ATTR_[-_A-Za-z0-9]+)):[ \\t]*"

abbrev test_re : M (Unit {0})
test_re = holds (equal expected_re regex_affiliated)

abbrev data_of : Option AffiliatedData → M AffiliatedData
data_of none = lift (panic unwrap_none)
data_of (some a) = pure a

abbrev holds_of : Outcome Bool → M (Unit {0})
holds_of o = do b ← lift o; holds b

abbrev two_keywords : Str
two_keywords = caption_line ++ (codes "\n" ++ (attr_line ++ codes "\n"))

abbrev test_caption : DualVal StringOrObject
test_caption = record { value = raw (codes "org-rs"); secondary = some (raw (codes "GIT")) }

module _ (engine : RegexEngine) where
  abbrev looking_at_affiliated_re : M (Unit {0})
  looking_at_affiliated_re = do
    begin (codes " \n " ++ caption_line) 0
    no (found_in (looking_at scan engine regex_affiliated))
    goto_next_line scan
    is 2 get_pos
    yes (found_in (looking_at scan engine regex_affiliated))

  abbrev capturing_at_affiliated_re : M (Unit {0})
  capturing_at_affiliated_re = do
    begin (attr_line ++ (codes "\n" ++ caption_line)) 0
    yes (found_in (capturing_at scan engine regex_affiliated))

  abbrev collect_from : Str → M (ℕ × Option AffiliatedData)
  collect_from text = do begin text 0; collect_affiliated_keywords scan engine (length text)

  abbrev collect_affiliated_small : M (Unit {0})
  collect_affiliated_small = do
    orphans ← collect_from (two_keywords ++ codes "\n")
    holds (orphans.0 == 0)
    holds (not (is_some orphans.1))
    maybe_collected ← collect_from (two_keywords ++ codes "#+BEGIN_SRC")
    holds (maybe_collected.0 == 0)
    holds (is_some maybe_collected.1)
    collected ← data_of maybe_collected.1
    holds_of
        (hash_map_eq ((codes "ATTR_HTML", codes ":file filename.ext" ∷ []) ∷ []) collected.attr)
    holds_of (vec_eq (dual_val_eq eq) (test_caption ∷ []) collected.caption)

test_re_passes : test_re anywhere ≡ ok (tt, anywhere)
test_re_passes = refl

looking_at_affiliated_re_passes :
    looking_at_affiliated_re keyword_lines anywhere ≡ ok (tt, new (codes " \n " ++ caption_line) 2)
unfolding looking_at haystack_end is_multiline_regex contains lines_next bytes_from first_index
    str_between is_char_boundary goto_next_line next
looking_at_affiliated_re_passes = refl

capturing_at_affiliated_re_passes :
    capturing_at_affiliated_re keyword_lines anywhere
    ≡ ok (tt, new (attr_line ++ (codes "\n" ++ caption_line)) 0)
unfolding capturing_at haystack_end is_multiline_regex contains lines_next bytes_from first_index
    str_between is_char_boundary
capturing_at_affiliated_re_passes = refl

collect_affiliated_small_passes :
    collect_affiliated_small keyword_lines anywhere
    ≡ ok (tt, new (two_keywords ++ codes "#+BEGIN_SRC") 55)
unfolding collect_affiliated_keywords collect_from_bol collect_loop collect_one matched_group
    value_begin store push_attr eq vec_eq elements_eq option_eq dual_val_eq hash_map_eq entries_in
    get looking_at capturing_at haystack_end is_multiline_regex contains lines_next bytes_from
    first_index str_between is_char_boundary goto_next_line next prev is_bol lines_is_boundary
    byte_at line_end_position line_end_move base_prev boundary_below to_ascii_uppercase trim
    encode_all first_char is_whitespace encode
collect_affiliated_small_passes = refl
