-- ===== src/Tests/CursorTests.antt =====
-- The test module of cursor.rs: the tests that need no regular expression, as methods that panic where
-- an assertion fails, and their runs.
use org_rs.Prelude.{
  ℕ, Bool, true, false, not, Option, none, some, List, [], ◌∷◌, ◌++◌, ◌≡◌, refl, ◌==◌, length,
}
use org_rs.Prelude.Int.{pos, negsuc}
use org_rs.Cursor.Lines.{
  goto_line_begin, goto_next_line, goto_prev_line, prev_line_or_start, is_bol,
  line_beginning_position, line_end_position, line_begin_move, line_begin_back, prev_lines_or_start,
  repeat, abs_pred_i32, line_end_move, line_end_back, prev_lines, abs_i32,
}
use org_rs.Cursor.Metric.{
  base_metric, lines_metric, lines_is_boundary, lines_prev, lines_next, base_prev, base_next,
  boundary_below, len_utf8_from_first_byte,
}
use org_rs.Cursor.Moves.{
  skip_whitespace, get_next_char, skip_chars_forward, next, prev, at_or_prev, is_boundary,
  skip_whitespace_loop, get_prev_char, skip_chars_loop,
}
use org_rs.Cursor.Search.{search_forward, match_indices_from, search_loop}
use org_rs.Cursor.State.{Cursor, M, new, pure, lift, set, get_pos, ◌>>=◌, ◌>>◌}
use org_rs.Rust.Outcome.{ok, panic, assertion_failed, unwrap_none}
use org_rs.Rust.Str.{Str, codes, bytes_to, bytes_from, byte_at, is_char_boundary, str_from}
use org_rs.Rust.Utf8.{Char, encode, encode_all, first_char, is_whitespace}
use org_rs.Tests.Scan.{scan, first_index, last_index}

-- `assert!` and `assert_eq!`.
abbrev pub holds : Bool → M (Unit {0})
holds true = pure tt
holds false = lift (panic assertion_failed)

abbrev pub is : ℕ → M ℕ → M (Unit {0})
is expected m = do found ← m; holds (found == expected)

abbrev same_option : Option ℕ → Option ℕ → Bool
same_option none none = true
same_option (some a) (some b) = a == b
same_option _ _ = false

abbrev pub answers : Option ℕ → M (Option ℕ) → M (Unit {0})
answers expected m = do found ← m; holds (same_option found expected)

abbrev unwrap : Option ℕ → M ℕ
unwrap none = lift (panic unwrap_none)
unwrap (some a) = pure a

abbrev unwrapped : M (Option ℕ) → M ℕ
unwrapped m = do o ← m; unwrap o

abbrev pub yes : M Bool → M (Unit {0})
yes m = do b ← m; holds b

abbrev pub no : M Bool → M (Unit {0})
no m = do b ← m; holds (not b)

-- A new cursor in the same variable.
abbrev pub begin : Str → ℕ → M (Unit {0})
begin text p c = ok (tt, new text p)

-- The literals of the tests, less the Cyrillic one, are ASCII.
abbrev cyrillic : List Char
cyrillic = 1047 ∷ 1076 ∷ 1088 ∷ 1072 ∷ 1074 ∷ 1089 ∷ 1090 ∷ 1074 ∷ 1091 ∷ 1081 ∷ 1090 ∷ 1077 ∷ []

abbrev pub seven : Str
seven = codes "One\nTwo\nThi\nFo4\nFiv\nSix\n7en"

abbrev essentials : M (Unit {0})
essentials = do
  begin (codes "1234567890\n" ++ encode_all cyrillic) 0
  is b'1' (unwrapped get_next_char)
  is 1 get_pos
  is b'2' (unwrapped get_next_char)
  is 2 get_pos
  is 11 (unwrapped (next (lines_metric scan)))
  yes (is_boundary (lines_metric scan))
  is 1047 (unwrapped get_next_char)
  is 13 get_pos
  set 12
  no (is_boundary base_metric)

abbrev skip_whitespaces : M (Unit {0})
skip_whitespaces = do
  begin (codes " \n\t\rorg-mode ") 0
  skip_whitespace
  is b'o' (unwrapped get_next_char)
  begin (codes "no_whitespace_for_you!") 0
  skip_whitespace
  is b'n' (unwrapped get_next_char)
  begin (codes " ") 0
  skip_whitespace
  answers none get_next_char

abbrev line_begin : M (Unit {0})
line_begin = do
  begin (codes "First line\nSecond line\r\nThird line") 13
  is 11 (goto_line_begin scan)
  is 11 (goto_line_begin scan)
  is 11 (goto_line_begin scan)
  set 26
  is 24 (goto_line_begin scan)
  yes (is_bol scan)
  is b'T' (unwrapped get_next_char)
  is 24 (goto_line_begin scan)
  is b'T' (unwrapped get_next_char)
  set 3
  is 0 (goto_line_begin scan)
  is b'F' (unwrapped get_next_char)

abbrev prev_line : M (Unit {0})
prev_line = do
  begin (codes "First line\nSecond line\r\nThird line\nFour") 39
  is 24 (goto_prev_line scan)
  is b'T' (unwrapped get_next_char)
  is 11 (goto_prev_line scan)
  is b'S' (unwrapped get_next_char)
  is 0 (goto_prev_line scan)
  is b'F' (unwrapped get_next_char)

abbrev line_begin_pos : M (Unit {0})
line_begin_pos = do
  begin seven 13
  is 12 (line_beginning_position scan none)
  is 12 (line_beginning_position scan (some (pos 1)))
  is 16 (line_beginning_position scan (some (pos 2)))
  is 20 (line_beginning_position scan (some (pos 3)))
  is 8 (line_beginning_position scan (some (pos 0)))
  is 4 (line_beginning_position scan (some (negsuc 0)))
  is 0 (line_beginning_position scan (some (negsuc 1)))

abbrev line_end_pos : M (Unit {0})
line_end_pos = do
  begin seven 13
  holds (27 == length seven)
  is 15 (line_end_position scan none)
  is 15 (line_end_position scan (some (pos 1)))
  is 19 (line_end_position scan (some (pos 2)))
  is 23 (line_end_position scan (some (pos 3)))
  is 26 (line_end_position scan (some (pos 4)))
  is 11 (line_end_position scan (some (pos 0)))
  is 7 (line_end_position scan (some (negsuc 0)))
  is 3 (line_end_position scan (some (negsuc 1)))
  is 3 (line_end_position scan (some (negsuc 2)))

abbrev is_bol_test : M (Unit {0})
is_bol_test = do
  begin seven 0
  yes (is_bol scan)
  set 2
  no (is_bol scan)
  set 4
  yes (is_bol scan)
  set (length seven)
  no (is_bol scan)
  prev (lines_metric scan)
  yes (is_bol scan)
  goto_prev_line scan
  yes (is_bol scan)
  goto_next_line scan
  yes (is_bol scan)

abbrev search_forward_test : M (Unit {0})
search_forward_test = do
  begin (codes "onetwothreefouronetwothreeonetwothreeonetwothreefouroneabababa") 0
  answers (some 18) (search_forward (codes "one") none (some 2))
  answers (some 29) (search_forward (codes "one") none none)
  set 0
  answers none (search_forward (codes "threeone") (some 10) none)
  answers none (search_forward (codes "threeone") (some 100) (some 10))
  answers (some 43) (search_forward (codes "two") none (some 4))
  is 43 get_pos
  answers none (search_forward (codes "aba") (some 10) none)
  is 43 get_pos
  answers (some 62) (search_forward (codes "aba") (some 10000) (some 2))
  set 0
  answers none (search_forward (codes "aba") (some 10000) (some 6))

abbrev skip_chars_forward_test : M (Unit {0})
skip_chars_forward_test = do
  begin (codes "  k\t **hello") 0
  is 2 (skip_chars_forward (codes " ") none)
  is 2 get_pos
  is 3 (skip_chars_forward (codes " k\t") none)
  set 0
  is 3 (skip_chars_forward (codes "* k\t") (some 2))

abbrev pub anywhere : Cursor
anywhere = new [] 0

essentials_passes :
    essentials anywhere ≡ ok (tt, new (codes "1234567890\n" ++ encode_all cyrillic) 12)
unfolding get_next_char get_prev_char next prev base_next base_prev boundary_below byte_at str_from
    is_char_boundary len_utf8_from_first_byte first_char encode_all encode is_boundary
    lines_is_boundary lines_next bytes_from first_index
essentials_passes = refl

skip_whitespaces_passes : skip_whitespaces anywhere ≡ ok (tt, new (codes " ") 1)
unfolding get_next_char get_prev_char next prev base_next base_prev boundary_below byte_at str_from
    is_char_boundary len_utf8_from_first_byte first_char skip_whitespace skip_whitespace_loop
    is_whitespace
skip_whitespaces_passes = refl

line_begin_passes :
    line_begin anywhere ≡ ok (tt, new (codes "First line\nSecond line\r\nThird line") 1)
unfolding goto_line_begin goto_next_line goto_prev_line prev_line_or_start is_bol at_or_prev
    lines_is_boundary lines_prev lines_next bytes_to bytes_from first_index last_index get_next_char
    get_prev_char next prev base_next base_prev boundary_below byte_at str_from is_char_boundary
    len_utf8_from_first_byte first_char
line_begin_passes = refl

prev_line_passes :
    prev_line anywhere ≡ ok (tt, new (codes "First line\nSecond line\r\nThird line\nFour") 1)
unfolding goto_line_begin goto_next_line goto_prev_line prev_line_or_start is_bol at_or_prev
    lines_is_boundary lines_prev lines_next bytes_to bytes_from first_index last_index get_next_char
    get_prev_char next prev base_next base_prev boundary_below byte_at str_from is_char_boundary
    len_utf8_from_first_byte first_char
prev_line_passes = refl

line_begin_pos_passes : line_begin_pos anywhere ≡ ok (tt, new (seven) 13)
unfolding goto_line_begin goto_next_line goto_prev_line prev_line_or_start is_bol at_or_prev
    lines_is_boundary lines_prev lines_next bytes_to bytes_from first_index last_index next prev
    byte_at line_beginning_position line_begin_move line_begin_back prev_lines_or_start repeat
    abs_pred_i32
line_begin_pos_passes = refl

line_end_pos_passes : line_end_pos anywhere ≡ ok (tt, new (seven) 13)
unfolding goto_line_begin goto_next_line goto_prev_line prev_line_or_start is_bol at_or_prev
    lines_is_boundary lines_prev lines_next bytes_to bytes_from first_index last_index next prev
    byte_at line_end_position line_end_move line_end_back prev_lines repeat abs_i32 base_prev
    boundary_below is_char_boundary
line_end_pos_passes = refl

is_bol_test_passes : is_bol_test anywhere ≡ ok (tt, new (seven) 24)
unfolding goto_line_begin goto_next_line goto_prev_line prev_line_or_start is_bol at_or_prev
    lines_is_boundary lines_prev lines_next bytes_to bytes_from first_index last_index next prev
    byte_at
is_bol_test_passes = refl

search_forward_test_passes :
    search_forward_test anywhere
    ≡ ok (tt, new (codes "onetwothreefouronetwothreeonetwothreeonetwothreefouroneabababa") 0)
unfolding search_forward match_indices_from search_loop str_from is_char_boundary
search_forward_test_passes = refl

skip_chars_forward_test_passes :
    skip_chars_forward_test anywhere ≡ ok (tt, new (codes "  k\t **hello") 3)
unfolding get_next_char get_prev_char next prev base_next base_prev boundary_below byte_at str_from
    is_char_boundary len_utf8_from_first_byte first_char skip_chars_forward skip_chars_loop
skip_chars_forward_test_passes = refl
