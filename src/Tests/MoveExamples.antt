-- ===== src/Tests/MoveExamples.antt =====
-- The theorems on the moves by characters and on the searches, applied to short texts.
use org_rs.Prelude.{
  ℕ, ◌+◌, ◌-◌, ◌≡◌, refl, true, false, Option, some, List, [], ◌∷◌, arith, length, drop,
}
use org_rs.Cursor.Moves.{get_next_char, get_prev_char, skip_whitespace, skip_chars_forward}
use org_rs.Cursor.Moves.CharRun.{IsRun, skip_chars_forward-IsRun}
use org_rs.Cursor.Moves.Whitespace.{
  is_even, leading, skipped, left, skip_whitespace-skipped, skip_whitespace_swallows,
}
use org_rs.Cursor.Moves.RoundTrip.{read_chars, read_chars-encode_all}
use org_rs.Cursor.Moves.Zipper.{place, between, get_next_char-some, get_prev_char-some}
use org_rs.Cursor.Regexes.{re_search_forward}
use org_rs.Cursor.Regexes.Bounds.{SearchAnswer, re_search_forward-SearchAnswer}
use org_rs.Cursor.Search.{search_forward}
use org_rs.Cursor.Search.Forward.{answer, nth, search_forward-Found}
use org_rs.Cursor.Search.Matches.{Found}
use org_rs.Cursor.State.{new}
use org_rs.Rust.Outcome.{ok}
use org_rs.Rust.Str.{Str, codes, is_char_boundary}
use org_rs.Rust.Utf8.{Char, is_whitespace, encode_all}
use org_rs.Rust.Utf8.Encoding.{AllChars}
use org_rs.Tests.Engine.{literal}

-- A character of two bytes and one of four.
get_next_char-some_example :
    get_next_char (between (0xe9 ∷ []) (0x1f600 ∷ 97 ∷ []))
    ≡ ok (some 0x1f600, between (0xe9 ∷ 0x1f600 ∷ []) (97 ∷ []))
get_next_char-some_example = get_next_char-some (0xe9 ∷ []) 0x1f600 (97 ∷ []) (omega arith)

get_prev_char-some_example :
    get_prev_char (between (0xe9 ∷ 0x1f600 ∷ []) (97 ∷ []))
    ≡ ok (some 0x1f600, between (0xe9 ∷ []) (0x1f600 ∷ 97 ∷ []))
get_prev_char-some_example = get_prev_char-some (0xe9 ∷ []) 0x1f600 (97 ∷ []) (omega arith)

-- Two spaces and "a".
abbrev spaced : List Char
spaced = 32 ∷ 32 ∷ 97 ∷ []

spaced-AllChars : AllChars spaced
spaced-AllChars = (omega arith, (omega arith, (omega arith, tt)))

skip_whitespace-skipped_example :
    skip_whitespace (between (98 ∷ []) spaced)
    ≡ ok (place (98 ∷ skipped spaced), between (98 ∷ skipped spaced) (left spaced))
skip_whitespace-skipped_example = skip_whitespace-skipped (98 ∷ []) spaced spaced-AllChars

spaced-even : is_even (length (leading spaced)) ≡ true
unfolding is_whitespace
spaced-even = refl

space_then_letter :
    (is_whitespace 32 ≡ true) × (is_whitespace 97 ≡ false) × (leading (98 ∷ []) ≡ [])
unfolding is_whitespace
space_then_letter = (refl, refl, refl)

skip_whitespace_swallows_example :
    skip_whitespace (between [] (32 ∷ 97 ∷ 98 ∷ []))
    ≡ ok (place (32 ∷ 97 ∷ []), between (32 ∷ 97 ∷ []) (98 ∷ []))
skip_whitespace_swallows_example =
    skip_whitespace_swallows [] 32 97 (98 ∷ []) (omega arith, (omega arith, (omega arith, tt)))
      space_then_letter.0 space_then_letter.1 space_then_letter.2

skip_chars_forward-IsRun_example :
    (run rest : List Char) × IsRun (32 ∷ []) (1 + 1 - place []) spaced run rest
    × (skip_chars_forward (32 ∷ []) (some 1) (between [] spaced)
        ≡ ok (length run, between run rest))
unfolding encode_all
skip_chars_forward-IsRun_example =
    skip_chars_forward-IsRun (32 ∷ []) [] spaced spaced-AllChars (some 1) (omega arith)

abbrev abababa : Str
abababa = codes "abababa"

ends-boundary : (is_char_boundary abababa 0 ≡ true) × (is_char_boundary abababa 5 ≡ true)
unfolding is_char_boundary
ends-boundary = (refl, refl)

search_forward-Found_example :
    (ms : List ℕ) × Found (codes "aba") (drop 0 abababa) 0 ms
    × (search_forward (codes "aba") (some 7) (some 2) (new abababa 0)
        ≡ answer abababa 0 3 7 (nth ms 2))
search_forward-Found_example =
    search_forward-Found (codes "aba") abababa 0 (some 7) (some 2) ends-boundary.0 (omega arith)

re_search_forward-SearchAnswer_example :
    (e : Option ℕ) × SearchAnswer literal
      (codes "aba")
      abababa
      0
      5
      e
      (re_search_forward literal (codes "aba") (some 5) (new abababa 0))
re_search_forward-SearchAnswer_example =
    re_search_forward-SearchAnswer literal (codes "aba") abababa 0 (some 5) (omega arith)
      ends-boundary.0 ends-boundary.1

read_chars-encode_all_example : read_chars 4 (between [] spaced) ≡ ok (spaced, between spaced [])
read_chars-encode_all_example = read_chars-encode_all [] spaced spaced-AllChars
