-- ===== src/Tests/Small.antt =====
-- A matcher for four expressions of the tests: a headline, alone and in any line, an empty line, and a
-- digit. It satisfies the interface of the crate `regex`.
use mathlib.Core.Path.{subst}
use org_rs.Prelude.{
  ℕ, ◌+◌, ◌≡◌, refl, Bool, true, false, ◌&&◌, ◌||◌, ◌==◌, Option, none, some, [], ◌∷◌, leb, arith,
  length, if◌then◌else◌,
}
use org_rs.Affiliated.Output.{equal}
use org_rs.Crates.Regex.{Regex, Match, IsMatchIn, RegexEngine}
use org_rs.Cursor.Regexes.{regex_headline_short, regex_headline_multiline, regex_empty_line}
use org_rs.Rust.Str.{Str, codes, newline, is_char_boundary}

abbrev pub regex_digit : Regex
regex_digit = codes "\\d"

abbrev is_space : ℕ → Bool
is_space c = c == b' ' || (leb 9 c && leb c 13)

-- `\*+\s` at the beginning, behind `n` stars.
abbrev stars : ℕ → Str → Option ℕ
stars n [] = none
stars n (c ∷ s) =
    let more = stars (n + 1) s in
    if c == b'*' then more else if leb 1 n && is_space c then some (n + 1) else none

abbrev matched : ℕ → Option ℕ → Option Match → Option Match
matched start none later = later
matched start (some e) later = some (record { start = start; end = start + e })

-- The first line with a headline; the flag tells the beginning of a line.
abbrev headline_in : ℕ → Bool → Str → Option Match
headline_in at bol [] = none
headline_in at bol (c ∷ s) =
    let later = headline_in (at + 1) (c == newline) s in
    if bol then matched at (stars 0 (c ∷ s)) later else later

abbrev is_blank : Str → Bool
is_blank [] = true
is_blank (c ∷ s) = (c == b' ' || c == 9) && is_blank s

abbrev digit_in : ℕ → Str → Option Match
digit_in at [] = none
digit_in at (c ∷ s) =
    let later = digit_in (at + 1) s in
    if leb b'0' c && leb c b'9' then some (record { start = at; end = at + 1 }) else later

abbrev found : Regex → Str → Option Match
found re s =
    if equal re regex_headline_short
    then matched 0 (stars 0 s) none
    else if equal re regex_headline_multiline
    then headline_in 0 true s
    else if equal re regex_empty_line
    then (if is_blank s then some (record { start = 0; end = length s }) else none)
    else if equal re regex_digit
    then digit_in 0 s
    else none

abbrev fits : Str → Match → Bool
fits s m =
    leb m.start m.end
    && (leb m.end (length s) && (is_char_boundary s m.start && is_char_boundary s m.end))

fits-IsMatchIn : (s : Str) (m : Match) → fits s m ≡ true → IsMatchIn s m
fits-IsMatchIn s m h = record {
  ordered = ground arith;
  inside = ground arith;
  start_boundary = ground arith;
  end_boundary = ground arith;
}

kept :
    (s : Str) (k m : Match) (t : Bool)
    → fits s k ≡ t
    → (if t then some k else none) ≡ some m
    → IsMatchIn s m
kept s k m true h e = subst (IsMatchIn s) (cc) (fits-IsMatchIn s k h)
kept s k m false h e = cc

-- Only a match that lies in the haystack, between characters.
abbrev pub checked : Str → Option Match → Option Match
checked s none = none
checked s (some m) = if fits s m then some m else none

pub checked-IsMatchIn :
    (s : Str) (o : Option Match) (m : Match) → checked s o ≡ some m → IsMatchIn s m
checked-IsMatchIn s none m e = cc
checked-IsMatchIn s (some k) m e = kept s k m (fits s k) refl e

abbrev pub small : RegexEngine
small = record {
  find = λ re s. checked s (found re s);
  captures = λ re s. none;
  find-IsMatchIn = λ re s m. checked-IsMatchIn s (found re s) m;
}
