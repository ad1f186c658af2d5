-- ===== src/Cursor/Regexes/Line.antt =====
-- What `looking_at` and `on_headline` hand to the regular expression.
use org_rs.Prelude.{
  ℕ, ◌+◌, ◌-◌, ◌≤◌, ◌≡◌, ◌∙◌, ap, refl, true, false, Option, none, some, arith, length, take, drop,
}
use org_rs.Crates.Memchr.{Memchr}
use org_rs.Crates.Regex.{Regex, RegexEngine, Match}
use org_rs.Cursor.Lines.{goto_line_begin}
use org_rs.Cursor.Lines.EndOfLine.{next_unique, next-none}
use org_rs.Cursor.Lines.Found.{lines_next-NextAnswer}
use org_rs.Cursor.Lines.Goto.{goto_line_begin-IsLineBegin}
use org_rs.Cursor.Lines.Spec.{IsLineBegin, IsLineBegin-unique, NextAnswer}
use org_rs.Cursor.Metric.{lines_metric, lines_next}
use org_rs.Cursor.Moves.Arrive.{next-arrive}
use org_rs.Cursor.Regexes.{
  haystack_end, looking_at, on_headline, is_some, is_multiline_regex, line_end_before,
  regex_headline_short, next_headline, headline_found, regex_headline_multiline,
}
use org_rs.Cursor.State.{Cursor, new}
use org_rs.Rust.Outcome.{ok}
use org_rs.Rust.Str.{Str, str_between, is_char_boundary, contains, str_from}

module _ (s : Str) (p : ℕ) where
  -- The line from `p` on, less its newline.
  abbrev pub rest_of_line : Option ℕ → Str
  rest_of_line r = take (line_end_before (length s) r - p) (drop p s)

  pub slice_of_line :
      (r : Option ℕ)
      → p ≤ length s
      → NextAnswer s p r
      → is_char_boundary s p ≡ true
      → str_between s p (line_end_before (length s) r) ≡ ok (rest_of_line r)
  unfolding str_between is_char_boundary
  slice_of_line none inside answer boundary = ground arith
  slice_of_line (some q) inside answer boundary =
      ground (arith, answer.newline_before, answer.above, answer.inside)

abbrev pub line_or_here : ℕ → Option ℕ → ℕ
line_or_here p none = p
line_or_here p (some q) = q

str_from-boundary : (s : Str) (q : ℕ) → is_char_boundary s q ≡ true → str_from s q ≡ ok (drop q s)
unfolding str_from
str_from-boundary s q boundary = rw boundary refl

pub NextAnswer-unique :
    (s : Str) (p : ℕ) (r r' : Option ℕ) → NextAnswer s p r → NextAnswer s p r' → r' ≡ r
NextAnswer-unique s p none r' clear answer = next-none s p r' clear answer
NextAnswer-unique s p (some q) r' next answer = next_unique s p q r' next answer

module _ (mc : Memchr) (engine : RegexEngine) (s : Str) where
  -- From a character of the text, and with an expression that has none of the marks of a line break,
  -- `looking_at` does not panic: it gives the expression the rest of the line, without the newline,
  -- or the rest of the text where no newline follows.
  pub looking_at-line :
      (re : Regex) (p : ℕ)
      → is_multiline_regex re ≡ false
      → p ≤ length s
      → is_char_boundary s p ≡ true
      → (r : Option ℕ) × NextAnswer s p r
        × (looking_at mc engine re (new s p) ≡ ok (engine.find re (rest_of_line s p r), new s p))
  unfolding looking_at haystack_end
  looking_at-line re p single inside boundary =
      let (r, found, answer) = lines_next-NextAnswer mc s p inside in
      (r, answer, rw (single, found, slice_of_line s p r inside answer boundary) refl)

  pub short-single : is_multiline_regex regex_headline_short ≡ false
  unfolding is_multiline_regex contains
  short-single = refl

  goto_line_begin-at :
      (p b : ℕ) → p ≤ length s → IsLineBegin s p b → goto_line_begin mc (new s p) ≡ ok (b, new s b)
  goto_line_begin-at p b inside begins =
      let (b', run, begins') = goto_line_begin-IsLineBegin mc s p inside in
      run ∙ ap (λ (k : ℕ). ok (k, new s k)) (IsLineBegin-unique begins' begins)

  on_headline-looks :
      (p b : ℕ) (found : Option Match)
      → goto_line_begin mc (new s p) ≡ ok (b, new s b)
      → looking_at mc engine regex_headline_short (new s b) ≡ ok (found, new s b)
      → on_headline mc engine (new s p) ≡ ok (is_some found, new s p)
  unfolding on_headline
  on_headline-looks p b found run looks = rw (run, looks) refl

  -- From every position inside the text, where the line that holds it begins at a character,
  -- `on_headline` does not panic: it tells whether the expression of a headline matches that line,
  -- without its newline, and leaves the cursor where it was.
  pub on_headline-line :
      (p b : ℕ)
      → p ≤ length s
      → IsLineBegin s p b
      → is_char_boundary s b ≡ true
      → (r : Option ℕ) × NextAnswer s b r
        × (on_headline mc engine (new s p)
            ≡ ok (is_some (engine.find regex_headline_short (rest_of_line s b r)), new s p))
  on_headline-line p b inside begins boundary =
      let (r, answer, looks) =
        looking_at-line regex_headline_short b short-single (omega (arith, begins.below))
          boundary in
      (r, answer, on_headline-looks p b _ (goto_line_begin-at p b inside begins) looks)

  -- What `next_headline` answers from `q`, by the match in the text from there on.
  abbrev pub headline_from : ℕ → Option Match → Option ℕ × Cursor
  headline_from q none = (none, new s q)
  headline_from q (some m) = (some (q + m.start), new s (q + m.start))

  headline_found-from :
      (q : ℕ) (found : Option Match)
      → headline_found mc engine q found (new s q) ≡ ok (headline_from q found)
  headline_found-from q none = refl
  headline_found-from q (some m) = refl

  next_headline-run :
      (p : ℕ) (r : Option ℕ)
      → lines_next mc s p ≡ ok r
      → is_char_boundary s (line_or_here p r) ≡ true
      → next_headline mc engine (new s p)
        ≡ ok (
            headline_from
              (line_or_here p r)
              (engine.find regex_headline_multiline (drop (line_or_here p r) s)))
  unfolding next_headline
  next_headline-run p none found boundary =
      rw (next-arrive (lines_metric mc) s p none found, str_from-boundary s p boundary)
        (headline_found-from p _)
  next_headline-run p (some q) found boundary =
      rw (next-arrive (lines_metric mc) s p (some q) found, str_from-boundary s q boundary)
        (headline_found-from q _)

  -- From a position inside the text, `next_headline` searches the text from the next line on, or on the
  -- last line from the position itself, so that it also finds a headline which begins there, if a
  -- character begins where it searches: the cursor goes to the match, whose place it returns, or stays
  -- where the search began.
  pub next_headline-from :
      (p : ℕ) (r : Option ℕ)
      → p ≤ length s
      → NextAnswer s p r
      → is_char_boundary s (line_or_here p r) ≡ true
      → next_headline mc engine (new s p)
        ≡ ok (
            headline_from
              (line_or_here p r)
              (engine.find regex_headline_multiline (drop (line_or_here p r) s)))
  next_headline-from p r inside answer =
      let (r', found, answer') = lines_next-NextAnswer mc s p inside in
      next_headline-run p r (found ∙ ap ok (NextAnswer-unique s p r r' answer answer'))
