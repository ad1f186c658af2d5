-- ===== src/Cursor/Regexes.antt =====
-- The methods of cursor.rs that match regular expressions, over the crate `regex`.
pub mod Bounds
pub mod Line
pub mod Headlines
use org_rs.Prelude.{
  ℕ, ◌+◌, ◌-◌, Bool, true, false, ◌||◌, Option, none, some, List, [], ◌∷◌, leb, if◌then◌else◌,
  length,
}
use org_rs.Crates.Memchr.{Memchr}
use org_rs.Crates.Regex.{Regex, Match, RegexEngine, Captures}
use org_rs.Cursor.Lines.{goto_line_begin}
use org_rs.Cursor.Metric.{lines_next, lines_metric}
use org_rs.Cursor.Moves.{next}
use org_rs.Cursor.State.{Cursor, M, pure, lift, ◌>>=◌, ◌>>◌, set, get_pos, get_text, reads}
use org_rs.Rust.Outcome.{Outcome, ok, map_ok}
use org_rs.Rust.Str.{Str, codes, contains, str_from, str_between}

-- `REGEX_EMPTY_LINE`, and the two headline expressions of headline.rs that the cursor uses.
abbrev pub regex_empty_line : Regex
regex_empty_line = codes "^[ \\t]*$"

abbrev pub regex_headline_short : Regex
regex_headline_short = codes "^\\*+\\s"

abbrev pub regex_headline_multiline : Regex
regex_headline_multiline = codes "(?m)^\\*+\\s"

abbrev pub multiline_indicators : List Str
multiline_indicators = codes "\\n" ∷ codes "\\r" ∷ codes "[[:space:]]" ∷ []

abbrev contains_any : Str → List Str → Bool
contains_any s [] = false
contains_any s (x ∷ xs) = contains x s || contains_any s xs

unfoldable pub is_multiline_regex : Str → Bool
unfolding contains
is_multiline_regex regex = contains_any regex multiline_indicators

abbrev pub is_some {ℓ} : {A : Type ℓ} → Option A → Bool
is_some none = false
is_some (some a) = true

-- `.map(|p| p - 1).unwrap_or_else(|| self.data.len())`
abbrev pub line_end_before : ℕ → Option ℕ → ℕ
line_end_before len none = len
line_end_before len (some p) = p - 1

module _ (mc : Memchr) where
  -- The end of the haystack: of the line, less its '\n', or of the text.
  unfoldable pub haystack_end : Regex → Cursor → Outcome ℕ
  haystack_end re c =
      if is_multiline_regex re
      then ok (length c.text)
      else map_ok (line_end_before (length c.text)) (lines_next mc c.text c.pos)

  module _ (engine : RegexEngine) where
    unfoldable pub looking_at : Regex → M (Option Match)
    looking_at re = do
      end ← reads (haystack_end re)
      text ← get_text
      pos ← get_pos
      slice ← lift (str_between text pos end)
      pure (engine.find re slice)

    unfoldable pub capturing_at : Regex → M (Option Captures)
    capturing_at re = do
      end ← reads (haystack_end re)
      text ← get_text
      pos ← get_pos
      slice ← lift (str_between text pos end)
      pure (engine.captures re slice)

    abbrev pub headline_found : ℕ → Option Match → M (Option ℕ)
    headline_found beg none = pure none
    headline_found beg (some p) = do set (beg + p.start); pure (some (beg + p.start))

    unfoldable pub next_headline : M (Option ℕ)
    next_headline = do
      next (lines_metric mc)
      beg ← get_pos
      text ← get_text
      rest ← lift (str_from text beg)
      headline_found beg (engine.find regex_headline_multiline rest)

    unfoldable pub on_headline : M Bool
    unfolding looking_at
    on_headline = do
      pos ← get_pos
      goto_line_begin mc
      found ← looking_at regex_headline_short
      set pos
      pure (is_some found)

module _ (engine : RegexEngine) where
  abbrev end_found : Option Match → M (Option ℕ)
  end_found none = pure none
  end_found (some m) = do p ← get_pos; set (p + m.end); q ← get_pos; pure (some q)

  unfoldable pub re_search_within : Regex → ℕ → M (Option ℕ)
  re_search_within re end = do
    text ← get_text
    p ← get_pos
    slice ← lift (str_between text p end)
    end_found (engine.find re slice)

  unfoldable pub re_search_forward : Regex → Option ℕ → M (Option ℕ)
  unfolding re_search_within
  re_search_forward re bound = do
    text ← get_text
    p ← get_pos
    let end : ℕ = elim bound [ some b ↦ b | none ↦ length text ]
    if leb end p then pure none else re_search_within re end
