-- ===== src/Cursor/Runs/Saved.antt =====
-- The methods that save the position and put it back, and those that read the text alone.
use org_rs.Prelude.{ℕ, true, Option, none, some, ◌==◌, if◌then◌else◌, ◌≡◌, arith, ◌≢◌}
use org_rs.Prelude.Int.{ℤ}
use org_rs.Crates.Memchr.{Memchr}
use org_rs.Crates.Regex.{Regex, RegexEngine, Match}
use org_rs.Cursor.Lines.{
  line_beginning_position, line_end_position, is_bol, line_begin_move, line_end_move,
  goto_line_begin,
}
use org_rs.Cursor.Metric.{lines_is_boundary, base_metric, lines_metric}
use org_rs.Cursor.Moves.{char_after, get_next_char, next, prev, char_if}
use org_rs.Cursor.Regexes.{
  haystack_end, looking_at, capturing_at, on_headline, is_some, regex_headline_short, next_headline,
  headline_found, regex_headline_multiline,
}
use org_rs.Cursor.Runs.{
  Same, Triple, TextIs, Same-bind, Same-lift, Same-reads, Same-pure, excursion, put_back,
  Stays-bind,
}
use org_rs.Cursor.Runs.Ends.{
  lines_is_boundary-ne-stuck, lines_next-ne-stuck, str_between-ne-stuck, str_from-ne-stuck,
}
use org_rs.Cursor.Runs.Keeps.{
  Keeps, Keeps-bind, Keeps-Same, Keeps-pure, line_begin_move-Keeps, line_end_move-Keeps, next-Keeps,
  prev-Keeps, base-NeverStuck, goto_line_begin-Keeps, Keeps-set, Keeps-then, lines-NeverStuck,
}
use org_rs.Cursor.State.{Cursor, M, new, set, get_pos, pure, lift, ◌>>=◌, ◌>>◌}
use org_rs.Rust.Outcome.{ok, stuck}
use org_rs.Rust.Str.{Str, str_between, str_from}
use org_rs.Rust.Utf8.{first_char}

module _ (s : Str) where
  char_at-Keeps :
      (text : Str) (p : ℕ) → Keeps s (do rest ← lift (str_from text p); pure (first_char rest))
  char_at-Keeps text p =
      Keeps-bind s _ _ (Keeps-Same s _ (Same-lift _ (str_from-ne-stuck text p)))
        (λ rest. Keeps-pure s _)

  char_if-Keeps : (p : ℕ) (found : Option ℕ) → Keeps s (char_if p found)
  char_if-Keeps p none = Keeps-pure s none
  char_if-Keeps p (some offset) = record {
    runs = λ c e. (char_at-Keeps c.text p).runs (record c { pos = offset }) e;
  }

  pub get_next_char-Keeps : Keeps s get_next_char
  unfolding get_next_char
  get_next_char-Keeps = record {
    runs = λ c.
        (Keeps-bind s (next base_metric) (char_if c.pos) (next-Keeps s base_metric base-NeverStuck)
            (char_if-Keeps c.pos)).runs
          c;
  }

module _ (mc : Memchr) where
  haystack_end-ne-stuck : (re : Regex) (c : Cursor) → haystack_end mc re c ≢ stuck
  unfolding haystack_end
  haystack_end-ne-stuck re c = ground (arith, lines_next-ne-stuck mc c.text c.pos)

  pub is_bol-Same : Same (is_bol mc)
  unfolding is_bol
  is_bol-Same = record {
    unmoved = λ c.
        (Same-lift (if c.pos == 0 then ok true else lines_is_boundary mc c.text c.pos)
            (ground (arith, lines_is_boundary-ne-stuck mc c.text c.pos))).unmoved
          c;
  }

  module _ (engine : RegexEngine) (re : Regex) where
    looking_at-slice :
        (s : Str) (p end : ℕ)
        → Same (do slice ← lift (str_between s p end); pure (engine.find re slice))
    looking_at-slice s p end =
        Same-bind _ _ (Same-lift _ (str_between-ne-stuck s p end)) (λ slice. Same-pure _)

    pub looking_at-Same : Same (looking_at mc engine re)
    unfolding looking_at
    looking_at-Same =
        Same-bind _ _ (Same-reads _ (haystack_end-ne-stuck re))
          (λ end. record { unmoved = λ c. (looking_at-slice c.text c.pos end).unmoved c })

    capturing_at-slice :
        (s : Str) (p end : ℕ)
        → Same (do slice ← lift (str_between s p end); pure (engine.captures re slice))
    capturing_at-slice s p end =
        Same-bind _ _ (Same-lift _ (str_between-ne-stuck s p end)) (λ slice. Same-pure _)

    pub capturing_at-Same : Same (capturing_at mc engine re)
    unfolding capturing_at
    capturing_at-Same =
        Same-bind _ _ (Same-reads _ (haystack_end-ne-stuck re))
          (λ end. record { unmoved = λ c. (capturing_at-slice c.text c.pos end).unmoved c })

  module _ {B : Type 0} (s : Str) (p : ℕ) where
    -- A move that keeps the text, and then the rest of an excursion.
    before_put_back :
        {A : Type 0} (m : M A) (f : A → M B)
        → Keeps s m
        → ((a : A) → Triple (TextIs s) (λ _ c'. c' ≡ new s p) (f a))
        → Triple (TextIs s) (λ _ c'. c' ≡ new s p) (m >>= f)
    before_put_back m f = Stays-bind (TextIs s) (λ _ c'. c' ≡ new s p) m f

  pub char_after-Same : (offset : ℕ) → Same (char_after offset)
  unfolding char_after
  char_after-Same offset =
      excursion (λ saved. do set offset; result ← get_next_char; set saved; pure result)
        (λ s p.
          before_put_back s p (set offset) _ (Keeps-set s offset)
            (λ _. before_put_back s p _ _ (get_next_char-Keeps s) (λ result. put_back s p result)))

  pub line_beginning_position-Same : (n : Option ℤ) → Same (line_beginning_position mc n)
  unfolding line_beginning_position
  line_beginning_position-Same n =
      excursion (λ saved. do line_begin_move mc n; result ← get_pos; set saved; pure result)
        (λ s p.
          before_put_back s p _ _ (line_begin_move-Keeps mc s n)
            (λ _. record { runs = λ c. (put_back s p c.pos).runs c }))

  pub line_end_position-Same : (n : Option ℤ) → Same (line_end_position mc n)
  unfolding line_end_position
  line_end_position-Same n =
      excursion
        (λ saved. do
          line_end_move mc n
          found ← prev base_metric
          set saved
          pure (elim found [ none ↦ 0 | some p ↦ p ]))
        (λ s p. before_put_back s p _ _ (line_end_move-Keeps mc s n) (λ _.
          before_put_back s p _ _ (prev-Keeps s base_metric base-NeverStuck)
            (λ found. put_back s p _)))

  pub on_headline-Same : (engine : RegexEngine) → Same (on_headline mc engine)
  unfolding on_headline
  on_headline-Same engine =
      excursion
        (λ saved. do
          goto_line_begin mc
          found ← looking_at mc engine regex_headline_short
          set saved
          pure (is_some found))
        (λ s p. before_put_back s p _ _ (goto_line_begin-Keeps mc s) (λ _.
          before_put_back s p _ _ (Keeps-Same s _ (looking_at-Same engine _))
            (λ found. put_back s p _)))

  headline_found-Keeps :
      (engine : RegexEngine) (s : Str) (beg : ℕ) (found : Option Match)
      → Keeps s (headline_found mc engine beg found)
  headline_found-Keeps engine s beg none = Keeps-pure s none
  headline_found-Keeps engine s beg (some m) = record { runs = λ c e. e }

  pub next_headline-Keeps : (engine : RegexEngine) (s : Str) → Keeps s (next_headline mc engine)
  unfolding next_headline
  next_headline-Keeps engine s =
      Keeps-then s (next (lines_metric mc)) _ (next-Keeps s (lines_metric mc) (lines-NeverStuck mc))
        (record {
          runs = λ c.
              (Keeps-bind s (lift (str_from c.text c.pos)) _
                  (Keeps-Same s _ (Same-lift _ (str_from-ne-stuck c.text c.pos)))
                  (λ rest.
                    headline_found-Keeps engine s c.pos
                      (engine.find regex_headline_multiline rest))).runs
                c;
        })

  -- At every text, position, expression and argument, each of these methods either panics or returns
  -- with text and position as they were: the two matches at the cursor, the tests for a headline and
  -- for the beginning of a line, the two line positions, and the character at an offset.
  pub save_excursion :
      (engine : RegexEngine) (re : Regex) (n : Option ℤ) (offset : ℕ)
      → Same (looking_at mc engine re)
        × Same (capturing_at mc engine re)
        × Same (on_headline mc engine)
        × Same (is_bol mc)
        × Same (line_beginning_position mc n)
        × Same (line_end_position mc n)
        × Same (char_after offset)
  save_excursion engine re n offset = (
    looking_at-Same engine re,
    capturing_at-Same engine re,
    on_headline-Same engine,
    is_bol-Same,
    line_beginning_position-Same n,
    line_end_position-Same n,
    char_after-Same offset,
  )
