-- ===== src/Cursor/Regexes/Headlines.antt =====
-- What `on_headline` and `next_headline` answer when they return, from any position in the text.
use org_rs.Prelude.{
  ℕ, leb, ◌+◌, ◌≤◌, ◌≡◌, refl, Bool, false, Option, none, some, arith, length, drop, inl, inr,
  Bool-cases,
}
use org_rs.Crates.Memchr.{Memchr}
use org_rs.Crates.Regex.{RegexEngine, Match}
use org_rs.Cursor.Lines.{goto_line_begin}
use org_rs.Cursor.Lines.Found.{lines_next-NextAnswer}
use org_rs.Cursor.Lines.Goto.{goto_line_begin-IsLineBegin}
use org_rs.Cursor.Lines.Spec.{IsLineBegin, NextAnswer}
use org_rs.Cursor.Metric.{lines_metric, lines_next}
use org_rs.Cursor.Moves.Arrive.{next-arrive}
use org_rs.Cursor.Regexes.{
  on_headline, next_headline, looking_at, haystack_end, is_some, line_end_before,
  regex_headline_short, regex_headline_multiline,
}
use org_rs.Cursor.Regexes.Line.{
  rest_of_line, line_or_here, short-single, on_headline-line, headline_from, next_headline-from,
}
use org_rs.Cursor.Runs.{Meets}
use org_rs.Cursor.State.{Cursor, new}
use org_rs.Rust.Outcome.{ok, panic, not_char_boundary}
use org_rs.Rust.Str.{Str, str_between, str_from, is_char_boundary}

-- Where a match stands in a text searched from `base` on, or `base` itself without one.
abbrev pub match_or_base : ℕ → Option Match → ℕ
match_or_base base none = base
match_or_base base (some m) = base + m.start

module _ (engine : RegexEngine) (s : Str) (p : ℕ) where
  -- Whether the expression of a headline matches the line that holds `p`, less its newline.
  abbrev pub OnHeadline : Bool → Type 0
  OnHeadline t =
      (b : ℕ) × (r : Option ℕ) × IsLineBegin s p b
      × NextAnswer s b r
      × (is_some (engine.find regex_headline_short (rest_of_line s b r)) ≡ t)

  -- `q` is the first headline from the next line on, on the last line from `p` on, or, where there is
  -- none, the place that the search begins at.
  abbrev pub NextHeadline : ℕ → Type 0
  NextHeadline q =
      (r : Option ℕ) × NextAnswer s p r
      × (q
          ≡ match_or_base (line_or_here p r)
              (engine.find regex_headline_multiline (drop (line_or_here p r) s)))

module _ (mc : Memchr) (engine : RegexEngine) (s : Str) (p : ℕ) where
  abbrev pub NextAt : Cursor → Type 0
  NextAt d = (d.text ≡ s) × (p ≤ d.pos) × NextHeadline engine s p d.pos

  NextHeadline-at :
      (r : Option ℕ)
      → NextAnswer s p r
      → p ≤ line_or_here p r
      → (o : Option Match) → engine.find regex_headline_multiline (drop (line_or_here p r) s) ≡ o
      → Meets (λ _ d. NextAt d) (ok (headline_from mc engine s (line_or_here p r) o))
  NextHeadline-at r answer above none found = (refl, above, (r, answer, rw found refl))
  NextHeadline-at r answer above (some m) found = (refl, omega arith, (r, answer, rw found refl))

  line_or_here-above : (r : Option ℕ) → NextAnswer s p r → p ≤ line_or_here p r
  line_or_here-above none answer = omega arith
  line_or_here-above (some q) answer = omega (arith, answer.above)

  next_headline-panics :
      (r : Option ℕ)
      → lines_next mc s p ≡ ok r
      → is_char_boundary s (line_or_here p r) ≡ false
      → next_headline mc engine (new s p) ≡ panic not_char_boundary
  unfolding next_headline str_from
  next_headline-panics none found inner =
      rw (next-arrive (lines_metric mc) s p none found, inner) refl
  next_headline-panics (some q) found inner =
      rw (next-arrive (lines_metric mc) s p (some q) found, inner) refl

  pub next_headline-NextAt :
      p ≤ length s → Meets (λ _ d. NextAt d) (next_headline mc engine (new s p))
  next_headline-NextAt inside =
      let (r, found, answer) = lines_next-NextAnswer mc s p inside in
      elim (Bool-cases (is_char_boundary s (line_or_here p r))) [
        | inl whole ↦
            rw (next_headline-from mc engine s p r inside answer whole)
              (NextHeadline-at r answer (line_or_here-above r answer) _ refl)
        | inr inner ↦ rw (next_headline-panics r found inner) tt
      ]

  str_between-panics :
      (a b : ℕ) → is_char_boundary s a ≡ false → str_between s a b ≡ panic not_char_boundary
  unfolding str_between
  str_between-panics a b inner = elim (Bool-cases (leb a b)) [
    | inl e ↦ rw (inner, e) refl
    | inr e ↦ rw (inner, e) refl
  ]

  on_headline-panics :
      (b : ℕ)
      → b ≤ length s
      → goto_line_begin mc (new s p) ≡ ok (b, new s b)
      → is_char_boundary s b ≡ false
      → on_headline mc engine (new s p) ≡ panic not_char_boundary
  unfolding on_headline looking_at haystack_end
  on_headline-panics b within run inner =
      let (r, found, answer) = lines_next-NextAnswer mc s b within in
      rw (run, short-single, found, str_between-panics b (line_end_before (length s) r) inner) refl

  pub on_headline-OnHeadline :
      p ≤ length s
      → Meets (λ t d. (d ≡ new s p) × OnHeadline engine s p t) (on_headline mc engine (new s p))
  on_headline-OnHeadline inside =
      let (b, run, begins) = goto_line_begin-IsLineBegin mc s p inside in
      elim (Bool-cases (is_char_boundary s b)) [
        | inl whole ↦
            let (r, answer, found) = on_headline-line mc engine s p b inside begins whole in
            rw found (refl, (b, r, begins, answer, refl))
        | inr inner ↦ rw (on_headline-panics b (omega (arith, begins.below)) run inner) tt
      ]
