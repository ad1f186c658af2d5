-- ===== src/Cursor/Regexes/Bounds.antt =====
-- Where matches lie, and what the methods that match do to the cursor.
use org_rs.Prelude.{
  ℕ, ◌+◌, ◌-◌, ◌≤◌, ◌<◌, ◌≡◌, ◌⊎◌, inl, inr, refl, true, Option, none, some, arith, length, leb,
  length-take, length-drop, take, drop, Bool-cases,
}
use org_rs.Crates.Regex.{Regex, RegexEngine, Match, IsMatchIn}
use org_rs.Cursor.Regexes.{re_search_forward, re_search_within, end_found}
use org_rs.Cursor.Search.Forward.{bound_of}
use org_rs.Cursor.State.{Cursor, new}
use org_rs.Rust.Outcome.{Outcome, ok}
use org_rs.Rust.Str.{Str, str_between, is_char_boundary}

between-length :
    (s : Str) (a b : ℕ) → b ≤ length s → a ≤ b → length (take (b - a) (drop a s)) ≡ b - a
between-length s a b fits le = omega (arith, length-take (b - a) (drop a s), length-drop a s)

str_between-ok :
    (s : Str) (a b : ℕ)
    → a ≤ b
    → is_char_boundary s a ≡ true
    → is_char_boundary s b ≡ true
    → str_between s a b ≡ ok (take (b - a) (drop a s))
unfolding str_between
str_between-ok s a b le ba bb = ground (arith, ba, bb, le)

module _ (engine : RegexEngine) (re : Regex) (s : Str) (p : ℕ) where
  -- The text that is searched.
  abbrev pub region : ℕ → Str
  region end = take (end - p) (drop p s)

  -- A search finds what the expression matches first in the text up to `end`, and moves to the end of
  -- the match; else, or where no text is left, the cursor stays.
  abbrev pub SearchAnswer : ℕ → Option ℕ → Outcome (Option ℕ × Cursor) → Type 0
  SearchAnswer end none r =
      ((end ≤ p) ⊎ (engine.find re (region end) ≡ none)) × (r ≡ ok (none, new s p))
  SearchAnswer end (some e) r =
      (p < end)
      × ((m : Match) × (engine.find re (region end) ≡ some m) × (e ≡ p + m.end))
      × (p ≤ e)
      × (e ≤ end)
      × (r ≡ ok (some e, new s e))

  end_found-answer :
      (end : ℕ) (o : Option Match)
      → engine.find re (region end) ≡ o
      → p < end
      → end ≤ length s
      → ((m : Match) → o ≡ some m → IsMatchIn (region end) m)
      → (e : Option ℕ) × SearchAnswer end e (end_found engine o (new s p))
  end_found-answer end none found before fits h = (none, (inr found, refl))
  end_found-answer end (some m) found before fits h = (
    some (p + m.end),
    (
      before,
      (m, found, refl),
      omega arith,
      omega (arith, (h m refl).inside, between-length s p end fits (omega arith)),
      refl,
    ),
  )

  re_search_within-answer :
      (end : ℕ)
      → p < end
      → end ≤ length s
      → is_char_boundary s p ≡ true
      → is_char_boundary s end ≡ true
      → (e : Option ℕ) × SearchAnswer end e (re_search_within engine re end (new s p))
  unfolding re_search_within
  re_search_within-answer end before fits bp be = rw (str_between-ok s p end (omega arith) bp be) (
      end_found-answer end (engine.find re (region end)) refl before fits
        (engine.find-IsMatchIn re _))

  -- From a character boundary, with a bound (the end of the text, where none is given) that is one
  -- as well and does not lie behind the text, `re_search_forward` returns. If the cursor is before
  -- the bound and the expression matches in the text between them, it returns the end of that match,
  -- which is not behind the bound, and moves there. Else it returns none and leaves the cursor.
  pub re_search_forward-SearchAnswer :
      (bound : Option ℕ)
      → bound_of s bound ≤ length s
      → is_char_boundary s p ≡ true
      → is_char_boundary s (bound_of s bound) ≡ true
      → (e : Option ℕ) × SearchAnswer
          (bound_of s bound)
          e
          (re_search_forward engine re bound (new s p))
  unfolding re_search_forward
  re_search_forward-SearchAnswer bound fits bp be = elim (Bool-cases (leb (bound_of s bound) p)) [
    | inl e ↦ rw e (none, (inl (ground arith), refl))
    | inr e ↦ rw e (re_search_within-answer (bound_of s bound) (ground arith) fits bp be)
  ]
