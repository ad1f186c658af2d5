-- ===== src/Affiliated/Collect/Block.antt =====
-- A block of affiliated keywords, one on each line, said of the text and the matches.
pub mod Gathered
pub mod Keywords
use org_rs.Prelude.{
  ℕ, ◌+◌, ◌-◌, ◌≤◌, ◌<◌, ◌≡◌, ◌⊎◌, true, Option, none, some, [], length, take, drop,
}
use org_rs.Affiliated.Collect.{regex_affiliated, trimmed}
use org_rs.Affiliated.Output.{
  AffiliatedData, Group, caption, results, header, plot, name, attr, store,
}
use org_rs.Crates.Regex.{RegexEngine, Match, Captures}
use org_rs.Cursor.Lines.Spec.{IsNextLine, NextAnswer}
use org_rs.Cursor.Regexes.Line.{rest_of_line}
use org_rs.Rust.Str.{Str, is_char_boundary}
use org_rs.Rust.Trim.{trim, to_ascii_uppercase}

-- The text of a group of a match in the line from `p` on; none for a group that took no part.
abbrev pub Taken : Str → ℕ → Option Match → Option Str → Type 0
Taken s p none v = v ≡ none
Taken s p (some m) v =
    (m.start ≤ m.end)
    × (is_char_boundary s (p + m.start) ≡ true)
    × (is_char_boundary s (p + m.end) ≡ true)
    × (v ≡ some (take (p + m.end - (p + m.start)) (drop (p + m.start) s)))

-- The text of ATTR in capitals, for that group alone.
abbrev pub BackendIs : Str → ℕ → Captures → Group → Str → Type 0
BackendIs s p c attr b = (t : Str) × Taken s p (c.name "ATTR") (some t) × (b ≡ to_ascii_uppercase t)
BackendIs s p c _ b = b ≡ []

-- `m` is the match of the first group that took part, in the order of the groups, with the name of the
-- keyword.
abbrev pub Took : Captures → Group → Match → Type 0
Took c caption m = c.name "CAPTION" ≡ some m
Took c results m = (c.name "CAPTION" ≡ none) × (c.name "RESULTS" ≡ some m)
Took c header m = (c.name "CAPTION" ≡ none) × (c.name "RESULTS" ≡ none) × (c.name "HEADER" ≡ some m)
Took c plot m =
    (c.name "CAPTION" ≡ none)
    × (c.name "RESULTS" ≡ none)
    × (c.name "HEADER" ≡ none)
    × (c.name "PLOT" ≡ some m)
Took c name m =
    (c.name "CAPTION" ≡ none)
    × (c.name "RESULTS" ≡ none)
    × (c.name "HEADER" ≡ none)
    × (c.name "PLOT" ≡ none)
    × (c.name "NAME" ≡ some m)
Took c attr m =
    (c.name "CAPTION" ≡ none)
    × (c.name "RESULTS" ≡ none)
    × (c.name "HEADER" ≡ none)
    × (c.name "PLOT" ≡ none)
    × (c.name "NAME" ≡ none)
    × (c.name "ATTR" ≡ some m)

-- The value begins behind the `:` that follows the keyword, or behind the `]:` that follows the
-- secondary value.
abbrev pub ValueAt : ℕ → Match → Option Match → ℕ → Type 0
ValueAt p m none first = first ≡ p + m.end + 1
ValueAt p m (some sec) first = first ≡ p + sec.end + 2

-- The line from `p` to `q` holds a keyword: the expression matches it, and the value is the rest of
-- the line behind the match.
pub record KeywordLine (engine : RegexEngine) (s : Str) (p q : ℕ) : Type 0 where
  pub cap : Captures
  pub group : Group
  pub found : Match
  pub secondary : Option Str
  pub backend : Str
  pub first : ℕ
  pub next : IsNextLine s p q
  pub boundary : is_char_boundary s p ≡ true
  pub captured : engine.captures regex_affiliated (rest_of_line s p (some q)) ≡ some cap
  pub matched : Took cap group found
  pub secondary_taken : Taken s p (cap.name "SECONDARY") secondary
  pub backend_taken : BackendIs s p cap group backend
  pub value_at : ValueAt p found (cap.name "SECONDARY") first
  pub value_inside : first ≤ q - 1
  pub value_boundary : is_char_boundary s first ≡ true

module _ (engine : RegexEngine) (s : Str) (limit : ℕ) where
  -- The value of the keyword, without the whitespace around it.
  abbrev pub value_of : (p q : ℕ) → KeywordLine engine s p q → Str
  value_of p q k = trim (take (q - 1 - k.first) (drop k.first s))

  abbrev pub entry : (p q : ℕ) → KeywordLine engine s p q → AffiliatedData → AffiliatedData
  entry p q k = store k.group (value_of p q k) (trimmed k.secondary) k.backend

  -- No further keyword: the limit is reached, or the expression does not match.
  pub record Stops (p : ℕ) (r : Option ℕ) : Type 0 where
    pub inside : p ≤ length s
    pub boundary : is_char_boundary s p ≡ true
    pub line : NextAnswer s p r
    pub over : (limit ≤ p) ⊎ (engine.captures regex_affiliated (rest_of_line s p r) ≡ none)

  -- Keywords on the lines from one position to another, before the limit, and the data with them.
  pub data Block : ℕ → AffiliatedData → ℕ → AffiliatedData → Type 0 where
    stop : (p : ℕ) (r : Option ℕ) (out : AffiliatedData) → Stops p r → Block p out p out
    more :
        (p q e : ℕ) (out out' : AffiliatedData) (k : KeywordLine engine s p q)
        → p < limit
        → Block q (entry p q k out) e out'
        → Block p out e out'
