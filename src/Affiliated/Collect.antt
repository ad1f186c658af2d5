-- ===== src/Affiliated/Collect.antt =====
-- `collect_affiliated_keywords`.
pub mod LastLine
pub mod Round
pub mod Collected
pub mod Stored
pub mod Block
use org_rs.Prelude.{
  ℕ, zero, suc, ◌+◌, Bool, true, false, not, ◌||◌, Option, none, some, List, [], ◌∷◌, ◌++◌, leb,
  if◌then◌else◌, String, length,
}
use org_rs.Affiliated.Output.{
  AffiliatedData, Group, caption, results, header, plot, name, attr, default, store,
}
use org_rs.Crates.Memchr.{Memchr}
use org_rs.Crates.Regex.{Regex, RegexEngine, Match, Captures}
use org_rs.Cursor.Lines.{is_bol, line_end_position, goto_next_line}
use org_rs.Cursor.Regexes.{looking_at, capturing_at, regex_empty_line, is_some}
use org_rs.Cursor.State.{Cursor, M, pure, lift, out_of_fuel, ◌>>=◌, ◌>>◌, set, get_pos, get_text}
use org_rs.Rust.Outcome.{Outcome, ok, panic, unwrap_none}
use org_rs.Rust.Str.{Str, codes, str_between}
use org_rs.Rust.Trim.{trim, to_ascii_uppercase}

-- The parts of the expression are joined by `|`, as `format!` does in the source.
abbrev pub regex_affiliated : Regex
regex_affiliated =
    codes "(?i)^[ \\t]*"
    ++ codes "#\\+(?:(?:(?P<CAPTION>CAPTION)|(?P<RESULTS>RESULTS?))(?:\\[(?P<SECONDARY>.*)\\])?"
    ++ codes "|(?P<HEADER>HEADERS?)|(?P<PLOT>PLOT)"
    ++ codes "|(?P<NAME>(?:DATA|LABEL|NAME|RESNAME|(?:S(?:OURC|RCNAM)|TBLNAM)E))"
    ++ codes "|(?P<ATTR>ATTR_[-_A-Za-z0-9]+)):[ \\t]*"

abbrev group_name : Group → String
group_name caption = "CAPTION"
group_name results = "RESULTS"
group_name header = "HEADER"
group_name plot = "PLOT"
group_name name = "NAME"
group_name attr = "ATTR"

-- `capture_names()` without SECONDARY.
abbrev pub groups : List Group
groups = caption ∷ results ∷ header ∷ plot ∷ name ∷ attr ∷ []

abbrev choose : Group → Option Match → Outcome (Group × Match) → Outcome (Group × Match)
choose g none later = later
choose g (some m) later = ok (g, m)

-- The first group that took part in the match; `unwrap` panics if none did.
unfoldable pub matched_group : Captures → List Group → Outcome (Group × Match)
matched_group cap [] = panic unwrap_none
matched_group cap (g ∷ gs) = choose g (cap.name (group_name g)) (matched_group cap gs)

-- Where the value begins: behind the ':' that follows the group, or behind "]:".
unfoldable pub value_begin : ℕ → Match → Option Match → ℕ
value_begin pos m none = pos + m.end + 1
value_begin pos m (some sec) = pos + sec.end + 2

-- `Match::as_str`, at the position where the haystack began.
abbrev pub as_str : ℕ → Option Match → M (Option Str)
as_str pos none = pure none
as_str pos (some m) = do
  text ← get_text
  s ← lift (str_between text (pos + m.start) (pos + m.end))
  pure (some s)

abbrev pub trimmed : Option Str → Option Str
trimmed none = none
trimmed (some s) = some (trim s)

abbrev pub unwrapped : Option Str → M Str
unwrapped none = lift (panic unwrap_none)
unwrapped (some s) = pure s

-- The text of ATTR in capitals, which is read for that group alone.
abbrev pub backend_of : Group → ℕ → Captures → M Str
backend_of attr pos cap = do
  s ← as_str pos (cap.name "ATTR")
  backend ← unwrapped s
  pure (to_ascii_uppercase backend)
backend_of _ pos cap = pure []

module _ (mc : Memchr) (engine : RegexEngine) where
  -- One round: read the keyword at the cursor, store it, and go to the next line.
  unfoldable pub collect_one : Captures → AffiliatedData → M AffiliatedData
  collect_one cap out = do
    found ← lift (matched_group cap groups)
    pos ← get_pos
    let first : ℕ = value_begin pos found.1 (cap.name "SECONDARY")
    last ← line_end_position mc none
    text ← get_text
    value ← lift (str_between text first last)
    secondary ← as_str pos (cap.name "SECONDARY")
    backend ← backend_of found.0 pos cap
    goto_next_line mc
    pure (store found.0 (trim value) (trimmed secondary) backend out)

  unfoldable pub collect_loop : ℕ → ℕ → AffiliatedData → M AffiliatedData
  collect_loop zero limit out = out_of_fuel
  collect_loop (suc fuel) limit out = do
    maybe_affiliated ← capturing_at mc engine regex_affiliated
    current_pos ← get_pos
    elim maybe_affiliated [
      | none ↦ pure out
      | some cap ↦
          let more : M AffiliatedData = (do
            out' ← collect_one cap out
            collect_loop fuel limit out') in
          if leb limit current_pos then pure out else more
    ]

  abbrev pub orphaned : ℕ → AffiliatedData → Option Match → M (ℕ × Option AffiliatedData)
  orphaned origin out none = pure (origin, some out)
  orphaned origin out (some m) = do set origin; pure (origin, none)

  unfoldable pub collect_from_bol : ℕ → M (ℕ × Option AffiliatedData)
  unfolding collect_loop collect_one
  collect_from_bol limit = do
    origin ← get_pos
    text ← get_text
    out ← collect_loop (suc (length text)) limit default
    empty ← looking_at mc engine regex_empty_line
    orphaned origin out empty

  unfoldable pub collect_affiliated_keywords : ℕ → M (ℕ × Option AffiliatedData)
  collect_affiliated_keywords limit = do
    bol ← is_bol mc
    if bol then collect_from_bol limit else do pos ← get_pos; pure (pos, none)
