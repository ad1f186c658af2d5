-- ===== src/Parser/Current.antt =====
-- `current_element`: which parser the element at the cursor gets, in the order of the source's tests.
pub mod Ensures
pub mod Ladder
pub mod Stubs
pub mod Within
pub mod Stages
pub mod Answers
pub mod Inlinetask
pub mod Choice
use org_rs.Prelude.{
  ℕ, ◌+◌, Bool, true, false, not, ◌&&◌, ◌||◌, ◌==◌, Option, none, some, List, [], ◌∷◌, leb,
  if◌then◌else◌, String,
}
use org_rs.Prelude.Int.{ℤ, pos, negsuc}
use org_rs.Affiliated.Collect.{collect_affiliated_keywords}
use org_rs.Affiliated.Output.{AffiliatedData, equal}
use org_rs.Crates.Memchr.{Memchr}
use org_rs.Crates.Regex.{Regex, RegexEngine, Match, Captures}
use org_rs.Cursor.Lines.{is_bol, line_beginning_position, goto_line_begin}
use org_rs.Cursor.Moves.{char_after}
use org_rs.Cursor.Regexes.{looking_at, capturing_at, on_headline, next_headline, is_some}
use org_rs.Cursor.State.{Cursor, M, pure, lift, ◌>>=◌, ◌>>◌, set, get_pos, get_text}
use org_rs.Data.Outline.{ListStruct}
use org_rs.Data.Syntax.{SyntaxNode}
use org_rs.Parser.Branch.{or_else, try, with_affiliated}
use org_rs.Parser.Expressions.{
  regex_planning_line, regex_property_drawer, regex_clock_line, regex_latex_begin_environment,
  regex_drawer, regex_fixed_width, regex_starts_with_hashtag, regex_colon_or_eol, regex_block_begin,
  regex_dynamic_block, regex_babel_call, regex_keyword, regex_footnote_definition,
  regex_horizontal_rule, regex_diary_sexp, regex_table_border, regex_item,
}
use org_rs.Parser.Interface.{ElementParsers, ElementParser}
use org_rs.Parser.Mode.{
  ParseGranularity, headline, greater_element, element, object, ParserMode, first_section, section,
  planning, item, node_property, table_row, property_drawer,
}
use org_rs.Rust.Outcome.{Outcome, ok, panic, unwrap_none, already_borrowed}
use org_rs.Rust.Str.{Str, codes, str_between}
use org_rs.Rust.Trim.{to_ascii_uppercase}

abbrev pub is_object_granularity : ParseGranularity → Bool
is_object_granularity object = true
is_object_granularity _ = false

abbrev star : ℕ
star = b'*'

abbrev pub is_star : Option ℕ → Bool
is_star none = false
is_star (some c) = c == star

-- Modes are compared by `==`.
abbrev pub is_planning : ParserMode → Bool
is_planning planning = true
is_planning _ = false

abbrev pub wants_drawer : ParserMode → Bool
wants_drawer planning = true
wants_drawer property_drawer = true
wants_drawer _ = false

-- The delta of the property drawer's test.
abbrev pub drawer_delta : ParserMode → ℤ
drawer_delta planning = pos 0
drawer_delta _ = negsuc 0

module _ (mc : Memchr) (engine : RegexEngine) (ps : ElementParsers)
    (granularity : ParseGranularity) where
  unfoldable pub affiliated_stage : Option ListStruct → ℕ → M SyntaxNode
  unfolding with_affiliated
  affiliated_stage structure limit = do
    collected ← collect_affiliated_keywords mc engine limit
    here ← get_pos
    let orphaned : M SyntaxNode = (do set collected.0; ps.keyword_parser limit collected.0 none)
    let parsed : M SyntaxNode =
        with_affiliated mc engine ps granularity structure limit collected.0 collected.1
    if is_some collected.1 && leb limit here then orphaned else parsed

  unfoldable pub inlinetask_stage : Option ListStruct → ℕ → M SyntaxNode
  unfolding affiliated_stage
  inlinetask_stage structure limit = do
    task ← on_headline mc engine
    if task
        then ps.inlinetask_parser limit (is_object_granularity granularity)
        else affiliated_stage structure limit

  unfoldable pub line_stage : Option ListStruct → ℕ → M SyntaxNode
  unfolding inlinetask_stage try
  line_stage structure limit = do
    bol ← is_bol mc
    here ← get_pos
    if not bol
        then ps.paragraph_parser limit here none
        else try mc engine ps granularity regex_clock_line (ps.clock_line_parser limit)
            (inlinetask_stage structure limit)

  -- Whether the line that `delta` tells begins with a star.
  unfoldable pub after_headline : ℤ → M Bool
  after_headline delta = do
    offset ← line_beginning_position mc (some delta)
    maybe_star ← char_after offset
    pure (is_star maybe_star)

  unfoldable pub drawer_stage : ParserMode → Option ListStruct → ℕ → M SyntaxNode
  unfolding after_headline line_stage
  drawer_stage mode structure limit = do
    star_before ← after_headline (drawer_delta mode)
    found ← looking_at mc engine regex_property_drawer
    if wants_drawer mode && (star_before && is_some found)
        then ps.property_drawer_parser limit
        else line_stage structure limit

  unfoldable pub planning_stage : ParserMode → Option ListStruct → ℕ → M SyntaxNode
  unfolding after_headline drawer_stage
  planning_stage mode structure limit = do
    star_before ← after_headline (pos 0)
    found ← looking_at mc engine regex_planning_line
    if is_planning mode && (star_before && is_some found)
        then ps.planning_parser limit
        else drawer_stage mode structure limit

  unfoldable pub first_section_stage : ℕ → M SyntaxNode
  first_section_stage limit = do
    here ← get_pos
    lim ← next_headline mc engine
    set here
    ps.section_parser (or_else lim limit)

  unfoldable pub section_stage : ParserMode → Option ListStruct → ℕ → M SyntaxNode
  unfolding first_section_stage planning_stage
  section_stage section structure limit = ps.section_parser limit
  section_stage first_section structure limit = first_section_stage limit
  section_stage mode structure limit = planning_stage mode structure limit

  unfoldable pub headline_stage : ParserMode → Option ListStruct → ℕ → M SyntaxNode
  unfolding section_stage
  headline_stage mode structure limit = do
    here ← on_headline mc engine
    if here then ps.headline_parser else section_stage mode structure limit

  -- The closure `get_current_element`.
  unfoldable pub get_current_element : ParserMode → Option ListStruct → ℕ → M SyntaxNode
  unfolding headline_stage
  get_current_element item structure limit =
      ps.item_parser structure (is_object_granularity granularity)
  get_current_element table_row structure limit = ps.table_row_parser
  get_current_element node_property structure limit = ps.node_property_parser limit
  get_current_element mode structure limit = headline_stage mode structure limit

  unfoldable pub current_element : ℕ → ParserMode → Option ListStruct → M SyntaxNode
  current_element limit mode structure = do
    saved ← get_pos
    current ← get_current_element mode structure limit
    set saved
    pure current
