-- ===== src/Parser/Current/Choice.antt =====
-- The choice of an element's parser at the beginning of a line, as a table of rules (parser.rs).
pub mod First
pub mod Star
pub mod Table
pub mod Modes
use org_rs.Prelude.{
  ℕ, ◌≡◌, Bool, true, false, ◌&&◌, Option, none, some, List, [], ◌∷◌, drop, leb, get_elem?,
  if◌then◌else◌,
}
use org_rs.Affiliated.Output.{AffiliatedData}
use org_rs.Crates.Memchr.{Memchr}
use org_rs.Crates.Regex.{Regex, RegexEngine, Match}
use org_rs.Cursor.Lines.Spec.{LinesUp}
use org_rs.Cursor.Regexes.{is_multiline_regex, is_some, regex_empty_line, regex_headline_short}
use org_rs.Cursor.Regexes.Line.{rest_of_line}
use org_rs.Cursor.State.{M, lift, set, ◌>>◌}
use org_rs.Data.Outline.{ListStruct}
use org_rs.Data.Syntax.{SyntaxNode}
use org_rs.Parser.Branch.{plain_list}
use org_rs.Parser.Current.{is_object_granularity, is_planning, wants_drawer, is_star}
use org_rs.Parser.Expressions.{
  regex_planning_line, regex_property_drawer, regex_clock_line, regex_latex_begin_environment,
  regex_drawer, regex_fixed_width, regex_starts_with_hashtag, regex_footnote_definition,
  regex_horizontal_rule, regex_diary_sexp, regex_table_border, regex_item,
}
use org_rs.Parser.Interface.{ElementParsers}
use org_rs.Parser.Mode.{
  ParseGranularity, ParserMode, first_section, section, planning, item, node_property, table_row,
  property_drawer,
}
use org_rs.Rust.Outcome.{panic, already_borrowed}
use org_rs.Rust.Str.{Str}

-- Where the guard holds and the expression matches, the parser is the rule's.
pub record Rule : Type 0 where
  pub guard : Bool
  pub expression : Regex
  pub parser : M SyntaxNode

abbrev pub rule : Bool → Regex → M SyntaxNode → Rule
rule guard expression parser = record { guard = guard; expression = expression; parser = parser }

-- The first rule that applies.
abbrev pub first_match : (Regex → Option Match) → List Rule → M SyntaxNode → M SyntaxNode
first_match look [] default_parser = default_parser
first_match look (r ∷ rules) default_parser =
    if r.guard && is_some (look r.expression)
    then r.parser
    else first_match look rules default_parser

-- What an expression finds in the line at `p`, or, if it may match a line break, in the text from
-- there on.
abbrev pub look : RegexEngine → Str → ℕ → Option ℕ → Regex → Option Match
look engine s p r re =
    engine.find re (if is_multiline_regex re then drop p s else rest_of_line s p r)

-- The modes in which the tests for a line are made.
abbrev pub IsLineMode : ParserMode → Type 0
IsLineMode planning = Unit
IsLineMode property_drawer = Unit
IsLineMode _ = ⊥

-- Whether the line `k` lines above the one that begins at `p`, or the first line, begins with a star.
abbrev pub StarAbove : Str → ℕ → ℕ → Bool → Type 0
StarAbove s k p t = (b : ℕ) × LinesUp s k p b × (t ≡ is_star (get_elem? s b))

-- How far above the property drawer's headline is.
abbrev pub drawer_lines : ParserMode → ℕ
drawer_lines planning = 1
drawer_lines _ = 2

module _ (mc : Memchr) (engine : RegexEngine) (ps : ElementParsers) (granularity : ParseGranularity)
    (structure : Option ListStruct) (limit start : ℕ) where
  -- Behind the collection of keywords. A line that begins with a hashtag panics.
  abbrev pub rules_with_affiliated : Option AffiliatedData → List Rule
  rules_with_affiliated aff =
      rule true regex_latex_begin_environment (ps.latex_environment_parser limit start aff)
      ∷ rule true regex_drawer (ps.drawer_parser limit start aff)
      ∷ rule true regex_fixed_width (ps.fixed_width_parser limit start aff)
      ∷ rule true regex_starts_with_hashtag (lift (panic already_borrowed))
      ∷ rule true regex_footnote_definition (ps.footnote_definition_parser limit start aff)
      ∷ rule true regex_horizontal_rule (ps.horizontal_rule_parser limit start aff)
      ∷ rule true regex_diary_sexp (ps.diary_sexp_parser limit start aff)
      ∷ rule true regex_table_border (ps.table_parser limit start aff)
      ∷ rule true regex_item (plain_list mc engine ps granularity structure limit start aff)
      ∷ []

  -- The rules at a position, with the keywords that were collected from `start` on.
  abbrev pub parsed_at : ℕ → (Regex → Option Match) → Option AffiliatedData → M SyntaxNode
  parsed_at q looked aff = do
    set q
    first_match looked (rules_with_affiliated aff) (ps.paragraph_parser limit start aff)

  -- Behind a block of keywords that ends at `e`, by the match of an empty line there: keywords before
  -- an empty line are dropped, and those that the limit cuts off are parsed as such.
  abbrev pub behind_keywords :
      (Regex → Option Match)
      → ℕ
      → (Regex → Option Match)
      → AffiliatedData
      → Option Match
      → M SyntaxNode
  behind_keywords at_start e at_end out none =
      if leb limit e
      then (do set start; ps.keyword_parser limit start none)
      else parsed_at e at_end (some out)
  behind_keywords at_start e at_end out (some m) = parsed_at start at_start none

  -- The rules before the collection, with whether a star stands where the tests for a planning line and
  -- for a property drawer look for one.
  abbrev pub rules : ParserMode → Bool → Bool → List Rule
  rules mode planning_star drawer_star =
      rule true regex_headline_short ps.headline_parser
      ∷ rule (is_planning mode && planning_star) regex_planning_line (ps.planning_parser limit)
      ∷ rule (wants_drawer mode && drawer_star) regex_property_drawer
          (ps.property_drawer_parser limit)
      ∷ rule true regex_clock_line (ps.clock_line_parser limit)
      ∷ rule true regex_headline_short
          (ps.inlinetask_parser limit (is_object_granularity granularity))
      ∷ []
