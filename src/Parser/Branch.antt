-- ===== src/Parser/Branch.antt =====
-- The tests of `current_element` behind the affiliated keywords, and those behind `#` (parser.rs).
use org_rs.Prelude.{ℕ, ◌+◌, Option, none, some, if◌then◌else◌}
use org_rs.Affiliated.Output.{AffiliatedData, equal}
use org_rs.Crates.Memchr.{Memchr}
use org_rs.Crates.Regex.{Regex, RegexEngine, Match}
use org_rs.Cursor.Lines.{goto_line_begin}
use org_rs.Cursor.Regexes.{looking_at, capturing_at, is_some}
use org_rs.Cursor.State.{M, lift, ◌>>=◌, ◌>>◌, set, get_pos, get_text}
use org_rs.Data.Outline.{ListStruct}
use org_rs.Data.Syntax.{SyntaxNode}
use org_rs.Parser.Expressions.{
  regex_latex_begin_environment, regex_drawer, regex_fixed_width, regex_starts_with_hashtag,
  regex_colon_or_eol, regex_block_begin, regex_dynamic_block, regex_babel_call, regex_keyword,
  regex_footnote_definition, regex_horizontal_rule, regex_diary_sexp, regex_table_border,
  regex_item,
}
use org_rs.Parser.Interface.{ElementParsers, ElementParser}
use org_rs.Parser.Mode.{ParseGranularity}
use org_rs.Rust.Outcome.{panic, unwrap_none, already_borrowed}
use org_rs.Rust.Str.{Str, codes, str_between}
use org_rs.Rust.Trim.{to_ascii_uppercase}

-- A `borrow_mut` of the cursor in the body of an `if let` whose scrutinee borrowed it: in the 2018
-- edition that borrow lasts to the end of the `if let`, and `RefCell` panics.
abbrev pub borrow_held : M (Unit {0})
borrow_held = lift (panic already_borrowed)

abbrev pub or_else {ℓ} : {A : Type ℓ} → Option A → A → A
or_else none d = d
or_else (some a) d = a

module _ (mc : Memchr) (engine : RegexEngine) (ps : ElementParsers)
    (granularity : ParseGranularity) where
  -- `if looking_at!(re, self).is_some() { return parser }`, and what follows it.
  unfoldable pub try : Regex → M SyntaxNode → M SyntaxNode → M SyntaxNode
  try re parser later = do found ← looking_at mc engine re; if is_some found then parser else later

  -- The cursor goes to the beginning of the line before the parser starts.
  abbrev pub from_line_begin : M SyntaxNode → M SyntaxNode
  from_line_begin parser = do goto_line_begin mc; parser

  unfoldable pub block_parser : Str → ElementParser
  block_parser name =
      if equal name (codes "CENTER")
      then ps.center_block_parser
      else if equal name (codes "COMMENT")
      then ps.comment_block_parser
      else if equal name (codes "EXAMPLE")
      then ps.example_block_parser
      else if equal name (codes "EXPORT")
      then ps.export_block_parser
      else if equal name (codes "QUOTE")
      then ps.quote_block_parser
      else if equal name (codes "SRC")
      then ps.src_block_parser
      else if equal name (codes "VERSE")
      then ps.verse_block_parser
      else ps.special_block_parser

  -- `cap.get(1).unwrap().as_str()`, with the position where the haystack began.
  abbrev group_text : ℕ → Option Match → M Str
  group_text at none = lift (panic unwrap_none)
  group_text at (some m) = do text ← get_text; lift (str_between text (at + m.start) (at + m.end))

  unfoldable pub block_or : ℕ → ℕ → Option AffiliatedData → M SyntaxNode → M SyntaxNode
  unfolding block_parser
  block_or limit start aff later = do
    at ← get_pos
    captured ← capturing_at mc engine regex_block_begin
    elim captured [
      | none ↦ later
      | some cap ↦ (do
        borrow_held
        goto_line_begin mc
        name ← group_text at (cap.get 1)
        block_parser (to_ascii_uppercase name) limit start aff)
    ]

  -- Behind `#`: comments, blocks, babel calls, dynamic blocks and keywords. The cursor is first set
  -- to the end of the match, which counts from where the haystack began.
  unfoldable pub after_hashtag : Match → ℕ → ℕ → Option AffiliatedData → M SyntaxNode
  unfolding block_or try
  after_hashtag m limit start aff = do
    borrow_held
    set m.end
    try regex_colon_or_eol (from_line_begin (ps.comment_parser limit start aff)) (
        block_or limit start aff (
          try regex_babel_call (from_line_begin (ps.babel_call_parser limit start aff)) (
            try regex_dynamic_block (from_line_begin (ps.dynamic_block_parser limit start aff)) (
              try regex_keyword (from_line_begin (ps.keyword_parser limit start aff))
                (from_line_begin (ps.paragraph_parser limit start aff))))))

  -- `structure.unwrap_or(self.list_struct(limit))`: the argument is computed in either case.
  unfoldable pub plain_list : Option ListStruct → ℕ → ℕ → Option AffiliatedData → M SyntaxNode
  plain_list structure limit start aff = do
    computed ← ps.list_struct limit
    ps.plain_list_parser limit start aff (or_else structure computed)

  unfoldable pub without_hashtag : Option ListStruct → ℕ → ℕ → Option AffiliatedData → M SyntaxNode
  unfolding plain_list try
  without_hashtag structure limit start aff =
      try regex_footnote_definition (ps.footnote_definition_parser limit start aff) (
        try regex_horizontal_rule (ps.horizontal_rule_parser limit start aff) (
          try regex_diary_sexp (ps.diary_sexp_parser limit start aff) (
            try regex_table_border (ps.table_parser limit start aff) (
              try regex_item (plain_list structure limit start aff)
                (ps.paragraph_parser limit start aff)))))

  unfoldable pub hashtag_or_other : Option ListStruct → ℕ → ℕ → Option AffiliatedData → M SyntaxNode
  unfolding after_hashtag without_hashtag
  hashtag_or_other structure limit start aff = do
    found ← looking_at mc engine regex_starts_with_hashtag
    elim found [
      | none ↦ without_hashtag structure limit start aff
      | some m ↦ after_hashtag m limit start aff
    ]

  unfoldable pub with_affiliated : Option ListStruct → ℕ → ℕ → Option AffiliatedData → M SyntaxNode
  unfolding hashtag_or_other try
  with_affiliated structure limit start aff =
      try regex_latex_begin_environment (ps.latex_environment_parser limit start aff) (
        try regex_drawer (ps.drawer_parser limit start aff) (
          try regex_fixed_width (ps.fixed_width_parser limit start aff)
            (hashtag_or_other structure limit start aff)))
