-- ===== src/Parser/Contract.antt =====
-- What the loop over the elements needs of the element parsers (parser.rs).
use org_rs.Prelude.{ℕ, ◌≤◌, ◌<◌, ◌≡◌, ◌⊎◌, inl, inr, Bool, true, Option, none, some, arith, length}
use org_rs.Affiliated.Output.{AffiliatedData}
use org_rs.Cursor.Runs.{Triple, Same}
use org_rs.Cursor.State.{Cursor, M}
use org_rs.Data.Kind.{SyntaxT}
use org_rs.Data.Outline.{ListStruct}
use org_rs.Data.Syntax
use org_rs.Data.Syntax.{
  children_of, SyntaxNode, Interval, kind_of, data_of, location_of, content_of,
}
use org_rs.Parser.Interface.{ElementParsers}
use org_rs.Parser.Mode.{ParserMode, first_section, section, planning, property_drawer, next_mode}
use org_rs.Rust.Str.{Str}

-- How many times contents may still begin where their element begins: a section may open with a
-- list or a table, whose items and rows begin further on.
abbrev pub level : ParserMode → ℕ
level first_section = 2
level section = 2
level planning = 1
level property_drawer = 1
level _ = 0

-- The contents of an element of this kind are parsed in a mode of its own, of a level below `n`.
abbrev pub LowersTo : ℕ → Option ParserMode → Type 0
LowersTo n none = ⊥
LowersTo n (some m) = level m < n

abbrev pub Lowers : ℕ → SyntaxT → Type 0
Lowers n kind = LowersTo n (next_mode kind true)

-- Contents that lie in the text and begin behind `p`, or at `p` in a mode of a lower level.
abbrev pub ContentsAhead : Str → ℕ → ℕ → SyntaxT → Option Interval → Type 0
ContentsAhead s p n kind none = Unit
ContentsAhead s p n kind (some i) =
    (i.start ≤ length s) × (i.end ≤ length s) × ((p < i.start) ⊎ ((p ≤ i.start) × Lowers n kind))

-- A node that an element parser may return for an element that begins at `p`: it ends behind `p` and
-- in the text, and has no children yet.
pub record IsAhead (s : Str) (p n : ℕ) (a : SyntaxNode) : Type 0 where
  pub begins : (location_of a).start ≡ p
  pub ends_behind : p < (location_of a).end
  pub ends_inside : (location_of a).end ≤ length s
  pub childless : children_of a ≡ Syntax.nil
  pub contents : ContentsAhead s p n (kind_of (data_of a)) (content_of a)

module _ (s : Str) (p : ℕ) {n m : ℕ} (lower : n ≤ m) where
  LowersTo-mono : (o : Option ParserMode) → LowersTo n o → LowersTo m o
  LowersTo-mono none h = h
  LowersTo-mono (some k) h = omega arith

  ContentsAhead-mono :
      (kind : SyntaxT) (o : Option Interval)
      → ContentsAhead s p n kind o
      → ContentsAhead s p m kind o
  ContentsAhead-mono kind none h = tt
  ContentsAhead-mono kind (some i) (starts, ends, inl behind) = (starts, ends, inl behind)
  ContentsAhead-mono kind (some i) (starts, ends, inr (at, low)) =
      (starts, ends, inr (at, LowersTo-mono (next_mode kind true) low))

  pub IsAhead-mono : (a : SyntaxNode) → IsAhead s p n a → IsAhead s p m a
  IsAhead-mono a h = record {
    begins = h.begins;
    ends_behind = h.ends_behind;
    ends_inside = h.ends_inside;
    childless = h.childless;
    contents = ContentsAhead-mono (kind_of (data_of a)) (content_of a) h.contents;
  }

-- Text `s`, and the position `p`, which is not the end, or one behind it.
abbrev pub At : Str → ℕ → Cursor → Type 0
At s p c = (c.text ≡ s) × (c.pos ≡ p) × (p < length s)

abbrev pub Inside : Str → ℕ → Cursor → Type 0
Inside s p c = (c.text ≡ s) × (p ≤ c.pos) × (c.pos < length s)

-- A node for an element that begins at `p`, and the text as it was.
abbrev pub Answer : Str → ℕ → ℕ → SyntaxNode → Cursor → Type 0
Answer s p n a c = IsAhead s p n a × (c.text ≡ s)

-- From a cursor with `I`, the parser panics or returns such a node.
abbrev pub Aims : (Cursor → Type 0) → Str → ℕ → ℕ → M SyntaxNode → Type 0
Aims I s p n m = Triple I (Answer s p n) m

-- A parser for the element at the cursor.
abbrev pub Ahead : Str → ℕ → M SyntaxNode → Type 0
Ahead s n m = (p : ℕ) → Aims (At s p) s p n m

-- A parser for the element that begins at `start`, with its affiliated keywords; the cursor is there
-- or behind them.
abbrev pub AheadFrom : Str → ℕ → ℕ → M SyntaxNode → Type 0
AheadFrom s n start m = Aims (Inside s start) s start n m

-- Text `s`, and a position from `p` on.
abbrev pub From : Str → ℕ → Cursor → Type 0
From s p c = (c.text ≡ s) × (p ≤ c.pos)

-- Text `s`, and the position `p`.
abbrev pub Here : Str → ℕ → Cursor → Type 0
Here s p c = (c.text ≡ s) × (c.pos ≡ p)

-- What the element parsers ensure over the text `s`. Contents may begin at the position
-- itself in a section, a list and a table alone. The scan of a list and the parse of
-- objects leave the cursor where it is.
pub record Contract (s : Str) (ps : ElementParsers) : Type 0 where
  pub headline_parser_ahead : Ahead s 0 ps.headline_parser
  pub inlinetask_parser_ahead :
      (limit : ℕ) (raw : Bool) → Ahead s 0 (ps.inlinetask_parser limit raw)
  pub property_drawer_parser_ahead : (limit : ℕ) → Ahead s 0 (ps.property_drawer_parser limit)
  pub node_property_parser_ahead : (limit : ℕ) → Ahead s 0 (ps.node_property_parser limit)
  pub item_parser_ahead :
      (structure : Option ListStruct) (raw : Bool) → Ahead s 0 (ps.item_parser structure raw)
  pub plain_list_parser_ahead :
      (limit start : ℕ) (aff : Option AffiliatedData) (structure : ListStruct)
      → AheadFrom s 1 start (ps.plain_list_parser limit start aff structure)
  pub center_block_parser_ahead :
      (limit start : ℕ) (aff : Option AffiliatedData)
      → AheadFrom s 0 start (ps.center_block_parser limit start aff)
  pub comment_block_parser_ahead :
      (limit start : ℕ) (aff : Option AffiliatedData)
      → AheadFrom s 0 start (ps.comment_block_parser limit start aff)
  pub example_block_parser_ahead :
      (limit start : ℕ) (aff : Option AffiliatedData)
      → AheadFrom s 0 start (ps.example_block_parser limit start aff)
  pub export_block_parser_ahead :
      (limit start : ℕ) (aff : Option AffiliatedData)
      → AheadFrom s 0 start (ps.export_block_parser limit start aff)
  pub quote_block_parser_ahead :
      (limit start : ℕ) (aff : Option AffiliatedData)
      → AheadFrom s 0 start (ps.quote_block_parser limit start aff)
  pub src_block_parser_ahead :
      (limit start : ℕ) (aff : Option AffiliatedData)
      → AheadFrom s 0 start (ps.src_block_parser limit start aff)
  pub verse_block_parser_ahead :
      (limit start : ℕ) (aff : Option AffiliatedData)
      → AheadFrom s 0 start (ps.verse_block_parser limit start aff)
  pub special_block_parser_ahead :
      (limit start : ℕ) (aff : Option AffiliatedData)
      → AheadFrom s 0 start (ps.special_block_parser limit start aff)
  pub dynamic_block_parser_ahead :
      (limit start : ℕ) (aff : Option AffiliatedData)
      → AheadFrom s 0 start (ps.dynamic_block_parser limit start aff)
  pub latex_environment_parser_ahead :
      (limit start : ℕ) (aff : Option AffiliatedData)
      → AheadFrom s 0 start (ps.latex_environment_parser limit start aff)
  pub table_row_parser_ahead : Ahead s 0 ps.table_row_parser
  pub table_parser_ahead :
      (limit start : ℕ) (aff : Option AffiliatedData)
      → AheadFrom s 1 start (ps.table_parser limit start aff)
  pub comment_parser_ahead :
      (limit start : ℕ) (aff : Option AffiliatedData)
      → AheadFrom s 0 start (ps.comment_parser limit start aff)
  pub horizontal_rule_parser_ahead :
      (limit start : ℕ) (aff : Option AffiliatedData)
      → AheadFrom s 0 start (ps.horizontal_rule_parser limit start aff)
  pub footnote_definition_parser_ahead :
      (limit start : ℕ) (aff : Option AffiliatedData)
      → AheadFrom s 0 start (ps.footnote_definition_parser limit start aff)
  pub fixed_width_parser_ahead :
      (limit start : ℕ) (aff : Option AffiliatedData)
      → AheadFrom s 0 start (ps.fixed_width_parser limit start aff)
  pub keyword_parser_ahead :
      (limit start : ℕ) (aff : Option AffiliatedData)
      → AheadFrom s 0 start (ps.keyword_parser limit start aff)
  pub babel_call_parser_ahead :
      (limit start : ℕ) (aff : Option AffiliatedData)
      → AheadFrom s 0 start (ps.babel_call_parser limit start aff)
  pub paragraph_parser_ahead :
      (limit start : ℕ) (aff : Option AffiliatedData)
      → AheadFrom s 0 start (ps.paragraph_parser limit start aff)
  pub section_parser_ahead : (limit : ℕ) → Ahead s 2 (ps.section_parser limit)
  pub drawer_parser_ahead :
      (limit start : ℕ) (aff : Option AffiliatedData)
      → AheadFrom s 0 start (ps.drawer_parser limit start aff)
  pub planning_parser_ahead : (limit : ℕ) → Ahead s 0 (ps.planning_parser limit)
  pub clock_line_parser_ahead : (limit : ℕ) → Ahead s 0 (ps.clock_line_parser limit)
  pub diary_sexp_parser_ahead :
      (limit start : ℕ) (aff : Option AffiliatedData)
      → AheadFrom s 0 start (ps.diary_sexp_parser limit start aff)
  pub list_struct_keeps : (limit : ℕ) → Same (ps.list_struct limit)
  pub parse_objects_keeps :
      (beg end : ℕ) (allowed : SyntaxT → Bool) → Same (ps.parse_objects beg end allowed)
