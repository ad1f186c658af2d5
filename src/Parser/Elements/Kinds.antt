-- ===== src/Parser/Elements/Kinds.antt =====
-- The kind of the element that `current_element` returns in each mode.
use org_rs.Prelude.{ℕ, ◌≡◌, inl, inr, Bool, Option}
use org_rs.Crates.Memchr.{Memchr}
use org_rs.Crates.Regex.{RegexEngine}
use org_rs.Cursor.Regexes.{on_headline, next_headline}
use org_rs.Cursor.State.{M, get_pos, set, pure}
use org_rs.Data.Kind.{SyntaxT}
use org_rs.Data.Outline.{ListStruct}
use org_rs.Data.Syntax.{SyntaxNode, kind_of, data_of}
use org_rs.Parser.Branch.{or_else}
use org_rs.Parser.Current.{
  first_section_stage, section_stage, headline_stage, get_current_element, current_element,
}
use org_rs.Cursor.Runs.Returns.{
  Ensures, Ensures-bind, Ensures-if, Ensures-after, Ensures-pure, Ensures-weaken,
}
use org_rs.Parser.Elements.Spec.{Allowed}
use org_rs.Parser.Interface.{ElementParsers}
use org_rs.Parser.Mode.{
  ParseGranularity, ParserMode, first_section, section, planning, item, node_property, table_row,
  property_drawer,
}

abbrev pub IsKind : SyntaxT → SyntaxNode → Type 0
IsKind kind a = kind_of (data_of a) ≡ kind

-- The parsers that a mode alone calls return elements of their kind.
pub record Kinds (ps : ElementParsers) : Type 0 where
  pub headline_parser_kind : Ensures (IsKind SyntaxT.headline) ps.headline_parser
  pub section_parser_kind : (limit : ℕ) → Ensures (IsKind SyntaxT.section) (ps.section_parser limit)
  pub item_parser_kind :
      (structure : Option ListStruct) (raw : Bool)
      → Ensures (IsKind SyntaxT.item) (ps.item_parser structure raw)
  pub table_row_parser_kind : Ensures (IsKind SyntaxT.table_row) ps.table_row_parser
  pub node_property_parser_kind :
      (limit : ℕ) → Ensures (IsKind SyntaxT.node_property) (ps.node_property_parser limit)

abbrev pub AllowedIn : ParserMode → SyntaxNode → Type 0
AllowedIn mode a = Allowed mode (kind_of (data_of a))

any :
    (mode : ParserMode)
    → ((k : SyntaxT) → Allowed mode k)
    → (m : M SyntaxNode) → Ensures (AllowedIn mode) m
any mode h m = record { returns = λ c c' a e. h (kind_of (data_of a)) }

module _ (mc : Memchr) (engine : RegexEngine) (ps : ElementParsers) (granularity : ParseGranularity)
    (kinds : Kinds ps) where
  headlines :
      (mode : ParserMode)
      → ((k : SyntaxT) → k ≡ SyntaxT.headline → Allowed mode k)
      → Ensures (AllowedIn mode) ps.headline_parser
  headlines mode h =
      Ensures-weaken (IsKind SyntaxT.headline) (AllowedIn mode) (λ a. h (kind_of (data_of a))) _
        kinds.headline_parser_kind

  sections :
      (mode : ParserMode)
      → ((k : SyntaxT) → k ≡ SyntaxT.section → Allowed mode k)
      → (limit : ℕ) → Ensures (AllowedIn mode) (ps.section_parser limit)
  sections mode h limit =
      Ensures-weaken (IsKind SyntaxT.section) (AllowedIn mode) (λ a. h (kind_of (data_of a))) _
        (kinds.section_parser_kind limit)

  first_section_stage-Allowed :
      (limit : ℕ)
      → Ensures (AllowedIn first_section) (first_section_stage mc engine ps granularity limit)
  unfolding first_section_stage
  first_section_stage-Allowed limit = Ensures-bind _ get_pos _ (λ here.
      Ensures-bind _ (next_headline mc engine) _ (λ lim.
        Ensures-bind _ (set here) (λ _. ps.section_parser (or_else lim limit))
          (λ _. sections first_section (λ k. inr) (or_else lim limit))))

  get_current_element-Allowed :
      (mode : ParserMode) (structure : Option ListStruct) (limit : ℕ)
      → Ensures (AllowedIn mode) (get_current_element mc engine ps granularity mode structure limit)
  unfolding get_current_element headline_stage section_stage
  get_current_element-Allowed item structure limit = kinds.item_parser_kind structure _
  get_current_element-Allowed table_row structure limit = kinds.table_row_parser_kind
  get_current_element-Allowed node_property structure limit = kinds.node_property_parser_kind limit
  get_current_element-Allowed section structure limit =
      Ensures-bind _ (on_headline mc engine) _ (λ here.
        Ensures-if _ here _ _ (headlines section (λ k. inl)) (sections section (λ k. inr) limit))
  get_current_element-Allowed first_section structure limit =
      Ensures-bind _ (on_headline mc engine) _ (λ here.
        Ensures-if _ here _ _ (headlines first_section (λ k. inl))
          (first_section_stage-Allowed limit))
  get_current_element-Allowed planning structure limit = any planning (λ k. tt) _
  get_current_element-Allowed property_drawer structure limit = any property_drawer (λ k. tt) _

  pub current_element-Allowed :
      (mode : ParserMode) (structure : Option ListStruct) (limit : ℕ)
      → Ensures (AllowedIn mode) (current_element mc engine ps granularity limit mode structure)
  unfolding current_element
  current_element-Allowed mode structure limit = Ensures-bind _ get_pos _ (λ saved.
      Ensures-after (AllowedIn mode) _
        (get_current_element mc engine ps granularity mode structure limit) _
        (get_current_element-Allowed mode structure limit)
        (λ a allowed. Ensures-bind _ (set saved) (λ _. pure a) (λ _. Ensures-pure _ a allowed)))
