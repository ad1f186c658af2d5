-- ===== src/Parser/Current/Choice/Modes.antt =====
-- `current_element` at the beginning of a line (parser.rs).
use org_rs.Prelude.{ℕ, ◌≤◌, ◌≡◌, Bool, true, ◌&&◌, Option, List, ◌∷◌, length}
use org_rs.Prelude.Int.{pos}
use org_rs.Affiliated.Collect.Block.{Block}
use org_rs.Affiliated.Collect.Block.Gathered.{Block-start}
use org_rs.Affiliated.Output.{AffiliatedData, default}
use org_rs.Crates.Memchr.{Memchr}
use org_rs.Crates.Regex.{Regex, RegexEngine, Match}
use org_rs.Cursor.Lines.Places.{Starts-boundary}
use org_rs.Cursor.Lines.Spec.{NextAnswer, Starts}
use org_rs.Cursor.Regexes.{regex_empty_line}
use org_rs.Cursor.State.{M, new, ◌>>=◌, ◌>>◌}
use org_rs.Data.Outline.{ListStruct}
use org_rs.Data.Syntax.{SyntaxNode}
use org_rs.Parser.Current.{after_headline, drawer_delta, wants_drawer}
use org_rs.Parser.Current.Choice.{
  behind_keywords, Rule, rule, first_match, look, rules, drawer_lines,
}
use org_rs.Parser.Current.Choice.First.{First}
use org_rs.Parser.Current.Choice.Table
use org_rs.Parser.Current.Choice.Star.{Tests}
use org_rs.Parser.Expressions.{regex_property_drawer}
use org_rs.Parser.Interface.{ElementParsers}
use org_rs.Parser.Mode.{ParseGranularity, ParserMode}
use org_rs.Rust.Outcome.{ok}
use org_rs.Rust.Str.{Str, is_char_boundary}
use org_rs.Rust.Utf8.{Char, encode_all}
use org_rs.Rust.Utf8.Encoding.{AllChars}

module _ (mc : Memchr) (engine : RegexEngine) (ps : ElementParsers) (granularity : ParseGranularity)
    (structure : Option ListStruct) (limit : ℕ) (cs : List Char) (valid : AllChars cs) (p e : ℕ)
    (out : AffiliatedData) (r r' : Option ℕ) (starts : Starts (encode_all cs) p)
    (block : Block engine (encode_all cs) limit p default e out)
    (answer : NextAnswer (encode_all cs) p r) (answer' : NextAnswer (encode_all cs) e r') where
  abbrev s : Str
  s = encode_all cs

  abbrev inside : p ≤ length s
  inside = Block-start mc engine s limit p e default out block

  abbrev boundary : is_char_boundary s p ≡ true
  boundary = Starts-boundary cs p valid starts

  abbrev pub find_here : Regex → Option Match
  find_here = look engine s p r

  abbrev find_behind : Regex → Option Match
  find_behind = look engine s e r'

  abbrev d : M SyntaxNode
  d =
      behind_keywords mc engine ps granularity structure limit p find_here e find_behind out
        (find_behind regex_empty_line)

  abbrev Runs : List Rule → M SyntaxNode → Type 0
  Runs rs m = First mc engine s p r inside boundary answer rs d m

  abbrev line_rules : List Rule
  line_rules =
      Table.line_rules mc engine ps granularity structure limit cs valid p e out r r' starts block
        answer answer'

  abbrev DrawerTests : ParserMode → Type 0
  DrawerTests mode =
      Tests mc engine ps granularity cs valid p (drawer_lines mode) (drawer_delta mode)

  module _ (mode : ParserMode) (t u : Bool)
      (planning_star : after_headline mc engine ps granularity (pos 0) (new s p) ≡ ok (t, new s p))
      (drawer_star : after_headline mc engine ps granularity (drawer_delta mode) (new s p)
        ≡ ok (u, new s p)) where
    abbrev drawer_rules : List Rule
    drawer_rules =
        rule (wants_drawer mode && u) regex_property_drawer (ps.property_drawer_parser limit)
        ∷ line_rules

    abbrev all_rules : List Rule
    all_rules = rules mc engine ps granularity structure limit p mode t u

  -- The parser of the first rule that applies.
  abbrev pub chosen : ParserMode → Bool → Bool → M SyntaxNode
  chosen mode t u =
      first_match find_here (rules mc engine ps granularity structure limit p mode t u) d
