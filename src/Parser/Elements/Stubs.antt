-- ===== src/Parser/Elements/Stubs.antt =====
-- The element parsers of the source, whose bodies are `unimplemented!()`, keep the contract of the loop.
use org_rs.Prelude.{ℕ}
use org_rs.Data.Kind.{SyntaxT}
use org_rs.Parser.Contract.{Ahead, AheadFrom, Contract}
use org_rs.Cursor.Runs.Returns.{Ensures, Ensures-panic}
use org_rs.Parser.Elements.Kinds.{Kinds, IsKind}
use org_rs.Parser.Interface.{stub}
use org_rs.Parser.Interface.Stubs.{stubs}
use org_rs.Rust.Outcome.{unimplemented}
use org_rs.Rust.Str.{Str}

stub-Ahead : (s : Str) (n : ℕ) → Ahead s n stub
stub-Ahead s n p = record { runs = λ c i. tt }

stub-AheadFrom : (s : Str) (n start : ℕ) → AheadFrom s n start stub
stub-AheadFrom s n start = record { runs = λ c i. tt }

stub-IsKind : (kind : SyntaxT) → Ensures (IsKind kind) stub
stub-IsKind kind = Ensures-panic (IsKind kind) unimplemented

pub stubs-Contract : (s : Str) → Contract s stubs
stubs-Contract s = record {
  headline_parser_ahead = stub-Ahead s 0;
  inlinetask_parser_ahead = λ w x. stub-Ahead s 0;
  property_drawer_parser_ahead = λ w. stub-Ahead s 0;
  node_property_parser_ahead = λ w. stub-Ahead s 0;
  item_parser_ahead = λ w x. stub-Ahead s 0;
  plain_list_parser_ahead = λ w x y z. stub-AheadFrom s 1 x;
  center_block_parser_ahead = λ w x y. stub-AheadFrom s 0 x;
  comment_block_parser_ahead = λ w x y. stub-AheadFrom s 0 x;
  example_block_parser_ahead = λ w x y. stub-AheadFrom s 0 x;
  export_block_parser_ahead = λ w x y. stub-AheadFrom s 0 x;
  quote_block_parser_ahead = λ w x y. stub-AheadFrom s 0 x;
  src_block_parser_ahead = λ w x y. stub-AheadFrom s 0 x;
  verse_block_parser_ahead = λ w x y. stub-AheadFrom s 0 x;
  special_block_parser_ahead = λ w x y. stub-AheadFrom s 0 x;
  dynamic_block_parser_ahead = λ w x y. stub-AheadFrom s 0 x;
  latex_environment_parser_ahead = λ w x y. stub-AheadFrom s 0 x;
  table_row_parser_ahead = stub-Ahead s 0;
  table_parser_ahead = λ w x y. stub-AheadFrom s 1 x;
  comment_parser_ahead = λ w x y. stub-AheadFrom s 0 x;
  horizontal_rule_parser_ahead = λ w x y. stub-AheadFrom s 0 x;
  footnote_definition_parser_ahead = λ w x y. stub-AheadFrom s 0 x;
  fixed_width_parser_ahead = λ w x y. stub-AheadFrom s 0 x;
  keyword_parser_ahead = λ w x y. stub-AheadFrom s 0 x;
  babel_call_parser_ahead = λ w x y. stub-AheadFrom s 0 x;
  paragraph_parser_ahead = λ w x y. stub-AheadFrom s 0 x;
  section_parser_ahead = λ w. stub-Ahead s 2;
  drawer_parser_ahead = λ w x y. stub-AheadFrom s 0 x;
  planning_parser_ahead = λ w. stub-Ahead s 0;
  clock_line_parser_ahead = λ w. stub-Ahead s 0;
  diary_sexp_parser_ahead = λ w x y. stub-AheadFrom s 0 x;
  list_struct_keeps = λ w. record { unmoved = λ c. tt };
  parse_objects_keeps = λ w x y. record { unmoved = λ c. tt };
}

pub stubs-Kinds : Kinds stubs
stubs-Kinds = record {
  headline_parser_kind = stub-IsKind SyntaxT.headline;
  section_parser_kind = λ w. stub-IsKind SyntaxT.section;
  item_parser_kind = λ w x. stub-IsKind SyntaxT.item;
  table_row_parser_kind = stub-IsKind SyntaxT.table_row;
  node_property_parser_kind = λ w. stub-IsKind SyntaxT.node_property;
}
