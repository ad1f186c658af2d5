-- ===== src/Tests/Paragraphs.antt =====
-- Element parsers that return a paragraph or a section from the cursor to the end, for the text "ab".
use mathlib.Core.Path.{subst}
use org_rs.Prelude.{◌<◌, sym, ◌≡◌, ◌⊎◌, inl, refl, none, some, [], ◌∷◌, arith, length, inr, ℕ, ap}
use org_rs.Cursor.Moves.Whitespace.{left}
use org_rs.Cursor.State.{Cursor, M, pure}
use org_rs.Data.Kind.{SyntaxT}
use org_rs.Data.Syntax.{data_of, kind_of, Syntax, SyntaxNode, Interval, node, nil}
use org_rs.Parser.Contract.{Ahead, AheadFrom, Answer, Contract, IsAhead, Lowers}
use org_rs.Cursor.Runs.Returns.{Ensures, pure_value}
use org_rs.Parser.Current.Ensures.{AllEnsure}
use org_rs.Parser.Elements.Kinds.{Kinds, IsKind}
use org_rs.Parser.Elements.Spec.{Leaf}
use org_rs.Parser.Interface.{ElementParsers, stub}
use org_rs.Parser.Mode.{next_mode}
use org_rs.Rust.Str.{Str}

-- An element from a position to the end, and one from the cursor whose contents are that too.
abbrev pub to_end : Syntax → ℕ → Cursor → SyntaxNode
to_end d p c = node nil d (record { start = p; end = length c.text }) none 0 none

abbrev pub around : Syntax → Cursor → SyntaxNode
around d c =
    let all : Interval = record { start = c.pos; end = length c.text } in
    node nil d all (some all) 0 none

abbrev para : M SyntaxNode
para c = pure (to_end Syntax.paragraph c.pos c) c

abbrev para_from : ℕ → M SyntaxNode
para_from p c = pure (to_end Syntax.paragraph p c) c

abbrev whole_section : M SyntaxNode
whole_section c = pure (around Syntax.section c) c

abbrev pub paragraphs : ElementParsers
paragraphs = record {
  headline_parser = stub;
  inlinetask_parser = λ _ _. para;
  property_drawer_parser = λ _. para;
  node_property_parser = λ _. stub;
  item_parser = λ _ _. stub;
  plain_list_parser = λ _ start _ _. para_from start;
  list_struct = λ _. stub;
  center_block_parser = λ _ start _. para_from start;
  comment_block_parser = λ _ start _. para_from start;
  example_block_parser = λ _ start _. para_from start;
  export_block_parser = λ _ start _. para_from start;
  quote_block_parser = λ _ start _. para_from start;
  src_block_parser = λ _ start _. para_from start;
  verse_block_parser = λ _ start _. para_from start;
  special_block_parser = λ _ start _. para_from start;
  dynamic_block_parser = λ _ start _. para_from start;
  latex_environment_parser = λ _ start _. para_from start;
  table_row_parser = stub;
  table_parser = λ _ start _. para_from start;
  comment_parser = λ _ start _. para_from start;
  horizontal_rule_parser = λ _ start _. para_from start;
  footnote_definition_parser = λ _ start _. para_from start;
  fixed_width_parser = λ _ start _. para_from start;
  keyword_parser = λ _ start _. para_from start;
  babel_call_parser = λ _ start _. para_from start;
  paragraph_parser = λ _ start _. para_from start;
  section_parser = λ _. whole_section;
  drawer_parser = λ _ start _. para_from start;
  planning_parser = λ _. para;
  clock_line_parser = λ _. para;
  diary_sexp_parser = λ _ start _. para_from start;
  parse_objects = λ _ _ _. pure nil;
}

abbrev pub ab : Str
ab = 97 ∷ 98 ∷ []

to_end-IsAhead :
    (p n : ℕ) (c : Cursor)
    → c.text ≡ ab
    → p < length ab
    → IsAhead ab p n (to_end Syntax.paragraph p c)
to_end-IsAhead p n c text left = record {
  begins = refl;
  ends_behind = omega (arith, ap (λ (t : Str). length t) text);
  ends_inside = omega (arith, ap (λ (t : Str). length t) text);
  childless = refl;
  contents = tt;
}

para-AheadFrom : (n start : ℕ) → AheadFrom ab n start (para_from start)
para-AheadFrom n start = record {
  runs = λ c i. (to_end-IsAhead start n c i.0 (omega (arith, i.1, i.2)), i.0);
}

para-Ahead : (n : ℕ) → Ahead ab n para
para-Ahead n p = record {
  runs = λ c i.
      subst (λ x. Answer ab p n (to_end Syntax.paragraph x c) c) (sym i.1)
        (to_end-IsAhead p n c i.0 i.2, i.0);
}

stub-AheadFrom : (n start : ℕ) → AheadFrom ab n start stub
stub-AheadFrom n start = record { runs = λ c i. tt }

stub-Ahead : (n : ℕ) → Ahead ab n stub
stub-Ahead n p = record { runs = λ c i. tt }

planning_below : Lowers 2 SyntaxT.section
unfolding next_mode
planning_below = omega arith

section-Ahead : Ahead ab 2 whole_section
unfolding kind_of
section-Ahead p = record {
  runs = λ c i.
      let same = ap (λ (t : Str). length t) i.0 in
      (
        record {
          begins = i.1;
          ends_behind = omega (arith, i.2, i.1);
          ends_inside = omega arith;
          childless = refl;
          contents = (omega (arith, i.2), omega arith, inr (omega (arith, i.1), planning_below));
        },
        i.0,
      );
}

pub paragraphs-Contract : Contract ab paragraphs
paragraphs-Contract = record {
  headline_parser_ahead = stub-Ahead 0;
  inlinetask_parser_ahead = λ w x. para-Ahead 0;
  property_drawer_parser_ahead = λ w. para-Ahead 0;
  node_property_parser_ahead = λ w. stub-Ahead 0;
  item_parser_ahead = λ w x. stub-Ahead 0;
  plain_list_parser_ahead = λ w x y z. para-AheadFrom 1 x;
  center_block_parser_ahead = λ w x y. para-AheadFrom 0 x;
  comment_block_parser_ahead = λ w x y. para-AheadFrom 0 x;
  example_block_parser_ahead = λ w x y. para-AheadFrom 0 x;
  export_block_parser_ahead = λ w x y. para-AheadFrom 0 x;
  quote_block_parser_ahead = λ w x y. para-AheadFrom 0 x;
  src_block_parser_ahead = λ w x y. para-AheadFrom 0 x;
  verse_block_parser_ahead = λ w x y. para-AheadFrom 0 x;
  special_block_parser_ahead = λ w x y. para-AheadFrom 0 x;
  dynamic_block_parser_ahead = λ w x y. para-AheadFrom 0 x;
  latex_environment_parser_ahead = λ w x y. para-AheadFrom 0 x;
  table_row_parser_ahead = stub-Ahead 0;
  table_parser_ahead = λ w x y. para-AheadFrom 1 x;
  comment_parser_ahead = λ w x y. para-AheadFrom 0 x;
  horizontal_rule_parser_ahead = λ w x y. para-AheadFrom 0 x;
  footnote_definition_parser_ahead = λ w x y. para-AheadFrom 0 x;
  fixed_width_parser_ahead = λ w x y. para-AheadFrom 0 x;
  keyword_parser_ahead = λ w x y. para-AheadFrom 0 x;
  babel_call_parser_ahead = λ w x y. para-AheadFrom 0 x;
  paragraph_parser_ahead = λ w x y. para-AheadFrom 0 x;
  section_parser_ahead = λ w. section-Ahead;
  drawer_parser_ahead = λ w x y. para-AheadFrom 0 x;
  planning_parser_ahead = λ w. para-Ahead 0;
  clock_line_parser_ahead = λ w. para-Ahead 0;
  diary_sexp_parser_ahead = λ w x y. para-AheadFrom 0 x;
  list_struct_keeps = λ w. record { unmoved = λ c. tt };
  parse_objects_keeps = λ w x y. record { unmoved = λ c. refl };
}

-- Each is a paragraph or a section.
abbrev pub PlainKind : SyntaxNode → Type 0
PlainKind a = (data_of a ≡ Syntax.paragraph) ⊎ (data_of a ≡ Syntax.section)

gives :
    (P : SyntaxNode → Type 0) (f : Cursor → SyntaxNode)
    → ((c : Cursor) → P (f c))
    → Ensures P (λ c. pure (f c) c)
gives P f h = record { returns = λ c c' a e. subst P (pure_value (f c) a c c' e) (h c) }

para-Ensures : Ensures (Leaf PlainKind) para
para-Ensures = gives _ (λ c. to_end Syntax.paragraph c.pos c) (λ c. (refl, inl refl))

para_from-Ensures : (start : ℕ) → Ensures (Leaf PlainKind) (para_from start)
para_from-Ensures start = gives _ (to_end Syntax.paragraph start) (λ c. (refl, inl refl))

stub-Ensures : (P : SyntaxNode → Type 0) → Ensures P stub
stub-Ensures P = record { returns = λ c c' a e. cc }

section-Ensures : Ensures (Leaf PlainKind) whole_section
section-Ensures = gives _ (around Syntax.section) (λ c. (refl, inr refl))

pub paragraphs-AllEnsure : AllEnsure (Leaf PlainKind) paragraphs
paragraphs-AllEnsure = record {
  headline_parser_ensures = stub-Ensures (Leaf PlainKind);
  inlinetask_parser_ensures = λ w x. para-Ensures;
  property_drawer_parser_ensures = λ w. para-Ensures;
  node_property_parser_ensures = λ w. stub-Ensures (Leaf PlainKind);
  item_parser_ensures = λ w x. stub-Ensures (Leaf PlainKind);
  plain_list_parser_ensures = λ w x y z. para_from-Ensures x;
  center_block_parser_ensures = λ w x y. para_from-Ensures x;
  comment_block_parser_ensures = λ w x y. para_from-Ensures x;
  example_block_parser_ensures = λ w x y. para_from-Ensures x;
  export_block_parser_ensures = λ w x y. para_from-Ensures x;
  quote_block_parser_ensures = λ w x y. para_from-Ensures x;
  src_block_parser_ensures = λ w x y. para_from-Ensures x;
  verse_block_parser_ensures = λ w x y. para_from-Ensures x;
  special_block_parser_ensures = λ w x y. para_from-Ensures x;
  dynamic_block_parser_ensures = λ w x y. para_from-Ensures x;
  latex_environment_parser_ensures = λ w x y. para_from-Ensures x;
  table_row_parser_ensures = stub-Ensures (Leaf PlainKind);
  table_parser_ensures = λ w x y. para_from-Ensures x;
  comment_parser_ensures = λ w x y. para_from-Ensures x;
  horizontal_rule_parser_ensures = λ w x y. para_from-Ensures x;
  footnote_definition_parser_ensures = λ w x y. para_from-Ensures x;
  fixed_width_parser_ensures = λ w x y. para_from-Ensures x;
  keyword_parser_ensures = λ w x y. para_from-Ensures x;
  babel_call_parser_ensures = λ w x y. para_from-Ensures x;
  paragraph_parser_ensures = λ w x y. para_from-Ensures x;
  section_parser_ensures = λ w. section-Ensures;
  drawer_parser_ensures = λ w x y. para_from-Ensures x;
  planning_parser_ensures = λ w. para-Ensures;
  clock_line_parser_ensures = λ w. para-Ensures;
  diary_sexp_parser_ensures = λ w x y. para_from-Ensures x;
}

section-Kind : Ensures (IsKind SyntaxT.section) whole_section
unfolding kind_of
section-Kind = gives _ (around Syntax.section) (λ c. refl)

pub paragraphs-Kinds : Kinds paragraphs
paragraphs-Kinds = record {
  headline_parser_kind = stub-Ensures (IsKind SyntaxT.headline);
  section_parser_kind = λ w. section-Kind;
  item_parser_kind = λ w x. stub-Ensures (IsKind SyntaxT.item);
  table_row_parser_kind = stub-Ensures (IsKind SyntaxT.table_row);
  node_property_parser_kind = λ w. stub-Ensures (IsKind SyntaxT.node_property);
}
