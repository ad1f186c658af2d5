-- ===== src/Parser/Current/Ladder.antt =====
-- The stages of `current_element`, by what the element parsers ensure of their nodes (parser.rs).
use org_rs.Prelude.{ℕ, ◌≡◌, refl, Option, arith}
use org_rs.Affiliated.Output.{AffiliatedData}
use org_rs.Crates.Memchr.{Memchr}
use org_rs.Crates.Regex.{Regex, RegexEngine, Match}
use org_rs.Cursor.State.{Cursor, M, pure, bound, set, ◌>>◌}
use org_rs.Data.Outline.{ListStruct}
use org_rs.Data.Syntax.{SyntaxNode}
use org_rs.Parser.Branch.{
  try, after_hashtag, plain_list, without_hashtag, hashtag_or_other, with_affiliated,
}
use org_rs.Parser.Current.{
  affiliated_stage, inlinetask_stage, line_stage, drawer_stage, planning_stage, first_section_stage,
  section_stage, headline_stage, get_current_element, current_element,
}
use org_rs.Cursor.Runs.Returns.{Ensures, Ensures-bind, Ensures-if, Ensures-option, Ensures-panic}
use org_rs.Parser.Current.Ensures.{AllEnsure}
use org_rs.Cursor.Regexes.{looking_at, on_headline}
use org_rs.Parser.Expressions.{regex_starts_with_hashtag}
use org_rs.Parser.Interface.{ElementParsers}
use org_rs.Parser.Mode.{
  ParseGranularity, ParserMode, first_section, section, item, node_property, table_row,
}
use org_rs.Rust.Outcome.{Outcome, ok, panic, stuck}

restored :
    (saved : ℕ) (c' : Cursor) (a : SyntaxNode) (r : Outcome (SyntaxNode × Cursor))
    → bound r (λ elem. set saved >> pure elem) ≡ ok (a, c')
    → c'.pos ≡ saved
restored saved c' a (ok (elem, c)) e = grind arith
restored saved c' a (panic x) e = cc
restored saved c' a stuck e = cc

ruleset ladder = (Ensures-bind, Ensures-if, Ensures-option, Ensures-panic)

module _ (P : SyntaxNode → Type 0) (mc : Memchr) (engine : RegexEngine) (ps : ElementParsers)
    (granularity : ParseGranularity) (all : AllEnsure P ps) where
  try-Ensures :
      (re : Regex) (parser later : M SyntaxNode)
      → Ensures P parser
      → Ensures P later
      → Ensures P (try mc engine ps granularity re parser later)
  unfolding try
  try-Ensures re parser later hp hl = search ladder

  plain_list-Ensures :
      (structure : Option ListStruct) (limit start : ℕ) (aff : Option AffiliatedData)
      → Ensures P (plain_list mc engine ps granularity structure limit start aff)
  unfolding plain_list
  plain_list-Ensures structure limit start aff = search (ladder, all.plain_list_parser_ensures)

  without_hashtag-Ensures :
      (structure : Option ListStruct) (limit start : ℕ) (aff : Option AffiliatedData)
      → Ensures P (without_hashtag mc engine ps granularity structure limit start aff)
  unfolding without_hashtag
  without_hashtag-Ensures structure limit start aff =
      try-Ensures _ _ _ (all.footnote_definition_parser_ensures limit start aff) (
        try-Ensures _ _ _ (all.horizontal_rule_parser_ensures limit start aff) (
          try-Ensures _ _ _ (all.diary_sexp_parser_ensures limit start aff) (
            try-Ensures _ _ _ (all.table_parser_ensures limit start aff) (
              try-Ensures _ _ _ (plain_list-Ensures structure limit start aff)
                (all.paragraph_parser_ensures limit start aff)))))

  after_hashtag-Ensures :
      (m : Match) (limit start : ℕ) (aff : Option AffiliatedData)
      → Ensures P (after_hashtag mc engine ps granularity m limit start aff)
  unfolding after_hashtag
  after_hashtag-Ensures m limit start aff = record { returns = λ c c' a e. cc }

  hashtag_or_other-Ensures :
      (structure : Option ListStruct) (limit start : ℕ) (aff : Option AffiliatedData)
      → Ensures P (hashtag_or_other mc engine ps granularity structure limit start aff)
  unfolding hashtag_or_other
  hashtag_or_other-Ensures structure limit start aff =
      Ensures-bind P (looking_at mc engine regex_starts_with_hashtag) _ (λ found.
        Ensures-option P found _ _ (without_hashtag-Ensures structure limit start aff)
          (λ m. after_hashtag-Ensures m limit start aff))

  with_affiliated-Ensures :
      (structure : Option ListStruct) (limit start : ℕ) (aff : Option AffiliatedData)
      → Ensures P (with_affiliated mc engine ps granularity structure limit start aff)
  unfolding with_affiliated
  with_affiliated-Ensures structure limit start aff =
      try-Ensures _ _ _ (all.latex_environment_parser_ensures limit start aff) (
        try-Ensures _ _ _ (all.drawer_parser_ensures limit start aff) (
          try-Ensures _ _ _ (all.fixed_width_parser_ensures limit start aff)
            (hashtag_or_other-Ensures structure limit start aff)))

  affiliated_stage-Ensures :
      (structure : Option ListStruct) (limit : ℕ)
      → Ensures P (affiliated_stage mc engine ps granularity structure limit)
  unfolding affiliated_stage
  affiliated_stage-Ensures structure limit =
      search (ladder, with_affiliated-Ensures, all.keyword_parser_ensures)

  inlinetask_stage-Ensures :
      (structure : Option ListStruct) (limit : ℕ)
      → Ensures P (inlinetask_stage mc engine ps granularity structure limit)
  unfolding inlinetask_stage
  inlinetask_stage-Ensures structure limit =
      search (ladder, affiliated_stage-Ensures, all.inlinetask_parser_ensures)

  line_stage-Ensures :
      (structure : Option ListStruct) (limit : ℕ)
      → Ensures P (line_stage mc engine ps granularity structure limit)
  unfolding line_stage
  line_stage-Ensures structure limit = search (
    ladder, try-Ensures, inlinetask_stage-Ensures, all.paragraph_parser_ensures,
    all.clock_line_parser_ensures,
  )

  drawer_stage-Ensures :
      (mode : ParserMode) (structure : Option ListStruct) (limit : ℕ)
      → Ensures P (drawer_stage mc engine ps granularity mode structure limit)
  unfolding drawer_stage
  drawer_stage-Ensures mode structure limit =
      search (ladder, line_stage-Ensures, all.property_drawer_parser_ensures)

  planning_stage-Ensures :
      (mode : ParserMode) (structure : Option ListStruct) (limit : ℕ)
      → Ensures P (planning_stage mc engine ps granularity mode structure limit)
  unfolding planning_stage
  planning_stage-Ensures mode structure limit =
      search (ladder, drawer_stage-Ensures, all.planning_parser_ensures)

  first_section_stage-Ensures :
      (limit : ℕ) → Ensures P (first_section_stage mc engine ps granularity limit)
  unfolding first_section_stage
  first_section_stage-Ensures limit = search (ladder, all.section_parser_ensures)

  section_stage-Ensures :
      (mode : ParserMode) (structure : Option ListStruct) (limit : ℕ)
      → Ensures P (section_stage mc engine ps granularity mode structure limit)
  unfolding section_stage
  section_stage-Ensures section structure limit = all.section_parser_ensures limit
  section_stage-Ensures first_section structure limit = first_section_stage-Ensures limit
  section_stage-Ensures mode structure limit = planning_stage-Ensures mode structure limit

  headline_stage-Ensures :
      (mode : ParserMode) (structure : Option ListStruct) (limit : ℕ)
      → Ensures P (headline_stage mc engine ps granularity mode structure limit)
  unfolding headline_stage
  headline_stage-Ensures mode structure limit = Ensures-bind P (on_headline mc engine) _ (λ here.
      Ensures-if P here _ _ all.headline_parser_ensures
        (section_stage-Ensures mode structure limit))

  get_current_element-Ensures :
      (mode : ParserMode) (structure : Option ListStruct) (limit : ℕ)
      → Ensures P (get_current_element mc engine ps granularity mode structure limit)
  unfolding get_current_element
  get_current_element-Ensures item structure limit = all.item_parser_ensures structure _
  get_current_element-Ensures table_row structure limit = all.table_row_parser_ensures
  get_current_element-Ensures node_property structure limit = all.node_property_parser_ensures limit
  get_current_element-Ensures mode structure limit = headline_stage-Ensures mode structure limit

  keep-Ensures :
      (saved : ℕ) (c' : Cursor) (a : SyntaxNode) (r : Outcome (SyntaxNode × Cursor))
      → ((elem : SyntaxNode) (c : Cursor) → r ≡ ok (elem, c) → P elem)
      → bound r (λ elem. set saved >> pure elem) ≡ ok (a, c')
      → P a
  keep-Ensures saved c' a (ok (elem, c)) h e = grind (arith, h elem c refl)
  keep-Ensures saved c' a (panic x) h e = cc
  keep-Ensures saved c' a stuck h e = cc

  -- What every element parser ensures of the elem that it returns, `current_element` ensures of
  -- the elem that it returns.
  pub current_element-Ensures :
      (mode : ParserMode) (structure : Option ListStruct) (limit : ℕ)
      → Ensures P (current_element mc engine ps granularity limit mode structure)
  unfolding current_element
  current_element-Ensures mode structure limit = record {
    returns = λ c c' a e.
        keep-Ensures c.pos c' a
          (get_current_element mc engine ps granularity mode structure limit c)
          (λ elem d. (get_current_element-Ensures mode structure limit).returns c d elem) e;
  }

  -- If `current_element` returns a node, every property that all the element parsers ensure of
  -- their nodes holds of it, and the cursor stands where it stood.
  pub current_element-Returned :
      (mode : ParserMode) (structure : Option ListStruct) (limit : ℕ) (c c' : Cursor)
      (a : SyntaxNode)
      → current_element mc engine ps granularity limit mode structure c ≡ ok (a, c')
      → P a × (c'.pos ≡ c.pos)
  unfolding current_element
  current_element-Returned mode structure limit c c' a e = (
    (current_element-Ensures mode structure limit).returns c c' a e,
    restored c.pos c' a (get_current_element mc engine ps granularity mode structure limit c) e,
  )
