-- ===== src/Parser/Current/Inlinetask.antt =====
-- The test for an inline task in `current_element`, which repeats the test for a headline (parser.rs).
use mathlib.Core.Path.{subst}
use org_rs.Prelude.{
  ℕ, ◌≡◌, refl, sym, ap, Bool, ◌&&◌, true, false, not, Option, none, if◌then◌else◌,
}
use org_rs.Crates.Memchr.{Memchr}
use org_rs.Crates.Regex.{RegexEngine}
use org_rs.Cursor.Lines.{is_bol}
use org_rs.Cursor.Regexes.{looking_at, on_headline, is_some}
use org_rs.Cursor.Runs.{Meets, Same}
use org_rs.Cursor.Runs.Saved.{is_bol-Same, looking_at-Same, on_headline-Same}
use org_rs.Cursor.State.{Cursor, M, bound, set, pure, ◌>>=◌, ◌>>◌}
use org_rs.Data.Outline.{ListStruct}
use org_rs.Data.Syntax.{SyntaxNode}
use org_rs.Parser.Branch.{
  try, block_parser, block_or, after_hashtag, plain_list, without_hashtag, hashtag_or_other,
  with_affiliated,
}
use org_rs.Parser.Current.{
  affiliated_stage, inlinetask_stage, line_stage, after_headline, drawer_stage, planning_stage,
  first_section_stage, section_stage, headline_stage, get_current_element, current_element,
  is_planning, wants_drawer,
}
use org_rs.Parser.Current.Stages.{after_headline-Same}
use org_rs.Parser.Expressions.{regex_clock_line}
use org_rs.Parser.Interface.{ElementParsers}
use org_rs.Parser.Mode.{
  ParseGranularity, ParserMode, first_section, section, planning, item, node_property, table_row,
  property_drawer,
}
use org_rs.Rust.Outcome.{Outcome, ok, panic, stuck}

bound_agree :
    {A : Type 0} (f g : A → M SyntaxNode) (c : Cursor) (r : Outcome (A × Cursor))
    → Meets (λ _ d. d ≡ c) r
    → ((a : A) → r ≡ ok (a, c) → f a c ≡ g a c)
    → bound r f ≡ bound r g
bound_agree f g c (ok (a, d)) e h = subst (λ x. f a x ≡ g a x) (sym e) (h a (λ i. ok (a, e i)))
bound_agree f g c (panic x) e h = refl
bound_agree f g c stuck e h = refl

-- Two continuations that agree at the cursor, behind a method that leaves it alone.
Same-agree :
    {A : Type 0} (m : M A) (f g : A → M SyntaxNode) (c : Cursor)
    → Same m
    → ((a : A) → m c ≡ ok (a, c) → f a c ≡ g a c)
    → (m >>= f) c ≡ (m >>= g) c
Same-agree m f g c same h = bound_agree f g c (m c) (same.unmoved c) h

if-agree :
    (t : Bool) (m n n' : M SyntaxNode) (c : Cursor)
    → n c ≡ n' c
    → (if t then m else n) c ≡ (if t then m else n') c
if-agree true m n n' c e = refl
if-agree false m n n' c e = e

module _ (mc : Memchr) (engine : RegexEngine) (ps : ElementParsers) (granularity : ParseGranularity)
    (other : ℕ → Bool → M SyntaxNode) (structure : Option ListStruct) (limit : ℕ) (c : Cursor) where
  abbrev replaced : ElementParsers
  replaced = record ps { inlinetask_parser = other }

  affiliated_stage-agree :
      affiliated_stage mc engine ps granularity structure limit c
      ≡ affiliated_stage mc engine replaced granularity structure limit c
  unfolding affiliated_stage with_affiliated hashtag_or_other after_hashtag without_hashtag
      plain_list block_or block_parser try
  affiliated_stage-agree = refl

  module _ (off : on_headline mc engine c ≡ ok (false, c)) where
    inlinetask_stage-agree :
        inlinetask_stage mc engine ps granularity structure limit c
        ≡ inlinetask_stage mc engine replaced granularity structure limit c
    unfolding inlinetask_stage
    inlinetask_stage-agree = rw off affiliated_stage-agree

    line_stage-agree :
        line_stage mc engine ps granularity structure limit c
        ≡ line_stage mc engine replaced granularity structure limit c
    unfolding line_stage try
    line_stage-agree = Same-agree (is_bol mc) _ _ c (is_bol-Same mc) (λ bol _.
        if-agree (not bol) (ps.paragraph_parser limit c.pos none) _ _ c (
          Same-agree (looking_at mc engine regex_clock_line) _ _ c
            (looking_at-Same mc engine regex_clock_line)
            (λ found _.
              if-agree (is_some found) (ps.clock_line_parser limit)
                (inlinetask_stage mc engine ps granularity structure limit)
                (inlinetask_stage mc engine replaced granularity structure limit) c
                inlinetask_stage-agree)))

    drawer_stage-agree :
        (mode : ParserMode)
        → drawer_stage mc engine ps granularity mode structure limit c
          ≡ drawer_stage mc engine replaced granularity mode structure limit c
    unfolding drawer_stage after_headline
    drawer_stage-agree mode =
        Same-agree (after_headline mc engine ps granularity _) _ _ c
          (after_headline-Same mc engine ps granularity _)
          (λ star_before _.
            Same-agree (looking_at mc engine _) _ _ c (looking_at-Same mc engine _) (λ found _.
              if-agree (wants_drawer mode && (star_before && is_some found))
                (ps.property_drawer_parser limit)
                (line_stage mc engine ps granularity structure limit)
                (line_stage mc engine replaced granularity structure limit) c line_stage-agree))

    planning_stage-agree :
        (mode : ParserMode)
        → planning_stage mc engine ps granularity mode structure limit c
          ≡ planning_stage mc engine replaced granularity mode structure limit c
    unfolding planning_stage after_headline
    planning_stage-agree mode =
        Same-agree (after_headline mc engine ps granularity _) _ _ c
          (after_headline-Same mc engine ps granularity _)
          (λ star_before _.
            Same-agree (looking_at mc engine _) _ _ c (looking_at-Same mc engine _) (λ found _.
              if-agree (is_planning mode && (star_before && is_some found))
                (ps.planning_parser limit)
                (drawer_stage mc engine ps granularity mode structure limit)
                (drawer_stage mc engine replaced granularity mode structure limit) c
                (drawer_stage-agree mode)))

    section_stage-agree :
        (mode : ParserMode)
        → section_stage mc engine ps granularity mode structure limit c
          ≡ section_stage mc engine replaced granularity mode structure limit c
    unfolding section_stage first_section_stage
    section_stage-agree section = refl
    section_stage-agree first_section = refl
    section_stage-agree planning = planning_stage-agree planning
    section_stage-agree item = planning_stage-agree item
    section_stage-agree node_property = planning_stage-agree node_property
    section_stage-agree table_row = planning_stage-agree table_row
    section_stage-agree property_drawer = planning_stage-agree property_drawer

  headline_or_section :
      (mode : ParserMode) (here : Bool)
      → on_headline mc engine c ≡ ok (here, c)
      → (if here
            then ps.headline_parser
            else section_stage mc engine ps granularity mode structure limit)
          c
        ≡ (if here
              then ps.headline_parser
              else section_stage mc engine replaced granularity mode structure limit)
            c
  headline_or_section mode true e = refl
  headline_or_section mode false e = section_stage-agree e mode

  headline_stage-agree :
      (mode : ParserMode)
      → headline_stage mc engine ps granularity mode structure limit c
        ≡ headline_stage mc engine replaced granularity mode structure limit c
  unfolding headline_stage
  headline_stage-agree mode =
      Same-agree (on_headline mc engine) _ _ c (on_headline-Same mc engine)
        (headline_or_section mode)

  get_current_element-agree :
      (mode : ParserMode)
      → get_current_element mc engine ps granularity mode structure limit c
        ≡ get_current_element mc engine replaced granularity mode structure limit c
  unfolding get_current_element
  get_current_element-agree item = refl
  get_current_element-agree table_row = refl
  get_current_element-agree node_property = refl
  get_current_element-agree section = headline_stage-agree section
  get_current_element-agree first_section = headline_stage-agree first_section
  get_current_element-agree planning = headline_stage-agree planning
  get_current_element-agree property_drawer = headline_stage-agree property_drawer

  -- `current_element` never runs the parser of inline tasks: with any other parser in its place it does
  -- the same, from every cursor, in every mode and with every structure and limit.
  pub inlinetask_parser_unused :
      (mode : ParserMode)
      → current_element mc engine ps granularity limit mode structure c
        ≡ current_element mc engine
            (record ps { inlinetask_parser = other })
            granularity
            limit
            mode
            structure
            c
  unfolding current_element
  inlinetask_parser_unused mode =
      ap (λ (r : Outcome (SyntaxNode × Cursor)). bound r (λ current. set c.pos >> pure current))
        (get_current_element-agree mode)
