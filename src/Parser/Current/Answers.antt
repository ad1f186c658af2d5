-- ===== src/Parser/Current/Answers.antt =====
-- `current_element` under the contract of the element parsers, from the choice by mode on (parser.rs).
use org_rs.Prelude.{ℕ, ◌≤◌, ◌<◌, ◌≡◌, refl, Option, arith, length}
use org_rs.Crates.Memchr.{Memchr}
use org_rs.Crates.Regex.{RegexEngine}
use org_rs.Cursor.Regexes.{next_headline}
use org_rs.Cursor.Runs.{Meets, Meets-bound}
use org_rs.Cursor.Runs.Saved.{on_headline-Same, next_headline-Keeps}
use org_rs.Cursor.State.{Cursor}
use org_rs.Data.Outline.{ListStruct}
use org_rs.Parser.Contract.{level, Answer, At, Ahead, Contract}
use org_rs.Parser.Branch.{or_else}
use org_rs.Parser.Current.{
  first_section_stage, section_stage, headline_stage, get_current_element, current_element,
}
use org_rs.Parser.Current.Within.{Aims-bind, Aims-if, Aims-mono}
use org_rs.Parser.Current.Stages.{planning_stage-Ahead}
use org_rs.Parser.Interface.{ElementParsers}
use org_rs.Parser.Mode.{
  ParseGranularity, ParserMode, first_section, section, planning, item, node_property, table_row,
  property_drawer,
}
use org_rs.Rust.Str.{Str}

module _ (mc : Memchr) (engine : RegexEngine) (ps : ElementParsers) (granularity : ParseGranularity)
    (s : Str) (contract : Contract s ps) (structure : Option ListStruct) (limit : ℕ)
    (within : limit ≤ length s) where
  first_section_stage-Ahead : Ahead s 2 (first_section_stage mc engine ps granularity limit)
  unfolding first_section_stage
  first_section_stage-Ahead p = record {
    runs = λ c i.
        Meets-bound (λ _ d. d.text ≡ s) (Answer s p 2) _
          (λ lim d text.
            (contract.section_parser_ahead (or_else lim limit) p).runs (record d { pos = c.pos })
              (text, i.1, i.2))
          (next_headline mc engine c) ((next_headline-Keeps mc engine s).runs c i.0);
  }

  section_stage-Ahead :
      (mode : ParserMode)
      → 1 ≤ level mode
      → Ahead s (level mode) (section_stage mc engine ps granularity mode structure limit)
  unfolding section_stage
  section_stage-Ahead section h = contract.section_parser_ahead limit
  section_stage-Ahead first_section h = first_section_stage-Ahead
  section_stage-Ahead planning h =
      planning_stage-Ahead mc engine ps granularity s contract structure limit within planning
  section_stage-Ahead property_drawer h =
      planning_stage-Ahead mc engine ps granularity s contract structure limit within
        property_drawer
  section_stage-Ahead item h = absurd (omega arith)
  section_stage-Ahead node_property h = absurd (omega arith)
  section_stage-Ahead table_row h = absurd (omega arith)

  headline_stage-Ahead :
      (mode : ParserMode)
      → 1 ≤ level mode
      → Ahead s (level mode) (headline_stage mc engine ps granularity mode structure limit)
  unfolding headline_stage
  headline_stage-Ahead mode h p =
      Aims-bind (At s p) s p (level mode) _ _ (on_headline-Same mc engine) (λ here.
        Aims-if (At s p) s p (level mode) here _ _
          (Aims-mono (At s p) s p 0 (level mode) _ (omega arith) (contract.headline_parser_ahead p))
          (section_stage-Ahead mode h p))

  get_current_element-Ahead :
      (mode : ParserMode)
      → Ahead s (level mode) (get_current_element mc engine ps granularity mode structure limit)
  unfolding get_current_element
  get_current_element-Ahead item = contract.item_parser_ahead structure _
  get_current_element-Ahead table_row = contract.table_row_parser_ahead
  get_current_element-Ahead node_property = contract.node_property_parser_ahead limit
  get_current_element-Ahead section = headline_stage-Ahead section (omega arith)
  get_current_element-Ahead first_section = headline_stage-Ahead first_section (omega arith)
  get_current_element-Ahead planning = headline_stage-Ahead planning (omega arith)
  get_current_element-Ahead property_drawer = headline_stage-Ahead property_drawer (omega arith)

  -- Under the contract of the element parsers over the text `s`, and with a limit inside it,
  -- `current_element` in any mode, from any position before the end of `s`, ends: it panics, or
  -- returns a node that begins at the cursor and ends behind it and inside the text, and the cursor is
  -- where it was. The contents of that node lie in the text and begin behind the cursor, or at the
  -- cursor in a mode of a lower level.
  pub current_element-Answer :
      (mode : ParserMode) (c : Cursor)
      → c.text ≡ s
      → c.pos < length s
      → Meets
          (λ a d. Answer s c.pos (level mode) a d × (d.pos ≡ c.pos))
          (current_element mc engine ps granularity limit mode structure c)
  unfolding current_element
  current_element-Answer mode c text left =
      Meets-bound (Answer s c.pos (level mode)) _ _ (λ a d h. (h, refl))
        (get_current_element mc engine ps granularity mode structure limit c)
        ((get_current_element-Ahead mode c.pos).runs c (text, refl, left))
