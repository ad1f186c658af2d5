-- ===== src/Parser/Mode.antt =====
-- `ParseGranularity`, `ParserMode` and `Parser::next_mode`.
use org_rs.Prelude.{Bool, true, false, Option, none, some}
use org_rs.Data.Kind.{SyntaxT}

pub data ParseGranularity : Type 0 where
  headline greater_element element object : ParseGranularity

pub data ParserMode : Type 0 where
  first_section section planning item node_property table_row property_drawer : ParserMode

-- The flag is `is_parent`.
unfoldable pub next_mode : SyntaxT → Bool → Option ParserMode
next_mode SyntaxT.headline true = some section
next_mode SyntaxT.inline_task true = some planning
next_mode SyntaxT.plain_list true = some item
next_mode SyntaxT.property_drawer true = some node_property
next_mode SyntaxT.section true = some planning
next_mode SyntaxT.table true = some table_row
next_mode SyntaxT.item false = some item
next_mode SyntaxT.node_property false = some node_property
next_mode SyntaxT.planning false = some property_drawer
next_mode SyntaxT.table_row false = some table_row
next_mode _ _ = none
