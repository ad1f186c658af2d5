-- ===== src/Parser/Elements/Spec.antt =====
-- What a tree of elements looks like, independently of the loop that makes it.
use org_rs.Prelude.{ℕ, ◌≤◌, ◌<◌, length, ◌≡◌, refl, ◌⊎◌, Bool, true, false, Option, some}
use org_rs.Cursor.Regexes.{is_some}
use org_rs.Crates.Regex.{RegexEngine}
use org_rs.Cursor.Regexes.Headlines.{OnHeadline, NextHeadline}
use org_rs.Data.Kind.{SyntaxT, is_greater_element}
use org_rs.Rust.Str.{Str}
use org_rs.Data.Syntax.{
  location_of, children_of, SyntaxNode, Children, Interval, node, nil, cons, kind_of, data_of,
}
use org_rs.Parser.Branch.{or_else}
use org_rs.Parser.Current.{is_object_granularity}
use org_rs.Parser.Elements.{goes_inside, is_headline}
use org_rs.Parser.Mode.{
  ParseGranularity, headline, greater_element, element, object, ParserMode, first_section, section,
  item, node_property, table_row, next_mode,
}

-- The kinds that an element may have in a mode.
abbrev pub Allowed : ParserMode → SyntaxT → Type 0
Allowed item kind = kind ≡ SyntaxT.item
Allowed table_row kind = kind ≡ SyntaxT.table_row
Allowed node_property kind = kind ≡ SyntaxT.node_property
Allowed section kind = (kind ≡ SyntaxT.headline) ⊎ (kind ≡ SyntaxT.section)
Allowed first_section kind = (kind ≡ SyntaxT.headline) ⊎ (kind ≡ SyntaxT.section)
Allowed _ kind = Unit

-- Which elements have children with a granularity: headlines alone; headlines and sections; all
-- greater elements; everything.
abbrev pub opens : ParseGranularity → SyntaxT → Bool
opens headline SyntaxT.headline = true
opens headline kind = false
opens greater_element SyntaxT.headline = true
opens greater_element SyntaxT.section = true
opens greater_element kind = false
opens element kind = is_greater_element kind
opens object kind = true

pub goes_inside-opens :
    (granularity : ParseGranularity) (kind : SyntaxT)
    → is_greater_element kind ≡ true
    → goes_inside granularity kind ≡ true
    → opens granularity kind ≡ true
unfolding goes_inside
goes_inside-opens headline SyntaxT.headline greater inside = refl
goes_inside-opens headline kind greater inside = cc
goes_inside-opens greater_element SyntaxT.headline greater inside = refl
goes_inside-opens greater_element SyntaxT.section greater inside = refl
goes_inside-opens greater_element kind greater inside = cc
goes_inside-opens element kind greater inside = greater
goes_inside-opens object kind greater inside = refl

pub is_object_granularity-opens :
    (granularity : ParseGranularity) (kind : SyntaxT)
    → is_object_granularity granularity ≡ true
    → opens granularity kind ≡ true
is_object_granularity-opens headline kind whole = cc
is_object_granularity-opens greater_element kind whole = cc
is_object_granularity-opens element kind whole = cc
is_object_granularity-opens object kind whole = refl

-- An element with children has contents, and the granularity lets the parser go into them.
abbrev pub Opened : ParseGranularity → SyntaxT → Option Interval → Children → Type 0
Opened granularity kind content kids =
    (kids ≡ nil) ⊎ ((is_some content ≡ true) × (opens granularity kind ≡ true))

-- What the element parsers return: an element without children, of which `P` holds.
abbrev pub Leaf : (SyntaxNode → Type 0) → SyntaxNode → Type 0
Leaf P a = (children_of a ≡ nil) × P a

-- `P` holds of each element less its children. The elements of a list stand in the mode of the list
-- and those that follow from it; in a greater element a list in the mode of its contents.
unfoldable mutual
  pub Grown : (SyntaxNode → Type 0) → ParseGranularity → ParserMode → SyntaxNode → Type 0
  Grown P granularity mode (node kids d location content post_blank affiliated) =
      Allowed mode (kind_of d)
      × P (node nil d location content post_blank affiliated)
      × Opened granularity (kind_of d) content kids
      × (is_greater_element (kind_of d) ≡ true
          → AllGrown P granularity (or_else (next_mode (kind_of d) true) mode) kids)

  pub AllGrown : (SyntaxNode → Type 0) → ParseGranularity → ParserMode → Children → Type 0
  AllGrown P granularity mode nil = Unit
  AllGrown P granularity mode (cons a rest) =
      Grown P granularity mode a
      × AllGrown P granularity (or_else (next_mode (kind_of (data_of a)) false) mode) rest

-- Where the elements begin with granularity `Headline`: at `p`, if its line is a headline; else at the
-- first headline behind that line, or where none follows, at the next line, or on the last line at `p`.
abbrev pub FromHeadline : RegexEngine → Str → ℕ → ℕ → Type 0
FromHeadline engine s p q =
    (OnHeadline engine s p true × (q ≡ p))
    ⊎ (OnHeadline engine s p false × NextHeadline engine s p q)

-- The elements of a list lie one behind the other without a gap: the first begins at `p`, each next
-- one where the one before it ends, each before `end`, and the last ends at `end` or behind it. The
-- children of a greater element lie like that in its contents. Only with granularity `Headline`, which
-- passes over the text before the first headline, the first begins where `FromHeadline` says.
abbrev pub Begins : RegexEngine → ParseGranularity → Str → ℕ → ℕ → Type 0
Begins engine g s p q =
    (is_headline g ≡ false → q ≡ p) × (is_headline g ≡ true → FromHeadline engine s p q)

unfoldable mutual
  pub Placed : RegexEngine → ParseGranularity → Str → SyntaxNode → Type 0
  Placed engine g s (node kids d location content post_blank affiliated) =
      (location.start < location.end)
      × (location.end ≤ length s)
      × (is_greater_element (kind_of d) ≡ true
          → (kids ≡ nil)
            ⊎ ((i : Interval) × (content ≡ some i)
                × (location.start ≤ i.start)
                × ((q : ℕ) × (i.start ≤ q)
                    × Begins engine g s i.start q
                    × Tiled engine g s q i.end kids)))

  pub Tiled : RegexEngine → ParseGranularity → Str → ℕ → ℕ → Children → Type 0
  Tiled engine g s p end nil = end ≤ p
  Tiled engine g s p end (cons a rest) =
      (p < end)
      × ((location_of a).start ≡ p)
      × Placed engine g s a
      × Tiled engine g s (location_of a).end end rest

abbrev pub TiledFrom : RegexEngine → ParseGranularity → Str → ℕ → ℕ → Children → Type 0
TiledFrom engine g s p end kids =
    (q : ℕ) × (p ≤ q) × Begins engine g s p q × Tiled engine g s q end kids
