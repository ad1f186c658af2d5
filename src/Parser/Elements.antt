-- ===== src/Parser/Elements.antt =====
-- `parse_elements` and `parse_buffer`: the loop over the elements and the recursion into contents.
pub mod Headline
pub mod Contents
pub mod Tiling
pub mod Spec
pub mod Kinds
pub mod Tree
pub mod Buffer
pub mod Stubs
use org_rs.Prelude.{
  ℕ, zero, suc, Bool, true, false, not, Option, none, some, leb, if◌then◌else◌, length,
}
use org_rs.Crates.Memchr.{Memchr}
use org_rs.Crates.Regex.{RegexEngine}
use org_rs.Cursor.Moves.{skip_whitespace}
use org_rs.Cursor.Regexes.{on_headline, next_headline}
use org_rs.Cursor.State.{M, pure, out_of_fuel, ◌>>=◌, ◌>>◌, set, get_pos, get_text, when}
use org_rs.Data.Contain.{can_contain}
use org_rs.Data.Kind.{SyntaxT, is_greater_element}
use org_rs.Data.Outline.{ListStruct}
use org_rs.Data.Syntax
use org_rs.Data.Syntax.{
  Syntax, SyntaxNode, Children, Interval, kind_of, data_of, location_of, content_of,
  replace_children, create_root,
}
use org_rs.Parser.Branch.{or_else}
use org_rs.Parser.Current.{current_element}
use org_rs.Parser.Interface.{ElementParsers}
use org_rs.Parser.Mode.{
  ParseGranularity, headline, greater_element, element, object, ParserMode, first_section,
  next_mode,
}

abbrev pub is_headline : ParseGranularity → Bool
is_headline headline = true
is_headline _ = false

-- Whether the granularity lets the parser go into a greater element of this kind.
unfoldable pub goes_inside : ParseGranularity → SyntaxT → Bool
goes_inside granularity SyntaxT.headline = true
goes_inside element kind = true
goes_inside object kind = true
goes_inside greater_element SyntaxT.section = true
goes_inside _ _ = false

-- The structure that a plain list hands to its items.
abbrev pub structure_of : Syntax → Option ListStruct
structure_of (Syntax.plain_list d) = some d.structure
structure_of _ = none

module _ (mc : Memchr) (engine : RegexEngine) (ps : ElementParsers)
    (granularity : ParseGranularity) where
  -- With granularity `Headline`, text before the first headline is passed over.
  unfoldable pub skip_to_headline : M (Unit {0})
  skip_to_headline =
      when (is_headline granularity)
        (do here ← on_headline mc engine; when (not here) (do next_headline mc engine; pure tt))

  -- The frame of `parse_elements` around its loop.
  unfoldable pub elements_from : ℕ → M Children → M Children
  unfolding skip_to_headline
  elements_from beg loop = do
    saved ← get_pos
    set beg
    skip_to_headline
    elements ← loop
    set saved
    pure elements

  -- The contents of an element that has some: elements inside a greater element, else objects.
  unfoldable pub children_at :
      (ℕ → ParserMode → Option ListStruct → M Children)
      → ParserMode
      → SyntaxNode
      → Interval
      → M SyntaxNode
  unfolding elements_from goes_inside
  children_at loop mode current content =
      let kind = kind_of (data_of current) in
      let inner : M SyntaxNode = (do
        kids ←
            elements_from content.start (
              loop content.end (or_else (next_mode kind true) mode)
                (structure_of (data_of current)))
        pure (replace_children current kids)) in
      let objects : M SyntaxNode = (do
        kids ← ps.parse_objects content.start content.end (can_contain kind)
        pure (replace_children current kids)) in
      if is_greater_element kind
      then (if goes_inside granularity kind then inner else pure current)
      else elim granularity [ object ↦ objects | _ ↦ pure current ]

  abbrev pub with_children :
      (ℕ → ParserMode → Option ListStruct → M Children)
      → ParserMode
      → SyntaxNode
      → Option Interval
      → M SyntaxNode
  with_children loop mode current none = pure current
  with_children loop mode current (some content) = children_at loop mode current content

  -- The loop of `parse_elements`. Its fuel bounds the elements of a level and the levels together.
  unfoldable pub elements_loop : ℕ → ℕ → ParserMode → Option ListStruct → M Children
  unfolding children_at
  elements_loop zero end mode structure = out_of_fuel
  elements_loop (suc fuel) end mode structure = do
    current_pos ← get_pos
    let again = elements_loop fuel
    if leb end current_pos then pure Syntax.nil else do
      current ← current_element mc engine ps granularity end mode structure
      set (location_of current).end
      full ← with_children again mode current (content_of current)
      rest ← again end (or_else (next_mode (kind_of (data_of current)) false) mode) structure
      pure (Syntax.cons full rest)

  unfoldable pub parse_elements : ℕ → ℕ → ℕ → ParserMode → Option ListStruct → M Children
  unfolding elements_from elements_loop
  parse_elements fuel beg end mode structure =
      elements_from beg (elements_loop fuel end mode structure)

  unfoldable pub parse_buffer : ℕ → M SyntaxNode
  unfolding parse_elements
  parse_buffer fuel = do
    set 0
    skip_whitespace
    text ← get_text
    children ← parse_elements fuel 0 (length text) first_section none
    pure (replace_children create_root children)
