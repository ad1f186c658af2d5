-- ===== src/Parser/Elements/Contents.antt =====
-- The recursion of `parse_elements` into the contents of an element, under the contract of the element
-- parsers (parser.rs).
use mathlib.Core.Path.{subst}
use org_rs.Prelude.{
  sym, ◌⊎◌, Bool, refl, ℕ, suc, ◌+◌, ◌*◌, ◌-◌, ◌≤◌, ◌<◌, ◌≡◌, true, false, Option, none, some,
  arith, length, inl, inr,
}
use org_rs.Crates.Memchr.{Memchr}
use org_rs.Crates.Regex.{RegexEngine}
use org_rs.Cursor.Runs.{
  Same-Stays, Meets-weaken, Triple, Triple-test, Triple-if, Triple-bind, Stays-bind, Triple-pure,
}
use org_rs.Cursor.State.{Cursor, M, pure}
use org_rs.Data.Kind.{is_greater_element}
use org_rs.Data.Outline.{ListStruct}
use org_rs.Data.Contain.{can_contain}
use org_rs.Parser.Elements.Spec.{Placed, TiledFrom, Tiled}
use org_rs.Data.Syntax.{
  Syntax, node, nil, SyntaxNode, Children, Interval, kind_of, data_of, location_of, content_of,
}
use org_rs.Parser.Contract.{level, LowersTo, ContentsAhead, IsAhead, Here, Contract}
use org_rs.Parser.Branch.{or_else}
use org_rs.Parser.Elements.{goes_inside, children_at, with_children, elements_loop}
use org_rs.Parser.Elements.Headline.{Begun, elements_from-Here}
use org_rs.Parser.Interface.{ElementParsers}
use org_rs.Parser.Mode.{
  ParseGranularity, headline, greater_element, element, object, ParserMode, first_section, section,
  planning, item, node_property, table_row, property_drawer, next_mode,
}
use org_rs.Rust.Str.{Str}

pub level-bounded : (m : ParserMode) → level m < 3
level-bounded first_section = omega arith
level-bounded section = omega arith
level-bounded planning = omega arith
level-bounded property_drawer = omega arith
level-bounded item = omega arith
level-bounded node_property = omega arith
level-bounded table_row = omega arith

lowered :
    (n : ℕ) (o : Option ParserMode) (mode : ParserMode) → LowersTo n o → level (or_else o mode) < n
lowered n none mode h = absurd h
lowered n (some m) mode h = h

differ : {b : Bool} → b ≡ true → b ≡ false → ⊥
differ e e' = cc

starts_at_or_behind : {p q : ℕ} {L : Type 0} → (p < q) ⊎ ((p ≤ q) × L) → p ≤ q
starts_at_or_behind (inl behind) = omega arith
starts_at_or_behind (inr (at, low)) = at

objects_only :
    {A : Type 0} (I : Cursor → Type 0) (J : A → Cursor → Type 0) (g : ParseGranularity) (m n : M A)
    → Triple I J m
    → Triple I J n
    → Triple I J (elim g [ object ↦ m | _ ↦ n ])
objects_only I J headline m n hm hn = hn
objects_only I J greater_element m n hm hn = hn
objects_only I J element m n hm hn = hn
objects_only I J object m n hm hn = hm

module _ (mc : Memchr) (engine : RegexEngine) (ps : ElementParsers) (granularity : ParseGranularity)
    (s : Str) (contract : Contract s ps) where
  -- What is left of the text, three times, and the level of the mode.
  abbrev pub measure : ℕ → ParserMode → ℕ
  measure p mode = 3 * (length s - p) + level mode

  abbrev pub Loops : ℕ → Type 0
  Loops fuel =
      (end : ℕ) (mode : ParserMode) (structure : Option ListStruct)
      → end ≤ length s
      → (p : ℕ) → measure p mode < fuel
      → Triple (Here s p) (λ kids d. (d.text ≡ s) × Tiled engine granularity s p end kids)
          (elements_loop mc engine ps granularity fuel end mode structure)

  -- The loop from where the skip to the first headline stops.
  pub Loops-Begun :
      (fuel beg end : ℕ) (mode : ParserMode) (structure : Option ListStruct)
      → Loops fuel
      → end ≤ length s
      → measure beg mode < fuel
      → Triple
          (Begun mc s engine ps granularity beg)
          (λ kids d. (d.text ≡ s) × TiledFrom engine granularity s beg end kids)
          (elements_loop mc engine ps granularity fuel end mode structure)
  Loops-Begun fuel beg end mode structure loop within enough = record {
    runs = λ c i.
        Meets-weaken (λ kids d. (d.text ≡ s) × Tiled engine granularity s c.pos end kids)
          (λ kids d. (d.text ≡ s) × TiledFrom engine granularity s beg end kids)
          (λ kids d h. (h.0, (c.pos, i.1, i.2, h.1))) _
          ((loop end mode structure within c.pos (omega (arith, i.1))).runs c (i.0, refl));
  }

  contents_measure :
      (fuel p : ℕ) (mode : ParserMode) (a : SyntaxNode) (i : Interval)
      → measure p mode < suc fuel
      → ContentsAhead s p (level mode) (kind_of (data_of a)) (some i)
      → measure i.start (or_else (next_mode (kind_of (data_of a)) true) mode) < fuel
  contents_measure fuel p mode a i enough (starts, ends, inl behind) =
      omega (arith, level-bounded (or_else (next_mode (kind_of (data_of a)) true) mode))
  contents_measure fuel p mode a i enough (starts, ends, inr (at, low)) =
      omega (arith, lowered (level mode) (next_mode (kind_of (data_of a)) true) mode low)

  -- The element with its children, at the place that the parser gave it.
  abbrev pub Full : SyntaxNode → SyntaxNode → Type 0
  Full a full = Placed engine granularity s full × (location_of full ≡ location_of a)

  module _ (fuel q : ℕ) (mode : ParserMode) (d : Syntax) (location : Interval) (post_blank : ℕ)
      (affiliated : Option (Unit {0})) (loop : Loops fuel)
      (enough : measure location.start mode < suc fuel) (behind : location.start < location.end)
      (inside : location.end ≤ length s) where
    abbrev bare : Option Interval → SyntaxNode
    bare content = node nil d location content post_blank affiliated

    abbrev Filled : Option Interval → SyntaxNode → Cursor → Type 0
    Filled content full c = Here s q c × Full (bare content) full

    childless-Filled :
        (content : Option Interval) → Triple (Here s q) (Filled content) (pure (bare content))
    unfolding Placed
    childless-Filled content =
        Triple-pure (Here s q) (Filled content) (bare content)
          (λ c here. (here, ((behind, inside, λ greater. inl refl), refl)))

    children_at-Filled :
        (i : Interval)
        → ContentsAhead s location.start (level mode) (kind_of d) (some i)
        → Triple (Here s q) (Filled (some i)) (
            children_at mc engine ps granularity
              (elements_loop mc engine ps granularity fuel)
              mode
              (bare (some i))
              i)
    unfolding children_at Placed
    children_at-Filled i ahead =
        let J = Filled (some i) in
        let next = or_else (next_mode (kind_of d) true) mode in
        let K = TiledFrom engine granularity s i.start i.end in
        let full : Children → SyntaxNode =
          λ kids. node kids d location (some i) post_blank affiliated in
        Triple-test (Here s q) J (is_greater_element (kind_of d)) _ _
          (λ greater.
            Triple-if (Here s q) J (goes_inside granularity (kind_of d)) _ _
              (Triple-bind (Here s q) J (λ kids c. Here s q c × K kids) _ _
                (elements_from-Here mc s engine ps granularity K i.start _ ahead.0
                  (Loops-Begun fuel i.start i.end next _ loop ahead.1
                    (contents_measure fuel location.start mode (bare (some i)) i enough ahead))
                  q)
                (λ kids.
                  Triple-pure (λ c. Here s q c × K kids) J (full kids)
                    (λ c h. (
                      h.0,
                      (
                        (behind, inside, λ _. inr (i, refl, starts_at_or_behind ahead.2, h.1)),
                        refl,
                      ),
                    ))))
              (childless-Filled (some i)))
          (λ lesser.
            objects_only (Here s q) J granularity _ _
              (Stays-bind (Here s q) J (ps.parse_objects i.start i.end (can_contain (kind_of d))) _
                (Same-Stays (Here s q) _
                  (contract.parse_objects_keeps i.start i.end (can_contain (kind_of d))))
                (λ kids. Triple-pure (Here s q) J (full kids) (λ c here.
                  (here, ((behind, inside, λ greater. absurd (differ greater lesser)), refl)))))
              (childless-Filled (some i)))

    with_children-Filled :
        (content : Option Interval)
        → ContentsAhead s location.start (level mode) (kind_of d) content
        → Triple (Here s q) (Filled content) (
            with_children mc engine ps granularity
              (elements_loop mc engine ps granularity fuel)
              mode
              (bare content)
              content)
    with_children-Filled none ahead = childless-Filled none
    with_children-Filled (some i) ahead = children_at-Filled i ahead

  pub with_children-Full :
      (fuel p q : ℕ) (mode : ParserMode) (a : SyntaxNode)
      → Loops fuel
      → measure p mode < suc fuel
      → IsAhead s p (level mode) a
      → Triple
          (Here s q)
          (λ full c. Here s q c × Full a full)
          (with_children mc engine ps granularity
            (elements_loop mc engine ps granularity fuel)
            mode
            a
            (content_of a))
  with_children-Full fuel p q mode (node kids d location content post_blank affiliated) loop enough
        h =
      let whole : Children → SyntaxNode = λ ks. node ks d location content post_blank affiliated in
      subst
        (λ ks.
          Triple (Here s q) (λ full c. Here s q c × Full (whole ks) full)
            (with_children mc engine ps granularity (elements_loop mc engine ps granularity fuel)
              mode (whole ks) content))
        (sym h.childless)
        (with_children-Filled fuel q mode d location post_blank affiliated loop
          (omega (arith, h.begins)) (omega (arith, h.begins, h.ends_behind)) h.ends_inside content
          (subst (λ x. ContentsAhead s x (level mode) (kind_of d) content) (sym h.begins)
            h.contents))
