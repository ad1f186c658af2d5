-- ===== src/Parser/Elements/Tree.antt =====
-- The tree that `parse_elements` makes, by the kinds and the modes of its elements (parser.rs).
use mathlib.Core.Path.{subst}
use org_rs.Prelude.{
  ℕ, zero, suc, ◌≡◌, refl, sym, inl, inr, Bool, true, false, Option, none, some, leb,
}
use org_rs.Crates.Memchr.{Memchr}
use org_rs.Crates.Regex.{RegexEngine}
use org_rs.Cursor.State.{Cursor, M, set, get_pos, pure}
use org_rs.Data.Contain.{can_contain}
use org_rs.Data.Kind.{is_greater_element}
use org_rs.Data.Outline.{ListStruct}
use org_rs.Data.Syntax.{
  Syntax, SyntaxNode, Children, Interval, node, nil, cons, kind_of, data_of, location_of,
  content_of,
}
use org_rs.Parser.Branch.{or_else}
use org_rs.Parser.Current.{current_element, is_object_granularity}
use org_rs.Cursor.Runs.Returns.{
  Ensures, Ensures-bind, Ensures-if, Ensures-after, Ensures-pure, Ensures-and, Ensures-test,
}
use org_rs.Parser.Current.Ensures.{AllEnsure}
use org_rs.Parser.Current.Ladder.{current_element-Ensures}
use org_rs.Parser.Elements.{
  skip_to_headline, elements_from, goes_inside, children_at, with_children, elements_loop,
  parse_elements,
}
use org_rs.Parser.Elements.Kinds.{Kinds, AllowedIn, current_element-Allowed}
use org_rs.Parser.Elements.Spec.{
  Allowed, goes_inside-opens, is_object_granularity-opens, Leaf, Grown, AllGrown,
}
use org_rs.Parser.Interface.{ElementParsers}
use org_rs.Rust.Outcome.{ok}
use org_rs.Parser.Mode.{
  ParseGranularity, headline, greater_element, element, object, ParserMode, next_mode,
}

different : {b : Bool} → b ≡ true → b ≡ false → ⊥
different e e' = cc

for_objects :
    (J : SyntaxNode → Type 0) (g : ParseGranularity) (m n : M SyntaxNode)
    → (is_object_granularity g ≡ true → Ensures J m)
    → Ensures J n
    → Ensures J (elim g [ object ↦ m | _ ↦ n ])
for_objects J headline m n hm hn = hn
for_objects J greater_element m n hm hn = hn
for_objects J element m n hm hn = hn
for_objects J object m n hm hn = hm refl

module _ (mc : Memchr) (engine : RegexEngine) (ps : ElementParsers) (granularity : ParseGranularity)
    (P : SyntaxNode → Type 0) (all : AllEnsure (Leaf P) ps) (kinds : Kinds ps) where
  elements_from-Ensures :
      (J : Children → Type 0) (beg : ℕ) (loop : M Children)
      → Ensures J loop
      → Ensures J (elements_from mc engine ps granularity beg loop)
  unfolding elements_from
  elements_from-Ensures J beg loop h = Ensures-bind J get_pos _ (λ saved.
      Ensures-bind J (set beg) _ (λ _.
        Ensures-bind J (skip_to_headline mc engine ps granularity) _ (λ _.
          Ensures-after J J loop _ h (λ kids grown.
            Ensures-bind J (set saved) (λ _. pure kids) (λ _. Ensures-pure J kids grown)))))

  abbrev LoopGrows : ℕ → Type 0
  LoopGrows fuel =
      (end : ℕ) (mode : ParserMode) (structure : Option ListStruct)
      → Ensures (AllGrown P granularity mode)
          (elements_loop mc engine ps granularity fuel end mode structure)

  -- The element with its children, and still the data that the parser gave it.
  abbrev Full : ParserMode → SyntaxNode → SyntaxNode → Type 0
  Full mode a full = Grown P granularity mode full × (data_of full ≡ data_of a)

  module _ (fuel : ℕ) (mode : ParserMode) (d : Syntax) (location : Interval) (post_blank : ℕ)
      (affiliated : Option (Unit {0})) (allowed : Allowed mode (kind_of d))
      (loop : LoopGrows fuel) where
    abbrev bare : Option Interval → SyntaxNode
    bare content = node nil d location content post_blank affiliated

    childless-Full :
        (content : Option Interval)
        → P (bare content)
        → Ensures (Full mode (bare content)) (pure (bare content))
    unfolding Grown
    childless-Full content p =
        Ensures-pure (Full mode (bare content)) (bare content)
          ((allowed, p, inl refl, λ greater. tt), refl)

    children_at-Full :
        (i : Interval)
        → P (bare (some i))
        → Ensures (Full mode (bare (some i))) (
            children_at mc engine ps granularity
              (elements_loop mc engine ps granularity fuel)
              mode
              (bare (some i))
              i)
    unfolding children_at Grown
    children_at-Full i p =
        let J = Full mode (bare (some i)) in
        let kind = kind_of d in
        Ensures-test J (is_greater_element kind) _ _
          (λ greater.
            Ensures-test J (goes_inside granularity kind) _ _
              (λ inside.
                Ensures-after (AllGrown P granularity (or_else (next_mode kind true) mode)) J _ _
                  (elements_from-Ensures _ i.start _ (loop i.end _ _))
                  (λ kids grown.
                    Ensures-pure J (node kids d location (some i) post_blank affiliated) (
                      (
                        allowed,
                        p,
                        inr (refl, goes_inside-opens granularity kind greater inside),
                        λ _. grown,
                      ),
                      refl,
                    )))
              (λ closed. childless-Full (some i) p))
          (λ lesser.
            for_objects J granularity _ _
              (λ whole.
                Ensures-bind J (ps.parse_objects i.start i.end (can_contain kind)) _ (λ kids.
                  Ensures-pure J (node kids d location (some i) post_blank affiliated) (
                    (
                      allowed,
                      p,
                      inr (refl, is_object_granularity-opens granularity kind whole),
                      λ greater. absurd (different greater lesser),
                    ),
                    refl,
                  )))
              (childless-Full (some i) p))

    with_children-Full :
        (content : Option Interval)
        → P (bare content)
        → Ensures (Full mode (bare content)) (
            with_children mc engine ps granularity
              (elements_loop mc engine ps granularity fuel)
              mode
              (bare content)
              content)
    with_children-Full none p = childless-Full none p
    with_children-Full (some i) p = children_at-Full i p

  with_children-Leaf :
      (fuel : ℕ) (mode : ParserMode) (a : SyntaxNode)
      → LoopGrows fuel
      → Leaf P a × AllowedIn mode a
      → Ensures (Full mode a) (
          with_children mc engine ps granularity
            (elements_loop mc engine ps granularity fuel)
            mode
            a
            (content_of a))
  with_children-Leaf fuel mode (node kids d location content post_blank affiliated) loop
        ((childless, p), allowed) =
      let whole : Children → SyntaxNode = λ ks. node ks d location content post_blank affiliated in
      subst
        (λ ks.
          P (whole ks)
          → Ensures (Full mode (whole ks)) (
              with_children mc engine ps granularity (elements_loop mc engine ps granularity fuel)
                mode (whole ks) content))
        (sym childless)
        (with_children-Full fuel mode d location post_blank affiliated allowed loop content) p

  elements_loop-Grows : (fuel : ℕ) → LoopGrows fuel
  unfolding elements_loop AllGrown
  elements_loop-Grows zero end mode structure = record { returns = λ c c' a e. cc }
  elements_loop-Grows (suc fuel) end mode structure =
      let J = AllGrown P granularity mode in
      let grows = elements_loop-Grows fuel in
      Ensures-bind J get_pos _ (λ current_pos.
        Ensures-if J (leb end current_pos) _ _ (Ensures-pure J nil tt) (
          Ensures-after (λ a. Leaf P a × AllowedIn mode a) J
            (current_element mc engine ps granularity end mode structure) _
            (Ensures-and (Leaf P) (AllowedIn mode) _
              (current_element-Ensures (Leaf P) mc engine ps granularity all mode structure end)
              (current_element-Allowed mc engine ps granularity kinds mode structure end))
            (λ a leaf. Ensures-bind J (set (location_of a).end) _ (λ _.
              Ensures-after (Full mode a) J _ _ (with_children-Leaf fuel mode a grows leaf)
                (λ full grown.
                  Ensures-after
                    (AllGrown P granularity (or_else (next_mode (kind_of (data_of a)) false) mode))
                    J _ _ (grows end _ structure)
                    (λ rest more. Ensures-pure J (cons full rest) (
                      grown.0,
                      subst
                          (λ d.
                            AllGrown P granularity (or_else (next_mode (kind_of d) false) mode)
                              rest)
                          (sym grown.1) more,
                    )))))))

  pub parse_elements-AllGrown :
      (fuel beg end : ℕ) (mode : ParserMode) (structure : Option ListStruct) (c c' : Cursor)
      (kids : Children)
      → parse_elements mc engine ps granularity fuel beg end mode structure c ≡ ok (kids, c')
      → AllGrown P granularity mode kids
  unfolding parse_elements
  parse_elements-AllGrown fuel beg end mode structure c c' kids =
      (elements_from-Ensures (AllGrown P granularity mode) beg _
          (elements_loop-Grows fuel end mode structure)).returns
        c c' kids
