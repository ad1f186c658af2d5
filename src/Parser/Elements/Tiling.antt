-- ===== src/Parser/Elements/Tiling.antt =====
-- The loop of `parse_elements` under the contract of the element parsers (parser.rs).
use mathlib.Core.Path.{subst}
use org_rs.Prelude.{
  sym, refl, ap, ◌∙◌, ℕ, zero, suc, ◌≤◌, ◌<◌, ◌≡◌, false, Option, arith, length, leb, Bool-cases,
  inl, inr,
}
use org_rs.Crates.Memchr.{Memchr}
use org_rs.Crates.Regex.{RegexEngine}
use org_rs.Cursor.Runs.{Meets, Meets-bound, Triple, Triple-bind}
use org_rs.Cursor.State.{Cursor, pure, ◌>>=◌}
use org_rs.Data.Outline.{ListStruct}
use org_rs.Parser.Elements.Spec.{Tiled, TiledFrom}
use org_rs.Parser.Elements.Contents.{
  Loops, Loops-Begun, measure, level-bounded, Full, with_children-Full,
}
use org_rs.Data.Syntax.{
  cons, SyntaxNode, Children, Interval, kind_of, data_of, location_of, content_of,
}
use org_rs.Parser.Contract.{level, IsAhead, Answer, Here, Contract}
use org_rs.Parser.Branch.{or_else}
use org_rs.Parser.Current.Answers.{current_element-Answer}
use org_rs.Parser.Elements.{with_children, elements_loop, parse_elements}
use org_rs.Parser.Elements.Headline.{elements_from-restores}
use org_rs.Parser.Interface.{ElementParsers}
use org_rs.Parser.Mode.{ParseGranularity, ParserMode, next_mode}
use org_rs.Rust.Str.{Str}

module _ (mc : Memchr) (engine : RegexEngine) (ps : ElementParsers) (granularity : ParseGranularity)
    (s : Str) (contract : Contract s ps) where
  abbrev TiledTo : ℕ → ℕ → Children → Cursor → Type 0
  TiledTo p end kids c = (c.text ≡ s) × Tiled engine granularity s p end kids

  -- One more element, the cursor behind it.
  element_round :
      (fuel end : ℕ) (mode : ParserMode) (structure : Option ListStruct)
      → Loops mc engine ps granularity s contract fuel
      → end ≤ length s
      → (p : ℕ) → p < end
      → measure mc engine ps granularity s contract p mode < suc fuel
      → (a : SyntaxNode) → IsAhead s p (level mode) a
      → Triple (Here s (location_of a).end) (TiledTo p end) (do
        full ←
            with_children mc engine ps granularity
              (elements_loop mc engine ps granularity fuel)
              mode
              a
              (content_of a)
        rest ←
            elements_loop mc engine ps granularity fuel end
              (or_else (next_mode (kind_of (data_of a)) false) mode)
              structure
        pure (cons full rest))
  unfolding Tiled
  element_round fuel end mode structure ih within p before enough a h =
      let q = (location_of a).end in
      let next = or_else (next_mode (kind_of (data_of a)) false) mode in
      Triple-bind (Here s q) (TiledTo p end)
        (λ full c. Here s q c × Full mc engine ps granularity s contract a full) _ _
        (with_children-Full mc engine ps granularity s contract fuel p q mode a ih enough h)
        (λ full. record {
          runs = λ c filled.
              Meets-bound (TiledTo q end) (TiledTo p end) (λ rest. pure (cons full rest))
                (λ rest d tiled. (
                  tiled.0,
                  (
                    before,
                    ap (λ (l : Interval). l.start) filled.1.1 ∙ h.begins,
                    filled.1.0,
                    subst (λ (l : Interval). Tiled engine granularity s l.end end rest)
                        (sym filled.1.1) tiled.1,
                  ),
                ))
                _
                ((ih end next structure within q
                    (omega (arith, level-bounded next, h.ends_behind, h.ends_inside))).runs
                  c filled.0);
        })

  -- A turn of the loop, if the rest of it does.
  loop_round :
      (fuel end : ℕ) (mode : ParserMode) (structure : Option ListStruct)
      → Loops mc engine ps granularity s contract fuel
      → end ≤ length s
      → (c : Cursor) → c.text ≡ s
      → measure mc engine ps granularity s contract c.pos mode < suc fuel
      → Meets
          (TiledTo c.pos end)
          (elements_loop mc engine ps granularity (suc fuel) end mode structure c)
  unfolding elements_loop Tiled
  loop_round fuel end mode structure ih within c text enough = elim (Bool-cases (leb end c.pos)) [
    | inl done ↦ rw done (text, ground arith)
    | inr more ↦ rw more (
        Meets-bound (λ a d. Answer s c.pos (level mode) a d × (d.pos ≡ c.pos)) (TiledTo c.pos end) _
          (λ a d h.
            (element_round fuel end mode structure ih within c.pos (ground arith) enough a
                h.0.0).runs
              (record d { pos = (location_of a).end }) (h.0.1, refl))
          _
          (current_element-Answer mc engine ps granularity s contract structure end within mode c
            text (ground arith)))
  ]

  elements_loop-Loops : (fuel : ℕ) → Loops mc engine ps granularity s contract fuel
  elements_loop-Loops zero end mode structure within p enough = absurd (omega arith)
  elements_loop-Loops (suc fuel) end mode structure within p enough = record {
    runs = λ c i.
        subst
          (λ x.
            Meets (TiledTo x end)
              (elements_loop mc engine ps granularity (suc fuel) end mode structure c))
          i.1
          (loop_round fuel end mode structure (elements_loop-Loops fuel) within c i.0
            (omega (arith, i.1)));
  }

  -- Under the contract of the element parsers, for two positions in the text `s`, `parse_elements`
  -- ends in any mode on fuel above three times what is left of the text and the level of the mode: it
  -- panics, or returns with text and position as they were. The elements that it returns lie one
  -- behind the other without a gap, from the first position to the second one or behind it, as do the
  -- children of each greater element in its contents. With granularity `Headline` the first begins at
  -- the position only if its line is a headline; else at the first headline behind that line, or, where
  -- none follows, at the next line, or on the last line at the position.
  pub parse_elements-Tiled :
      (fuel beg end : ℕ) (mode : ParserMode) (structure : Option ListStruct)
      → beg ≤ length s
      → end ≤ length s
      → measure mc engine ps granularity s contract beg mode < fuel
      → (c : Cursor) → c.text ≡ s
      → Meets
          (λ kids d. (d ≡ c) × TiledFrom engine granularity s beg end kids)
          (parse_elements mc engine ps granularity fuel beg end mode structure c)
  unfolding parse_elements
  parse_elements-Tiled fuel beg end mode structure inside within enough =
      elements_from-restores mc s engine ps granularity (TiledFrom engine granularity s beg end) beg
        (elements_loop mc engine ps granularity fuel end mode structure) inside
        (Loops-Begun mc engine ps granularity s contract fuel beg end mode structure
          (elements_loop-Loops fuel) within enough)
