-- ===== src/Parser/Current/Stages.antt =====
-- The stages of `current_element` that move the cursor themselves, under the contract of the element
-- parsers.
use mathlib.Core.Path.{subst}
use org_rs.Prelude.{
  ℕ, ◌≤◌, ◌≡◌, refl, sym, ◌∙◌, ap, ◌&&◌, not, Option, none, some, arith, length, leb, if◌then◌else◌,
  Bool, true, false, Bool-cases, inl, inr,
}
use org_rs.Affiliated.Collect.{collect_affiliated_keywords}
use org_rs.Affiliated.Collect.Collected.{Collected, collect_affiliated_keywords-Collected}
use org_rs.Affiliated.Output.{AffiliatedData}
use org_rs.Crates.Memchr.{Memchr}
use org_rs.Crates.Regex.{RegexEngine}
use org_rs.Cursor.Regexes.{is_some}
use org_rs.Cursor.Lines.{is_bol}
use org_rs.Parser.Expressions.{regex_clock_line}
use org_rs.Cursor.Runs.{Meets, Meets-bound, Same-bound, Same, Same-bind, Same-pure}
use org_rs.Cursor.Runs.Saved.{
  is_bol-Same, looking_at-Same, on_headline-Same, line_beginning_position-Same, char_after-Same,
}
use org_rs.Cursor.State.{Cursor, M, ◌>>=◌, ◌>>◌, set, get_pos}
use org_rs.Data.Outline.{ListStruct}
use org_rs.Data.Syntax.{SyntaxNode}
use org_rs.Parser.Contract.{Answer, At, Inside, Ahead, AheadFrom, Contract}
use org_rs.Parser.Branch.{with_affiliated, try}
use org_rs.Parser.Current.{
  affiliated_stage, inlinetask_stage, line_stage, after_headline, drawer_stage, planning_stage,
}
use org_rs.Parser.Current.Within.{
  with_affiliated-AheadFrom, Aims-bind, Aims-if, Aims-mono, Aims-try,
}
use org_rs.Parser.Interface.{ElementParsers}
use org_rs.Parser.Mode.{ParseGranularity, ParserMode}
use org_rs.Prelude.Int.{ℤ}
use org_rs.Rust.Str.{Str}

module _ (mc : Memchr) (engine : RegexEngine) (ps : ElementParsers)
    (granularity : ParseGranularity) where
  pub after_headline-Same : (delta : ℤ) → Same (after_headline mc engine ps granularity delta)
  unfolding after_headline
  after_headline-Same delta =
      Same-bind _ _ (line_beginning_position-Same mc _)
        (λ offset. Same-bind _ _ (char_after-Same mc offset) (λ maybe_star. Same-pure _))

module _ (mc : Memchr) (engine : RegexEngine) (ps : ElementParsers) (granularity : ParseGranularity)
    (s : Str) (contract : Contract s ps) (structure : Option ListStruct) (limit : ℕ)
    (within : limit ≤ length s) where
  strict_from : (start : ℕ) (m : M SyntaxNode) → AheadFrom s 0 start m → AheadFrom s 1 start m
  strict_from start m = Aims-mono (Inside s start) s start 0 1 m (omega arith)

  strict_at : (m : M SyntaxNode) → Ahead s 0 m → Ahead s 1 m
  strict_at m h p = Aims-mono (At s p) s p 0 1 m (omega arith) (h p)

  -- Behind the collection: with keywords that the limit cuts off, the first of them is a keyword of
  -- its own.
  after_collection : ℕ × Option AffiliatedData → M SyntaxNode
  after_collection collected = do
    here ← get_pos
    let orphaned : M SyntaxNode = (do set collected.0; ps.keyword_parser limit collected.0 none)
    let parsed : M SyntaxNode =
        with_affiliated mc engine ps granularity structure limit collected.0 collected.1
    if is_some collected.1 && leb limit here then orphaned else parsed

  after_collection-Answer :
      (p : ℕ) (aff : Option AffiliatedData) (c d : Cursor)
      → At s p c
      → Collected c (p, aff) d
      → Meets (Answer s p 1) (after_collection (p, aff) d)
  unfolding after_collection
  after_collection-Answer p none c d (text, at, left) h =
      (with_affiliated-AheadFrom mc engine ps granularity s contract structure limit p none).runs d
        (subst (Inside s p) (sym (h.restored refl)) (text, omega arith, omega arith))
  after_collection-Answer p (some aff) c d (text, at, left) h =
      elim (Bool-cases (leb limit d.pos)) [
        | inl late ↦ rw late (
            (strict_from p _ (contract.keyword_parser_ahead limit p none)).runs
              (record d { pos = p }) (h.text_kept ∙ text, omega arith, left))
        | inr early ↦ rw early (
            (with_affiliated-AheadFrom mc engine ps granularity s contract structure limit p
                (some aff)).runs
              d (h.text_kept ∙ text, omega (arith, h.forward), ground arith))
      ]

  after_collection-Ahead :
      (p : ℕ) (c : Cursor)
      → At s p c
      → (r : ℕ × Option AffiliatedData) (d : Cursor) → Collected c r d
      → Meets (Answer s p 1) (after_collection r d)
  after_collection-Ahead p c i (start, aff) d h =
      subst (λ q. Collected c (q, aff) d → Meets (Answer s p 1) (after_collection (q, aff) d))
        (sym (h.origin ∙ i.1)) (after_collection-Answer p aff c d i) h

  affiliated_stage-Ahead : Ahead s 1 (affiliated_stage mc engine ps granularity structure limit)
  unfolding affiliated_stage after_collection
  affiliated_stage-Ahead p = record {
    runs = λ c i.
        let same : length c.text ≡ length s = ap (λ (t : Str). length t) i.0 in
        Meets-bound (Collected c) (Answer s p 1) after_collection (after_collection-Ahead p c i)
          (collect_affiliated_keywords mc engine limit c)
          (collect_affiliated_keywords-Collected mc engine limit c (omega (arith, i.1, i.2))
            (omega arith));
  }

  inlinetask_stage-Ahead : Ahead s 1 (inlinetask_stage mc engine ps granularity structure limit)
  unfolding inlinetask_stage
  inlinetask_stage-Ahead p = Aims-bind (At s p) s p 1 _ _ (on_headline-Same mc engine) (λ task.
      Aims-if (At s p) s p 1 task _ _ (strict_at _ (contract.inlinetask_parser_ahead limit _) p)
        (affiliated_stage-Ahead p))

  paragraph_here :
      (p : ℕ) (c : Cursor)
      → At s p c
      → Meets (Answer s p 1) (ps.paragraph_parser limit c.pos none c)
  paragraph_here p c (text, at, left) =
      subst (λ q. Meets (Answer s p 1) (ps.paragraph_parser limit q none c)) (sym at)
        ((strict_from p _ (contract.paragraph_parser_ahead limit p none)).runs c
          (text, omega arith, omega arith))

  line_branch :
      (p : ℕ) (c : Cursor) (bol : Bool)
      → At s p c
      → Meets (Answer s p 1) (
          (if not bol
              then ps.paragraph_parser limit c.pos none
              else try mc engine ps granularity regex_clock_line
                  (ps.clock_line_parser limit)
                  (inlinetask_stage mc engine ps granularity structure limit))
            c)
  line_branch p c false i = paragraph_here p c i
  line_branch p c true i =
      (Aims-try (At s p) s p 1 mc engine ps granularity regex_clock_line _ _
          (strict_at _ (contract.clock_line_parser_ahead limit) p) (inlinetask_stage-Ahead p)).runs
        c i

  line_stage-Ahead : Ahead s 1 (line_stage mc engine ps granularity structure limit)
  unfolding line_stage
  line_stage-Ahead p = record {
    runs = λ c i.
        Same-bound (Answer s p 1) (is_bol mc) _ c (is_bol-Same mc) (λ bol. line_branch p c bol i);
  }

  drawer_stage-Ahead :
      (mode : ParserMode) → Ahead s 1 (drawer_stage mc engine ps granularity mode structure limit)
  unfolding drawer_stage
  drawer_stage-Ahead mode p =
      Aims-bind (At s p) s p 1 _ _ (after_headline-Same mc engine ps granularity _) (λ star_before.
        Aims-bind (At s p) s p 1 _ _ (looking_at-Same mc engine _) (λ found.
          Aims-if (At s p) s p 1 _ _ _ (strict_at _ (contract.property_drawer_parser_ahead limit) p)
            (line_stage-Ahead p)))

  pub planning_stage-Ahead :
      (mode : ParserMode) → Ahead s 1 (planning_stage mc engine ps granularity mode structure limit)
  unfolding planning_stage
  planning_stage-Ahead mode p =
      Aims-bind (At s p) s p 1 _ _ (after_headline-Same mc engine ps granularity _) (λ star_before.
        Aims-bind (At s p) s p 1 _ _ (looking_at-Same mc engine _) (λ found.
          Aims-if (At s p) s p 1 _ _ _ (strict_at _ (contract.planning_parser_ahead limit) p)
            (drawer_stage-Ahead mode p)))
