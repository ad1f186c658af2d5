-- ===== src/Parser/Current/Choice/Table.antt =====
-- The stages of `current_element` from the clock line on, at the beginning of a line (parser.rs).
use org_rs.Prelude.{
  ℕ, ◌≤◌, ◌≡◌, refl, sym, ◌∙◌, ap, Bool, true, false, Option, none, some, List, [], ◌∷◌, length,
  leb, drop, inl, inr, Bool-cases, if◌then◌else◌,
}
use org_rs.Affiliated.Collect.{collect_affiliated_keywords}
use org_rs.Affiliated.Collect.Block.{Block}
use org_rs.Affiliated.Collect.Block.Gathered.{
  gathered, collect_affiliated_keywords-Block, bol-true, Block-start, Block-end,
}
use org_rs.Affiliated.Output.{AffiliatedData, default}
use org_rs.Crates.Memchr.{Memchr}
use org_rs.Crates.Regex.{Regex, RegexEngine, Match}
use org_rs.Cursor.Lines.Places.{Starts-boundary}
use org_rs.Cursor.Lines.Spec.{NextAnswer, Starts}
use org_rs.Cursor.Regexes.{
  on_headline, is_some, regex_empty_line, regex_headline_short, is_multiline_regex,
}
use org_rs.Cursor.Regexes.Line.{rest_of_line, on_headline-line, NextAnswer-unique}
use org_rs.Cursor.State.{M, new, ◌>>=◌}
use org_rs.Data.Outline.{ListStruct}
use org_rs.Data.Syntax.{SyntaxNode}
use org_rs.Parser.Branch.{try}
use org_rs.Parser.Current.{affiliated_stage, inlinetask_stage, line_stage, is_object_granularity}
use org_rs.Parser.Current.Choice.{Rule, rule, look, behind_keywords}
use org_rs.Parser.Current.Choice.First.{
  First, guarded-First, try-First, with_affiliated-First, headline-single, empty-single,
}
use org_rs.Parser.Current.Choice.Star.{own-IsLineBegin}
use org_rs.Parser.Expressions.{regex_clock_line}
use org_rs.Parser.Interface.{ElementParsers}
use org_rs.Parser.Mode.{ParseGranularity}
use org_rs.Rust.Outcome.{ok}
use org_rs.Rust.Str.{Str, is_char_boundary}
use org_rs.Rust.Utf8.{Char, encode_all}
use org_rs.Rust.Utf8.Encoding.{AllChars}

module _ (mc : Memchr) (engine : RegexEngine) (ps : ElementParsers) (granularity : ParseGranularity)
    (structure : Option ListStruct) (limit : ℕ) (cs : List Char) (valid : AllChars cs) (p e : ℕ)
    (out : AffiliatedData) (r r' : Option ℕ) (starts : Starts (encode_all cs) p)
    (block : Block engine (encode_all cs) limit p default e out)
    (answer : NextAnswer (encode_all cs) p r) (answer' : NextAnswer (encode_all cs) e r') where
  abbrev s : Str
  s = encode_all cs

  abbrev inside : p ≤ length s
  inside = Block-start mc engine s limit p e default out block

  abbrev boundary : is_char_boundary s p ≡ true
  boundary = Starts-boundary cs p valid starts

  abbrev find_here : Regex → Option Match
  find_here = look engine s p r

  abbrev find_behind : Regex → Option Match
  find_behind = look engine s e r'

  abbrev d : M SyntaxNode
  d =
      behind_keywords mc engine ps granularity structure limit p find_here e find_behind out
        (find_behind regex_empty_line)

  abbrev Runs : List Rule → M SyntaxNode → Type 0
  Runs rs m = First mc engine s p r inside boundary answer rs d m

  single_look :
      (q : ℕ) (o : Option ℕ) (re : Regex)
      → is_multiline_regex re ≡ false
      → look engine s q o re ≡ engine.find re (rest_of_line s q o)
  single_look q o re single =
      ap (λ (b : Bool). engine.find re (if b then drop q s else rest_of_line s q o)) single

  affiliated-behind :
      (m : Option Match)
      → collect_affiliated_keywords mc engine limit (new s p) ≡ ok (gathered mc engine s p e out m)
      → affiliated_stage mc engine ps granularity structure limit (new s p)
        ≡ behind_keywords mc engine ps granularity structure limit p find_here e find_behind out m
            (new s p)
  unfolding affiliated_stage
  affiliated-behind none run =
      let (o, last) = Block-end mc engine s limit p e default out block in
      elim (Bool-cases (leb limit e)) [
        | inl late ↦ rw (run, late) refl
        | inr early ↦
            rw (run, early)
              (with_affiliated-First mc engine s e r' last.inside last.boundary answer' ps
                granularity structure limit p (some out)).runs
      ]
  affiliated-behind (some m) run =
      rw run
        (with_affiliated-First mc engine s p r inside boundary answer ps granularity structure limit
          p none).runs

  affiliated-Runs : Runs [] (affiliated_stage mc engine ps granularity structure limit)
  affiliated-Runs = record {
    runs = affiliated-behind (find_behind regex_empty_line) (
        collect_affiliated_keywords-Block mc engine s limit p e out r' starts block answer'
        ∙ ap (λ (m : Option Match). ok (gathered mc engine s p e out m))
            (sym (single_look e r' regex_empty_line empty-single)));
  }

  headline-run :
      on_headline mc engine (new s p) ≡ ok (is_some (find_here regex_headline_short), new s p)
  headline-run =
      let (o, found, run) =
        on_headline-line mc engine s p p inside (own-IsLineBegin s p starts) boundary in
      run
      ∙ ap
          (λ (x : Option ℕ).
            ok (is_some (engine.find regex_headline_short (rest_of_line s p x)), new s p))
          (NextAnswer-unique s p r o answer found)
      ∙ ap (λ (m : Option Match). ok (is_some m, new s p))
          (sym (single_look p r regex_headline_short headline-single))

  -- A test for a headline before the parser and what follows it.
  on_headline-run :
      (parser later : M SyntaxNode)
      → ((do here ← on_headline mc engine; if here then parser else later) (new s p))
        ≡ (if is_some (find_here regex_headline_short) then parser else later) (new s p)
  on_headline-run parser later = rw headline-run refl

  pub on_headline-Runs :
      (parser later m : M SyntaxNode) (rs : List Rule)
      → m (new s p) ≡ (do here ← on_headline mc engine; if here then parser else later) (new s p)
      → Runs rs later
      → Runs (rule true regex_headline_short parser ∷ rs) m
  on_headline-Runs parser later m rs is_test h =
      guarded-First mc engine s p r inside boundary answer true regex_headline_short parser later d
        m rs (is_test ∙ on_headline-run parser later) h

  abbrev inlinetask : M SyntaxNode
  inlinetask = ps.inlinetask_parser limit (is_object_granularity granularity)

  abbrev affiliated : M SyntaxNode
  affiliated = affiliated_stage mc engine ps granularity structure limit

  inlinetask-Runs :
      Runs
        (rule true regex_headline_short inlinetask ∷ [])
        (inlinetask_stage mc engine ps granularity structure limit)
  unfolding inlinetask_stage
  inlinetask-Runs = on_headline-Runs inlinetask affiliated _ _ refl affiliated-Runs

  line-run :
      line_stage mc engine ps granularity structure limit (new s p)
      ≡ try mc engine ps granularity regex_clock_line
          (ps.clock_line_parser limit)
          (inlinetask_stage mc engine ps granularity structure limit)
          (new s p)
  unfolding line_stage
  line-run = rw (bol-true mc engine s p inside starts) refl

  abbrev pub line_rules : List Rule
  line_rules =
      rule true regex_clock_line (ps.clock_line_parser limit)
      ∷ rule true regex_headline_short inlinetask
      ∷ []

  pub line-Runs : Runs line_rules (line_stage mc engine ps granularity structure limit)
  line-Runs = record {
    runs =
        line-run
        ∙ (try-First mc engine s p r inside boundary answer ps granularity inlinetask-Runs).runs;
  }
