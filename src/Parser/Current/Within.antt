-- ===== src/Parser/Current/Within.antt =====
-- The last tests of `current_element` under the contract of the element parsers (parser.rs).
use org_rs.Prelude.{ℕ, ◌≤◌, Bool, Option, arith, if◌then◌else◌}
use org_rs.Affiliated.Output.{AffiliatedData}
use org_rs.Crates.Memchr.{Memchr}
use org_rs.Crates.Regex.{Regex, RegexEngine}
use org_rs.Cursor.Runs.{Meets-weaken, Same, Same-Stays, Stays-bind, Triple-if, Triple-option}
use org_rs.Cursor.Runs.Saved.{looking_at-Same}
use org_rs.Cursor.State.{Cursor, M, ◌>>=◌}
use org_rs.Data.Outline.{ListStruct}
use org_rs.Data.Syntax.{SyntaxNode}
use org_rs.Parser.Contract.{IsAhead-mono, Answer, Inside, Aims, AheadFrom, Contract}
use org_rs.Parser.Branch.{
  try, after_hashtag, plain_list, without_hashtag, hashtag_or_other, with_affiliated,
}
use org_rs.Parser.Expressions.{regex_starts_with_hashtag}
use org_rs.Parser.Interface.{ElementParsers}
use org_rs.Parser.Mode.{ParseGranularity}
use org_rs.Rust.Str.{Str}

module _ (I : Cursor → Type 0) (s : Str) (p n : ℕ) where
  pub Aims-bind :
      {A : Type 0} (m : M A) (f : A → M SyntaxNode)
      → Same m
      → ((a : A) → Aims I s p n (f a))
      → Aims I s p n (m >>= f)
  Aims-bind m f h hf = Stays-bind I (Answer s p n) m f (Same-Stays I m h) hf

  pub Aims-if :
      (t : Bool) (m k : M SyntaxNode)
      → Aims I s p n m
      → Aims I s p n k
      → Aims I s p n (if t then m else k)
  Aims-if = Triple-if I (Answer s p n)

  -- A lower level is a level.
  pub Aims-mono : (m : ℕ) (f : M SyntaxNode) → n ≤ m → Aims I s p n f → Aims I s p m f
  Aims-mono m f le h = record {
    runs = λ c i.
        Meets-weaken (Answer s p n) (Answer s p m) (λ a _ h. (IsAhead-mono s p le a h.0, h.1)) (f c)
          (h.runs c i);
  }

  pub Aims-try :
      (mc : Memchr) (engine : RegexEngine) (ps : ElementParsers) (granularity : ParseGranularity)
      (re : Regex) (parser later : M SyntaxNode)
      → Aims I s p n parser
      → Aims I s p n later
      → Aims I s p n (try mc engine ps granularity re parser later)
  unfolding try
  Aims-try mc engine ps granularity re parser later hp hl =
      Aims-bind _ _ (looking_at-Same mc engine re) (λ found. Aims-if _ _ _ hp hl)

module _ (mc : Memchr) (engine : RegexEngine) (ps : ElementParsers) (granularity : ParseGranularity)
    (s : Str) (contract : Contract s ps) (structure : Option ListStruct) (limit start : ℕ)
    (aff : Option AffiliatedData) where
  -- A parser whose contents begin further on.
  strict : (m : M SyntaxNode) → AheadFrom s 0 start m → AheadFrom s 1 start m
  strict m = Aims-mono (Inside s start) s start 0 1 m (omega arith)

  or_try :
      (re : Regex) (parser later : M SyntaxNode)
      → AheadFrom s 1 start parser
      → AheadFrom s 1 start later
      → AheadFrom s 1 start (try mc engine ps granularity re parser later)
  or_try = Aims-try (Inside s start) s start 1 mc engine ps granularity

  plain_list-AheadFrom :
      AheadFrom s 1 start (plain_list mc engine ps granularity structure limit start aff)
  unfolding plain_list
  plain_list-AheadFrom =
      Aims-bind (Inside s start) s start 1 _ _ (contract.list_struct_keeps limit)
        (λ computed. contract.plain_list_parser_ahead limit start aff _)

  without_hashtag-AheadFrom :
      AheadFrom s 1 start (without_hashtag mc engine ps granularity structure limit start aff)
  unfolding without_hashtag
  without_hashtag-AheadFrom =
      or_try _ _ _ (strict _ (contract.footnote_definition_parser_ahead limit start aff)) (
        or_try _ _ _ (strict _ (contract.horizontal_rule_parser_ahead limit start aff)) (
          or_try _ _ _ (strict _ (contract.diary_sexp_parser_ahead limit start aff)) (
            or_try _ _ _ (contract.table_parser_ahead limit start aff) (
              or_try _ _ _ plain_list-AheadFrom
                (strict _ (contract.paragraph_parser_ahead limit start aff))))))

  hashtag_or_other-AheadFrom :
      AheadFrom s 1 start (hashtag_or_other mc engine ps granularity structure limit start aff)
  unfolding hashtag_or_other after_hashtag
  hashtag_or_other-AheadFrom =
      Aims-bind (Inside s start) s start 1 _ _ (looking_at-Same mc engine regex_starts_with_hashtag)
        (λ found.
          Triple-option (Inside s start) (Answer s start 1) found _ _ without_hashtag-AheadFrom
            (λ m. record { runs = λ c i. tt }))

  pub with_affiliated-AheadFrom :
      AheadFrom s 1 start (with_affiliated mc engine ps granularity structure limit start aff)
  unfolding with_affiliated
  with_affiliated-AheadFrom =
      or_try _ _ _ (strict _ (contract.latex_environment_parser_ahead limit start aff)) (
        or_try _ _ _ (strict _ (contract.drawer_parser_ahead limit start aff)) (
          or_try _ _ _ (strict _ (contract.fixed_width_parser_ahead limit start aff))
            hashtag_or_other-AheadFrom))
