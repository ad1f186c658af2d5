-- ===== src/Parser/Current/Choice/First.antt =====
-- The runs of the stages of `current_element` at the beginning of a line (parser.rs).
use org_rs.Prelude.{
  ℕ, zero, suc, ◌-◌, ◌≤◌, ◌≡◌, refl, sym, ◌∙◌, ap, Bool, true, false, ◌&&◌, Option, List, [], ◌∷◌,
  arith, length, length-drop, drop, take, Bool-cases, Option-cases, inl, inr, if◌then◌else◌,
}
use org_rs.Affiliated.Output.{AffiliatedData}
use org_rs.Crates.Memchr.{Memchr}
use org_rs.Crates.Regex.{Regex, RegexEngine}
use org_rs.Cursor.Lines.Spec.{NextAnswer}
use org_rs.Cursor.Regexes.{
  looking_at, haystack_end, is_multiline_regex, is_some, regex_empty_line, regex_headline_short,
}
use org_rs.Cursor.Regexes.Line.{rest_of_line, looking_at-line, NextAnswer-unique}
use org_rs.Cursor.State.{M, new, lift}
use org_rs.Data.Outline.{ListStruct}
use org_rs.Data.Syntax.{SyntaxNode}
use org_rs.Parser.Branch.{
  try, after_hashtag, without_hashtag, hashtag_or_other, with_affiliated, plain_list,
}
use org_rs.Parser.Current.Choice.{Rule, rule, first_match, look, rules_with_affiliated}
use org_rs.Parser.Expressions.{
  regex_starts_with_hashtag, regex_footnote_definition, regex_horizontal_rule, regex_diary_sexp,
  regex_table_border, regex_item,
}
use org_rs.Parser.Interface.{ElementParsers}
use org_rs.Parser.Mode.{ParseGranularity}
use org_rs.Rust.Outcome.{ok, panic, already_borrowed}
use org_rs.Rust.Str.{Str, str_between, is_char_boundary, contains}

take-all : (n : ℕ) (xs : Str) → length xs ≤ n → take n xs ≡ xs
take-all zero [] h = refl
take-all zero (x ∷ xs) h = absurd (omega arith)
take-all (suc n) [] h = refl
take-all (suc n) (x ∷ xs) h = ap (λ (l : Str). x ∷ l) (take-all n xs (omega arith))

slice-to_end :
    (s : Str) (p : ℕ)
    → p ≤ length s
    → is_char_boundary s p ≡ true
    → str_between s p (length s) ≡ ok (drop p s)
unfolding str_between is_char_boundary
slice-to_end s p inside boundary =
    ground (arith, take-all (length s - p) (drop p s) (omega (arith, length-drop p s)))

pub headline-single : is_multiline_regex regex_headline_short ≡ false
unfolding is_multiline_regex contains
headline-single = refl

pub empty-single : is_multiline_regex regex_empty_line ≡ false
unfolding is_multiline_regex contains
empty-single = refl

module _ (mc : Memchr) (engine : RegexEngine) (s : Str) (p : ℕ) (r : Option ℕ)
    (inside : p ≤ length s) (boundary : is_char_boundary s p ≡ true)
    (answer : NextAnswer s p r) where
  looks-single :
      (re : Regex)
      → is_multiline_regex re ≡ false
      → looking_at mc engine re (new s p) ≡ ok (look engine s p r re, new s p)
  looks-single re single =
      let (r', answer', run) = looking_at-line mc engine s re p single inside boundary in
      run
      ∙ ap (λ (x : Option ℕ). ok (engine.find re (rest_of_line s p x), new s p))
          (NextAnswer-unique s p r r' answer answer')
      ∙ ap (λ (b : Bool). ok (engine.find re (if b then drop p s else rest_of_line s p r), new s p))
          (sym single)

  looks-text :
      (re : Regex)
      → is_multiline_regex re ≡ true
      → looking_at mc engine re (new s p) ≡ ok (engine.find re (drop p s), new s p)
  unfolding looking_at haystack_end
  looks-text re many = rw (many, slice-to_end s p inside boundary) refl

  looks-multiline :
      (re : Regex)
      → is_multiline_regex re ≡ true
      → looking_at mc engine re (new s p) ≡ ok (look engine s p r re, new s p)
  looks-multiline re many =
      looks-text re many
      ∙ ap (λ (b : Bool). ok (engine.find re (if b then drop p s else rest_of_line s p r), new s p))
          (sym many)

  pub looks : (re : Regex) → looking_at mc engine re (new s p) ≡ ok (look engine s p r re, new s p)
  looks re = elim (Bool-cases (is_multiline_regex re)) [
    | inl many ↦ looks-multiline re many
    | inr single ↦ looks-single re single
  ]

  -- From `p` the method runs as the first of the rules that applies.
  pub record First (rules : List Rule) (d m : M SyntaxNode) : Type 0 where
    pub runs : m (new s p) ≡ first_match (look engine s p r) rules d (new s p)

  pub First-default : (d : M SyntaxNode) → First [] d d
  First-default d = record { runs = refl }

  -- A test, a guard before it, and what follows it are a rule and the rules that follow it.
  pub guarded-First :
      (guard : Bool) (re : Regex) (parser later d m : M SyntaxNode) (rules : List Rule)
      → (m (new s p)
          ≡ (if guard && is_some (look engine s p r re) then parser else later) (new s p))
      → First rules d later
      → First (rule guard re parser ∷ rules) d m
  guarded-First guard re parser later d m rules run h = record {
    runs = run ∙ chosen (guard && is_some (look engine s p r re));
  }
    where
      chosen :
          (t : Bool)
          → (if t then parser else later) (new s p)
            ≡ (if t then parser else first_match (look engine s p r) rules d) (new s p)
      chosen true = refl
      chosen false = h.runs

  module _ (ps : ElementParsers) (granularity : ParseGranularity) where
    try-run :
        (re : Regex) (parser later : M SyntaxNode)
        → try mc engine ps granularity re parser later (new s p)
          ≡ (if is_some (look engine s p r re) then parser else later) (new s p)
    unfolding try
    try-run re parser later = rw (looks re) refl

    pub try-First :
        {re : Regex} {parser later d : M SyntaxNode} {rules : List Rule}
        → First rules d later
        → First (rule true re parser ∷ rules) d (try mc engine ps granularity re parser later)
    try-First {re} {parser} {later} {d} {rules} h =
        guarded-First true re parser later d _ rules (try-run re parser later) h

    module _ (structure : Option ListStruct) (limit start : ℕ) (aff : Option AffiliatedData) where
      abbrev d : M SyntaxNode
      d = ps.paragraph_parser limit start aff

      without_hashtag-First :
          First
            (rule true regex_footnote_definition (ps.footnote_definition_parser limit start aff)
              ∷ rule true regex_horizontal_rule (ps.horizontal_rule_parser limit start aff)
              ∷ rule true regex_diary_sexp (ps.diary_sexp_parser limit start aff)
              ∷ rule true regex_table_border (ps.table_parser limit start aff)
              ∷ rule true regex_item (plain_list mc engine ps granularity structure limit start aff)
              ∷ [])
            d
            (without_hashtag mc engine ps granularity structure limit start aff)
      unfolding without_hashtag
      without_hashtag-First =
          try-First (try-First (try-First (try-First (try-First (First-default d)))))

      hashtag-run :
          hashtag_or_other mc engine ps granularity structure limit start aff (new s p)
          ≡ (if is_some (look engine s p r regex_starts_with_hashtag)
                then lift (panic already_borrowed)
                else without_hashtag mc engine ps granularity structure limit start aff)
              (new s p)
      unfolding hashtag_or_other after_hashtag
      hashtag-run = elim (Option-cases (look engine s p r regex_starts_with_hashtag)) [
        | inl other ↦ rw (looks regex_starts_with_hashtag, other) refl
        | inr (m, found) ↦ rw (looks regex_starts_with_hashtag, found) refl
      ]

      pub with_affiliated-First :
          First
            (rules_with_affiliated mc engine ps granularity structure limit start aff)
            d
            (with_affiliated mc engine ps granularity structure limit start aff)
      unfolding with_affiliated
      with_affiliated-First = try-First (
          try-First (
            try-First (
              guarded-First true regex_starts_with_hashtag _ _ d _ _ hashtag-run
                without_hashtag-First)))
