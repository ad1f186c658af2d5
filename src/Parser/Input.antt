-- ===== src/Parser/Input.antt =====
-- `struct Parser`, `Parser::new`, and the parse of its input (parser.rs).
use mathlib.Core.Path.{subst}
use org_rs.Prelude.{ℕ, ◌≡◌, refl, ◌∙◌, ap, List}
use org_rs.Crates.Memchr.{Memchr}
use org_rs.Crates.Regex.{RegexEngine}
use org_rs.Cursor.Moves.Whitespace.{skipped, left}
use org_rs.Cursor.Moves.Zipper.{between}
use org_rs.Cursor.Runs.{Meets}
use org_rs.Cursor.State
use org_rs.Cursor.State.{Cursor}
use org_rs.Data.Syntax.{SyntaxNode}
use org_rs.Parser.Contract.{Contract}
use org_rs.Parser.Current.Ensures.{AllEnsure}
use org_rs.Parser.Elements
use org_rs.Parser.Elements.Buffer.{enough_fuel, Parsed, parse_buffer-Parsed, skipped-left}
use org_rs.Parser.Elements.Kinds.{Kinds}
use org_rs.Parser.Elements.Spec.{Leaf}
use org_rs.Parser.Interface.{ElementParsers}
use org_rs.Parser.Mode.{ParseGranularity}
use org_rs.Rust.Outcome.{Outcome, ok, panic, stuck}
use org_rs.Rust.Str.{Str}
use org_rs.Rust.Utf8.{Char, encode_all}
use org_rs.Rust.Utf8.Encoding.{AllChars}

pub record Parser : Type 0 where
  pub cursor : Cursor
  pub input : Str
  pub granularity : ParseGranularity

-- `Parser::new`
abbrev pub new : Str → ParseGranularity → Parser
new input granularity = record {
  cursor = State.new input 0;
  input = input;
  granularity = granularity;
}

-- The cursor goes over the input of the parser.
abbrev pub IsValid : Parser → Type 0
IsValid p = p.cursor.text ≡ p.input

-- A method with the cursor that it leaves behind.
abbrev pub left_at {ℓ} : {A : Type ℓ} → Parser → Outcome (A × Cursor) → Outcome (A × Parser)
left_at p (ok (a, c)) = ok (a, record p { cursor = c })
left_at p (panic x) = panic x
left_at p stuck = stuck

module _ (mc : Memchr) (engine : RegexEngine) (ps : ElementParsers) where
  unfoldable pub run_parse_buffer : ℕ → Parser → Outcome (SyntaxNode × Parser)
  run_parse_buffer fuel p =
      left_at p (Elements.parse_buffer mc engine ps p.granularity fuel p.cursor)

left_at-ok :
    {A : Type 0} (p p' : Parser) (a : A) (r : Outcome (A × Cursor))
    → left_at p r ≡ ok (a, p')
    → (d : Cursor) × (r ≡ ok (a, d)) × (record p { cursor = d } ≡ p')
left_at-ok p p' a (ok (b, d)) e = (d, cc, cc)
left_at-ok p p' a (panic x) e = cc
left_at-ok p p' a stuck e = cc

module _ (mc : Memchr) (engine : RegexEngine) (ps : ElementParsers) (granularity : ParseGranularity)
    (P : SyntaxNode → Type 0) (cs : List Char) (valid : AllChars cs)
    (contract : Contract (encode_all cs) ps) (all : AllEnsure (Leaf P) ps) (kinds : Kinds ps) where
  abbrev input : Str
  input = encode_all cs

  abbrev parsed : Cursor → Outcome (SyntaxNode × Cursor)
  parsed = Elements.parse_buffer mc engine ps granularity (enough_fuel input)

  -- The parse begins with the cursor set to 0.
  parsed-anywhere : (d : Cursor) → d.text ≡ input → parsed d ≡ parsed (State.new input 0)
  unfolding Elements.parse_buffer
  parsed-anywhere d text = λ i. parsed (record { text = text i; pos = 0 })

  parsed-text :
      (root : SyntaxNode) (d : Cursor) → parsed (State.new input 0) ≡ ok (root, d) → d.text ≡ input
  parsed-text root d e =
      let meets = parse_buffer-Parsed mc engine ps granularity P cs valid contract all kinds 0 in
      let found =
        subst
          (Meets (λ root d.
            (d ≡ between (skipped cs) (left cs)) × Parsed engine input P granularity root))
          e meets in
      ap (λ (c : Cursor). c.text) found.0 ∙ ap encode_all (skipped-left cs)

  again :
      (root : SyntaxNode) (d : Cursor)
      → parsed (State.new input 0) ≡ ok (root, d)
      → run_parse_buffer mc engine ps
          (enough_fuel input)
          (record { cursor = d; input = input; granularity = granularity })
        ≡ ok (root, record { cursor = d; input = input; granularity = granularity })
  unfolding run_parse_buffer
  again root d e = rw (parsed-anywhere d (parsed-text root d e), e) refl

  -- Under the conditions of `parse_buffer-Parsed`: when a new parser for a text of characters has
  -- parsed it, its input is still that text and its cursor goes over it, and parsing again returns the
  -- same root and leaves the same parser.
  pub parse_buffer-again :
      (root : SyntaxNode) (p : Parser)
      → run_parse_buffer mc engine ps (enough_fuel input) (new input granularity) ≡ ok (root, p)
      → (p.input ≡ input)
        × IsValid p
        × (run_parse_buffer mc engine ps (enough_fuel input) p ≡ ok (root, p))
  unfolding run_parse_buffer
  parse_buffer-again root p e =
      let (d, run, same) = left_at-ok (new input granularity) p root _ e in
      subst
        (λ q.
          (q.input ≡ input)
          × IsValid q
          × (run_parse_buffer mc engine ps (enough_fuel input) q ≡ ok (root, q)))
        same (refl, parsed-text root d run, again root d run)
