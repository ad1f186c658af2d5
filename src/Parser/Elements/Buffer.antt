-- ===== src/Parser/Elements/Buffer.antt =====
-- `parse_buffer` under the contract of the element parsers (parser.rs).
use mathlib.Core.Path.{subst}
use org_rs.Prelude.{ℕ, ◌+◌, ◌*◌, ◌≡◌, refl, ap, none, List, [], ◌∷◌, ◌++◌, arith, length}
use org_rs.Crates.Memchr.{Memchr}
use org_rs.Crates.Regex.{RegexEngine}
use org_rs.Cursor.Moves.Whitespace.{skipped, left, skip_whitespace-skipped}
use org_rs.Cursor.Moves.Zipper.{between}
use org_rs.Cursor.Runs.{Meets, Meets-bound}
use org_rs.Cursor.State.{Cursor, new, pure, ◌>>=◌}
use org_rs.Data.Syntax.{children_of, Syntax, SyntaxNode, data_of, create_root, replace_children}
use org_rs.Parser.Contract.{Contract}
use org_rs.Parser.Current.Ensures.{AllEnsure}
use org_rs.Parser.Elements.{parse_elements, parse_buffer}
use org_rs.Parser.Elements.Tiling.{parse_elements-Tiled}
use org_rs.Parser.Elements.Kinds.{Kinds}
use org_rs.Parser.Elements.Spec.{Leaf, AllGrown, TiledFrom}
use org_rs.Parser.Elements.Tree.{parse_elements-AllGrown}
use org_rs.Parser.Interface.{ElementParsers}
use org_rs.Parser.Mode.{ParseGranularity, first_section}
use org_rs.Rust.Outcome.{Outcome, ok, panic, stuck}
use org_rs.Rust.Str.{Str}
use org_rs.Rust.Utf8.{Char, encode_all}
use org_rs.Rust.Utf8.Encoding.{AllChars}

pub skipped-left : (cs : List Char) → skipped cs ++ left cs ≡ cs
skipped-left [] = refl
skipped-left (c ∷ []) = ground arith
skipped-left (c ∷ d ∷ r) = ground (arith, skipped-left r)

-- A run that ends, with what is known of its result.
Meets-and :
    {A : Type 0} (P : A → Cursor → Type 0) (Q : A → Type 0) (r : Outcome (A × Cursor))
    → Meets P r
    → ((c : Cursor) (a : A) → r ≡ ok (a, c) → Q a)
    → Meets (λ a c. P a c × Q a) r
Meets-and P Q (ok (a, c)) h hq = (h, hq c a refl)
Meets-and P Q (panic x) h hq = tt
Meets-and P Q stuck h hq = h

-- Three rounds for every byte of the text, and three more.
abbrev pub enough_fuel : Str → ℕ
enough_fuel s = 3 * length s + 3

-- The root with the elements of the text `s` below it, from the first byte to the last.
abbrev pub Parsed :
    RegexEngine → Str → (SyntaxNode → Type 0) → ParseGranularity → SyntaxNode → Type 0
Parsed engine s P granularity root =
    (data_of root ≡ Syntax.org_data)
    × TiledFrom engine granularity s 0 (length s) (children_of root)
    × AllGrown P granularity first_section (children_of root)

module _ (mc : Memchr) (engine : RegexEngine) (ps : ElementParsers) (granularity : ParseGranularity)
    (P : SyntaxNode → Type 0) (cs : List Char) (valid : AllChars cs)
    (contract : Contract (encode_all cs) ps) (all : AllEnsure (Leaf P) ps) (kinds : Kinds ps) where
  elements-Parsed :
      (d : Cursor)
      → d.text ≡ encode_all cs
      → Meets
          (λ root e. (e ≡ d) × Parsed engine (encode_all cs) P granularity root)
          ((do
            children ←
                parse_elements mc engine ps granularity
                  (enough_fuel (encode_all cs))
                  0
                  (length d.text)
                  first_section
                  none
            pure (replace_children create_root children))
            d)
  elements-Parsed d text =
      let fuel = enough_fuel (encode_all cs) in
      let same : length d.text ≡ length (encode_all cs) = ap (λ (t : Str). length t) text in
      Meets-bound
        (λ kids e.
          ((e ≡ d) × TiledFrom engine granularity (encode_all cs) 0 (length d.text) kids)
          × AllGrown P granularity first_section kids)
        _ _
        (λ kids e h. (
          h.0.0,
          (
            refl,
            subst (λ n. TiledFrom engine granularity (encode_all cs) 0 n kids) same h.0.1,
            h.1,
          ),
        ))
        (parse_elements mc engine ps granularity fuel 0 (length d.text) first_section none d)
        (Meets-and
          (λ kids e. (e ≡ d) × TiledFrom engine granularity (encode_all cs) 0 (length d.text) kids)
          (AllGrown P granularity first_section) _
          (parse_elements-Tiled mc engine ps granularity (encode_all cs) contract fuel 0
            (length d.text) first_section none (omega arith) (omega arith) (omega arith) d text)
          (λ e kids.
            parse_elements-AllGrown mc engine ps granularity P all kinds fuel 0 (length d.text)
              first_section none d e kids))

  -- On a text of characters, from any position, `parse_buffer` ends on fuel three times the length of
  -- the text and three, under the contract of the element parsers and if they return childless
  -- elements with `P` and of their kind: it panics, or returns a root whose elements cover the text
  -- without a gap and are those that the granularity and the modes allow, with the cursor where
  -- `skip_whitespace` leaves it. The elements cover the text from its first byte to its last; with
  -- granularity `Headline`, if the first line is no headline, only from the first headline behind it
  -- on, or where there is none, from the second line on (on a single line all of it).
  pub parse_buffer-Parsed :
      (p : ℕ)
      → Meets
          (λ root d.
            (d ≡ between (skipped cs) (left cs)) × Parsed engine (encode_all cs) P granularity root)
          (parse_buffer mc engine ps granularity
            (enough_fuel (encode_all cs))
            (new (encode_all cs) p))
  unfolding parse_buffer encode_all
  parse_buffer-Parsed p =
      rw (skip_whitespace-skipped [] cs valid)
        (elements-Parsed (between (skipped cs) (left cs)) (ap encode_all (skipped-left cs)))
