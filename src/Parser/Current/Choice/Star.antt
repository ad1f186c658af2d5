-- ===== src/Parser/Current/Choice/Star.antt =====
-- The test for a star at the beginning of a line above (parser.rs).
use mathlib.Core.Path.{subst}
use org_rs.Prelude.{
  ℕ, zero, suc, ◌+◌, ◌≤◌, ◌≡◌, inl, inr, refl, sym, ◌∙◌, ap, Bool, Option, some, List, [], ◌∷◌,
  ◌++◌, arith, length, get_elem?, get_elem?-append_length,
}
use org_rs.Prelude.Int.{ℤ, pos, negsuc}
use org_rs.Crates.Memchr.{Memchr}
use org_rs.Crates.Regex.{RegexEngine}
use org_rs.Cursor.Lines.{line_beginning_position}
use org_rs.Cursor.Lines.Begin.{line_beginning_position-BeginAnswer}
use org_rs.Cursor.Lines.Places.{head, char_after-place, Starts-place, AllChars-behind}
use org_rs.Cursor.Lines.Spec.{IsLineBegin, IsLineBegin-unique, LinesUp, Starts}
use org_rs.Cursor.Moves.{char_after}
use org_rs.Cursor.Moves.Zipper.{place}
use org_rs.Cursor.State.{new}
use org_rs.Parser.Current.{after_headline, is_star}
use org_rs.Parser.Current.Choice.{StarAbove}
use org_rs.Parser.Interface.{ElementParsers}
use org_rs.Parser.Mode.{ParseGranularity}
use org_rs.Rust.Outcome.{ok}
use org_rs.Rust.Str.{Str}
use org_rs.Rust.Utf8.{Char, encode, encode_all}
use org_rs.Rust.Utf8.Encoding.{AllChars, encode_all-append}

LinesUp-Starts : (s : Str) (k a b : ℕ) → Starts s a → LinesUp s k a b → Starts s b
LinesUp-Starts s zero a b starts same = subst (Starts s) (sym same) starts
LinesUp-Starts s (suc k) a b starts (inl (top, bottom)) = inl bottom
LinesUp-Starts s (suc k) a b starts (inr (lower, (m, begins, up))) =
    LinesUp-Starts s k m b begins.starts up

pub own-IsLineBegin : (s : Str) (p : ℕ) → Starts s p → IsLineBegin s p p
own-IsLineBegin s p starts = record {
  below = omega arith;
  starts = starts;
  clear = λ i lo hi same. omega arith;
}

-- A star is a byte.
star-byte : (c : Char) (t : Str) → is_star (some c) ≡ is_star (get_elem? (encode c ++ t) 0)
unfolding encode
star-byte c t = ground arith

star-place :
    (before behind : List Char)
    → is_star (head behind) ≡ is_star (get_elem? (encode_all (before ++ behind)) (place before))
unfolding encode_all
star-place before behind =
    star-head behind
    ∙ ap is_star (sym (get_elem?-append_length (encode_all before) (encode_all behind) 0))
    ∙ ap (λ (t : Str). is_star (get_elem? t (place before + 0)))
        (sym (encode_all-append before behind))
    ∙ ap (λ k. is_star (get_elem? (encode_all (before ++ behind)) k)) (omega arith)
  where
    star-head : (l : List Char) → is_star (head l) ≡ is_star (get_elem? (encode_all l) 0)
    star-head [] = refl
    star-head (c ∷ l) = star-byte c (encode_all l)

module _ (mc : Memchr) (engine : RegexEngine) (ps : ElementParsers) (granularity : ParseGranularity)
    (cs : List Char) (valid : AllChars cs) (p : ℕ) where
  abbrev s : Str
  s = encode_all cs

  -- At a line's beginning `char_after` reads the character there.
  char_after-Starts :
      (b : ℕ)
      → Starts s b
      → (o : Option Char) × (char_after b (new s p) ≡ ok (o, new s p))
        × (is_star o ≡ is_star (get_elem? s b))
  char_after-Starts b starts =
      let (before, behind, split, at) = Starts-place cs b starts in
      (
        head behind,
        subst (λ x. char_after x (new s p) ≡ ok (head behind, new s p)) (sym at)
            (subst
              (λ (l : List Char).
                char_after (place before) (new (encode_all l) p)
                ≡ ok (head behind, new (encode_all l) p))
              (sym split)
              (char_after-place before behind p
                (AllChars-behind before behind (subst AllChars split valid)))),
        star-place before behind
            ∙ ap (λ (l : List Char). is_star (get_elem? (encode_all l) (place before))) (sym split)
            ∙ ap (λ x. is_star (get_elem? s x)) (sym at),
      )

  after_headline-run :
      (delta : ℤ) (b : ℕ) (o : Option Char)
      → line_beginning_position mc (some delta) (new s p) ≡ ok (b, new s p)
      → char_after b (new s p) ≡ ok (o, new s p)
      → after_headline mc engine ps granularity delta (new s p) ≡ ok (is_star o, new s p)
  unfolding after_headline
  after_headline-run delta b o begun read = rw (begun, read) refl

  abbrev pub Tests : ℕ → ℤ → Type 0
  Tests k delta =
      (t : Bool) × (after_headline mc engine ps granularity delta (new s p) ≡ ok (t, new s p))
      × StarAbove s k p t

  after_headline-at :
      (k : ℕ) (delta : ℤ) (b : ℕ)
      → Starts s p
      → line_beginning_position mc (some delta) (new s p) ≡ ok (b, new s p)
      → LinesUp s k p b
      → Tests k delta
  after_headline-at k delta b starts run up =
      let (o, read, tells) = char_after-Starts b (LinesUp-Starts s k p b starts up) in
      (is_star o, after_headline-run delta b o run read, (b, up, tells))

  -- The tests look one line above, and two.
  pub one_above : Starts s p → p ≤ length s → Tests 1 (pos 0)
  one_above starts inside =
      let (b, run, (a, begins, up)) =
        line_beginning_position-BeginAnswer mc s p (some (pos 0)) inside tt in
      after_headline-at 1 (pos 0) b starts run
        (subst (λ x. LinesUp s 1 x b) (IsLineBegin-unique begins (own-IsLineBegin s p starts)) up)

  pub two_above : Starts s p → p ≤ length s → Tests 2 (negsuc 0)
  two_above starts inside =
      let (b, run, (a, begins, up)) =
        line_beginning_position-BeginAnswer mc s p (some (negsuc 0)) inside (omega arith) in
      after_headline-at 2 (negsuc 0) b starts run
        (subst (λ x. LinesUp s 2 x b) (IsLineBegin-unique begins (own-IsLineBegin s p starts)) up)
