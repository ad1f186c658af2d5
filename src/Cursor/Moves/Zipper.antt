-- ===== src/Cursor/Moves/Zipper.antt =====
-- A cursor between two characters of a text, and the moves by one character.
use org_rs.Prelude.{
  ℕ, suc, ◌+◌, ◌≤◌, ◌≡◌, refl, sym, ◌∙◌, ap, none, some, List, [], ◌∷◌, ◌++◌, append_assoc,
  append-nil, arith, length, length-append,
}
use org_rs.Cursor.Metric.{base_metric, base_next, base_prev}
use org_rs.Cursor.Metric.CharSplit.{whole, str_from-split, base_next-split, base_prev-split}
use org_rs.Cursor.Moves.{next, prev, get_next_char, get_prev_char}
use org_rs.Cursor.Moves.Arrive.{next-arrive, prev-arrive}
use org_rs.Cursor.State.{Cursor, new}
use org_rs.Rust.Outcome.{ok}
use org_rs.Rust.Str.{Str, str_from}
use org_rs.Rust.Utf8.{Char, IsChar, encode, encode_all}
use org_rs.Rust.Utf8.Encoding.{AllChars, Shape, encode-Shape, first_char-encode, encode_all-append}

-- The byte position behind the characters `before`.
abbrev pub place : List Char → ℕ
place before = length (encode_all before)

abbrev pub between : List Char → List Char → Cursor
between before behind = new (encode_all (before ++ behind)) (place before)

module _ (before : List Char) (c : Char) (behind : List Char) (valid : IsChar c) where
  abbrev pub text : Str
  text = encode_all (before ++ c ∷ behind)

  abbrev pub shape : Shape c
  shape = encode-Shape c valid

  encode_all-cons : encode_all (c ∷ behind) ≡ encode c ++ encode_all behind
  unfolding encode_all
  encode_all-cons = refl

  text-split : text ≡ encode_all before ++ (encode c ++ encode_all behind)
  text-split =
      encode_all-append before (c ∷ behind)
      ∙ ap (λ (t : Str). encode_all before ++ t) encode_all-cons

  pub text-whole : text ≡ whole (encode_all before) shape.lead shape.rest (encode_all behind)
  text-whole =
      text-split ∙ ap (λ (t : Str). encode_all before ++ (t ++ encode_all behind)) shape.bytes

  place-concat : place (before ++ c ∷ []) ≡ place before + suc (length shape.rest)
  unfolding encode_all
  place-concat =
      ap length (encode_all-append before (c ∷ []))
      ∙ length-append (encode_all before) (encode c ++ [])
      ∙ ap (λ (t : Str). place before + length t) (append-nil (encode c) ∙ shape.bytes)

  base_next-char : base_next text (place before) ≡ ok (some (place (before ++ c ∷ [])))
  base_next-char =
      rw (text-whole, place-concat)
        (base_next-split _ _ shape.rest (encode_all behind) shape.length_announced)

  str_from-char : str_from text (place before) ≡ ok (encode c ++ encode_all behind)
  str_from-char =
      rw (text-whole, shape.bytes)
        (str_from-split _ _ shape.rest (encode_all behind) shape.is_lead_byte)

  base_prev-char : base_prev text (place (before ++ c ∷ [])) ≡ ok (some (place before))
  base_prev-char =
      rw (text-whole, place-concat)
        (base_prev-split _ _ shape.rest (encode_all behind) shape.is_lead_byte shape.continues)

  -- The cursor behind the character, as the text is bracketed before it.
  between-shift : new text (place (before ++ c ∷ [])) ≡ between (before ++ c ∷ []) behind
  between-shift =
      ap (λ (t : List Char). new (encode_all t) (place (before ++ c ∷ [])))
        (sym (append_assoc before (c ∷ []) behind))

  -- Between two characters `get_next_char` returns the one behind the cursor and moves over it.
  pub get_next_char-some :
      get_next_char (between before (c ∷ behind)) ≡ ok (some c, between (before ++ c ∷ []) behind)
  unfolding get_next_char
  get_next_char-some =
      ground (
        arith,
        next-arrive base_metric text (place before) (some (place (before ++ c ∷ [])))
            base_next-char,
        str_from-char,
        first_char-encode c (encode_all behind) valid,
      )
      ∙ ap (λ (k : Cursor). ok (some c, k)) between-shift

  -- Between two characters `get_prev_char` returns the one before the cursor and moves back over it.
  pub get_prev_char-some :
      get_prev_char (between (before ++ c ∷ []) behind) ≡ ok (some c, between before (c ∷ behind))
  unfolding get_prev_char
  get_prev_char-some =
      ap get_prev_char (sym between-shift)
      ∙ ground (
        arith,
        prev-arrive base_metric text (place (before ++ c ∷ [])) (some (place before))
            base_prev-char,
        str_from-char,
        first_char-encode c (encode_all behind) valid,
      )

-- At the end of the text there is no next character, and at its start no previous one.
pub get_next_char-none :
    (before : List Char) → get_next_char (between before []) ≡ ok (none, between before [])
unfolding get_next_char base_next next
get_next_char-none before = rw append-nil (ground arith)

pub get_prev_char-none :
    (behind : List Char) → get_prev_char (between [] behind) ≡ ok (none, between [] behind)
unfolding get_prev_char base_prev prev encode_all
get_prev_char-none behind = refl

-- Every character takes a byte at least.
pub length-le-place : (cs : List Char) → AllChars cs → length cs ≤ place cs
unfolding encode_all
length-le-place [] valid = omega arith
length-le-place (c ∷ cs) valid =
    let shape : Shape c = encode-Shape c valid.0 in
    omega (
      arith,
      length-le-place cs valid.1,
      length-append (encode c) (encode_all cs),
      ap length shape.bytes,
    )
