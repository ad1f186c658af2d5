-- ===== src/Cursor/Lines/Places.antt =====
-- Where lines begin in an encoded text: between two characters.
use mathlib.Core.Path.{subst}
use org_rs.Prelude.{
  ℕ, zero, suc, ◌+◌, ◌-◌, ◌<◌, ◌≡◌, ◌⊎◌, inl, inr, refl, sym, ◌∙◌, ap, true, Option, none, some,
  List, [], ◌∷◌, ◌++◌, append_assoc, append-nil, arith, length, get_elem?, length-append,
}
use org_rs.Cursor.Lines.Spec.{Starts}
use org_rs.Cursor.Metric.CharSplit.{boundary-split}
use org_rs.Cursor.Moves.{char_after}
use org_rs.Cursor.Moves.Zipper.{place, text-whole, get_next_char-some, get_next_char-none}
use org_rs.Cursor.State.{new}
use org_rs.Rust.Outcome.{ok}
use org_rs.Rust.Str.{Str, newline, is_char_boundary}
use org_rs.Rust.Utf8.{Char, encode, encode_all}
use org_rs.Rust.Utf8.Encoding.{AllChars, encode-Shape, encode_all-append}

get_elem?-append :
    (xs ys : Str) (i : ℕ)
    → ((i < length xs) × (get_elem? (xs ++ ys) i ≡ get_elem? xs i))
      ⊎ ((k : ℕ) × (i ≡ length xs + k) × (get_elem? (xs ++ ys) i ≡ get_elem? ys k))
get_elem?-append [] ys i = inr (i, omega arith, refl)
get_elem?-append (x ∷ xs) ys zero = inl (omega arith, refl)
get_elem?-append (x ∷ xs) ys (suc i) = elim (get_elem?-append xs ys i) [
  | inl (here, same) ↦ inl (omega arith, same)
  | inr (k, there, same) ↦ inr (k, omega (arith, there), same)
]

-- A newline is a character of one byte, and no byte of another character.
newline-lead : (c : Char) (i : ℕ) → get_elem? (encode c) i ≡ some newline → (i ≡ 0) × (c ≡ newline)
unfolding encode
newline-lead c zero e = (refl, ground arith)
newline-lead c (suc zero) e = absurd (ground arith)
newline-lead c (suc (suc zero)) e = absurd (ground arith)
newline-lead c (suc (suc (suc zero))) e = absurd (ground arith)
newline-lead c (suc (suc (suc (suc i)))) e = absurd (ground arith)

place-cons : (c : Char) (cs : List Char) → place (c ∷ cs) ≡ length (encode c) + place cs
unfolding encode_all
place-cons c cs = length-append (encode c) (encode_all cs)

-- A newline in the bytes is one of the characters.
newline-place :
    (cs : List Char) (i : ℕ)
    → get_elem? (encode_all cs) i ≡ some newline
    → (before behind : List Char) × (cs ≡ before ++ newline ∷ behind) × (i ≡ place before)
unfolding encode_all
newline-place [] i e = cc
newline-place (c ∷ cs) i e = elim (get_elem?-append (encode c) (encode_all cs) i) [
  | inl (here, same) ↦
      let (first, is_newline) = newline-lead c i (sym same ∙ e) in
      ([], cs, ap (λ x. x ∷ cs) is_newline, first)
  | inr (k, there, same) ↦
      let (before, behind, split, at) = newline-place cs k (sym same ∙ e) in
      (
        c ∷ before,
        behind,
        ap (λ (l : List Char). c ∷ l) split,
        there ∙ ap (λ x. length (encode c) + x) at ∙ sym (place-cons c before),
      )
]

place-newline : (before : List Char) → place (before ++ newline ∷ []) ≡ suc (place before)
unfolding encode_all encode
place-newline before =
    ap length (encode_all-append before (newline ∷ []))
    ∙ length-append (encode_all before) (encode newline ++ [])
    ∙ omega arith

-- A line begins at a place between two characters.
pub Starts-place :
    (cs : List Char) (b : ℕ)
    → Starts (encode_all cs) b
    → (before behind : List Char) × (cs ≡ before ++ behind) × (b ≡ place before)
unfolding encode_all
Starts-place cs b (inl top) = ([], cs, refl, top)
Starts-place cs b (inr (lower, at_newline)) =
    let (before, behind, split, at) = newline-place cs (b - 1) at_newline in
    (
      before ++ newline ∷ [],
      behind,
      split ∙ sym (append_assoc before (newline ∷ []) behind),
      omega (arith, at, lower, place-newline before),
    )

pub place-boundary :
    (before behind : List Char)
    → AllChars behind
    → is_char_boundary (encode_all (before ++ behind)) (place before) ≡ true
unfolding is_char_boundary
place-boundary before [] valid = rw (append-nil before) (ground arith)
place-boundary before (c ∷ behind) valid =
    subst (λ (t : Str). is_char_boundary t (place before) ≡ true)
      (sym (text-whole before c behind valid.0))
      (boundary-split (encode_all before) (encode-Shape c valid.0).lead
        (encode-Shape c valid.0).rest (encode_all behind) (encode-Shape c valid.0).is_lead_byte)

pub AllChars-behind : (before behind : List Char) → AllChars (before ++ behind) → AllChars behind
AllChars-behind [] behind valid = valid
AllChars-behind (c ∷ before) behind valid = AllChars-behind before behind valid.1

-- Where a line begins, a character begins.
pub Starts-boundary :
    (cs : List Char) (b : ℕ)
    → AllChars cs
    → Starts (encode_all cs) b
    → is_char_boundary (encode_all cs) b ≡ true
Starts-boundary cs b valid starts =
    let (before, behind, split, at) = Starts-place cs b starts in
    subst (λ x. is_char_boundary (encode_all cs) x ≡ true) (sym at)
      (subst (λ (l : List Char). is_char_boundary (encode_all l) (place before) ≡ true) (sym split)
        (place-boundary before behind (AllChars-behind before behind (subst AllChars split valid))))

abbrev pub head : List Char → Option Char
head [] = none
head (c ∷ cs) = some c

pub char_after-place :
    (before behind : List Char) (p : ℕ)
    → AllChars behind
    → char_after (place before) (new (encode_all (before ++ behind)) p)
      ≡ ok (head behind, new (encode_all (before ++ behind)) p)
unfolding char_after
char_after-place before [] p valid = rw (get_next_char-none before) refl
char_after-place before (c ∷ behind) p valid = rw (get_next_char-some before c behind valid.0) (
    ap (λ (l : List Char). ok (some c, new (encode_all l) p)) (append_assoc before (c ∷ []) behind))
