-- ===== src/Cursor/Metric/CharSplit.antt =====
-- Moves by one character over bytes that are split as `a`, one encoded character, and `tail`.
use org_rs.Prelude.{
  ℕ, zero, suc, ◌+◌, ◌-◌, ◌<◌, ◌≡◌, refl, ◌∙◌, ap, true, false, some, [], ◌∷◌, ◌++◌, arith, length,
  get_elem?, get_elem?-append_length, drop-append_length, lt_length-of-get_elem?,
}
use org_rs.Cursor.Metric.{base_next, base_prev, boundary_below, len_utf8_from_first_byte}
use org_rs.Cursor.Metric.Boundaries.{IsBoundaryBelow-unique, boundary_below-IsBoundaryBelow}
use org_rs.Rust.Outcome.{ok}
use org_rs.Rust.Str.{Str, is_lead, is_char_boundary, byte_at, str_from}
use org_rs.Rust.Utf8.Encoding.{AllContinuation, announced}

boundary-lead :
    (s : Str) (i : ℕ) {b : ℕ}
    → get_elem? s i ≡ some b
    → is_lead b ≡ true
    → is_char_boundary s i ≡ true
unfolding is_char_boundary
boundary-lead s i e lead = ground arith

boundary-continuation :
    (s : Str) (i : ℕ) {b : ℕ}
    → 0 < i
    → get_elem? s i ≡ some b
    → is_lead b ≡ false
    → is_char_boundary s i ≡ false
unfolding is_char_boundary
boundary-continuation s i pos e other = ground (arith, lt_length-of-get_elem? s i e)

pub inside-continuation :
    (rest tail : Str) (j : ℕ)
    → AllContinuation rest
    → j < length rest
    → (x : ℕ) × (get_elem? (rest ++ tail) j ≡ some x) × (is_lead x ≡ false)
inside-continuation [] tail j all h = absurd (omega arith)
inside-continuation (x ∷ rest) tail zero all h = (x, refl, all.0)
inside-continuation (x ∷ rest) tail (suc j) all h =
    inside-continuation rest tail j all.1 (omega arith)

len_utf8_from_first_byte-announced : (b : ℕ) → len_utf8_from_first_byte b ≡ announced b
unfolding len_utf8_from_first_byte
len_utf8_from_first_byte-announced b = refl

module _ (a : Str) (b : ℕ) (rest tail : Str) where
  abbrev pub whole : Str
  whole = a ++ ((b ∷ rest) ++ tail)

  byte-lead : get_elem? whole (length a) ≡ some b
  byte-lead = ap (get_elem? whole) (omega arith) ∙ get_elem?-append_length a ((b ∷ rest) ++ tail) 0

  pub boundary-split : is_lead b ≡ true → is_char_boundary whole (length a) ≡ true
  boundary-split lead = boundary-lead whole (length a) byte-lead lead

  pub str_from-split : is_lead b ≡ true → str_from whole (length a) ≡ ok ((b ∷ rest) ++ tail)
  unfolding str_from
  str_from-split lead = rw (boundary-split lead) (ap ok (drop-append_length a ((b ∷ rest) ++ tail)))

  pub base_next-split :
      announced b ≡ suc (length rest)
      → base_next whole (length a) ≡ ok (some (length a + suc (length rest)))
  unfolding base_next byte_at
  base_next-split e = ground (
    arith,
    byte-lead,
    lt_length-of-get_elem? whole (length a) byte-lead,
    len_utf8_from_first_byte-announced b,
    e,
  )

  inside-split :
      (i : ℕ)
      → AllContinuation rest
      → length a < i
      → i < length a + suc (length rest)
      → is_char_boundary whole i ≡ false
  inside-split i all lo hi =
      let j : ℕ = i - length a - 1 in
      let (x, e, other) = inside-continuation rest tail j all (omega arith) in
      let at : get_elem? whole (length a + suc j) ≡ some x =
        get_elem?-append_length a ((b ∷ rest) ++ tail) (suc j) ∙ e in
      boundary-continuation whole i (omega arith) (ap (get_elem? whole) (omega arith) ∙ at) other

  boundary_below-split :
      is_lead b ≡ true
      → AllContinuation rest
      → boundary_below whole (length a + suc (length rest)) ≡ length a
  boundary_below-split lead all =
      IsBoundaryBelow-unique whole
        (boundary_below-IsBoundaryBelow whole (length a + suc (length rest)) (omega arith))
        (record {
          below = omega arith;
          boundary = boundary-split lead;
          nearest = λ i lo hi. inside-split i all lo hi;
        })

  pub base_prev-split :
      is_lead b ≡ true
      → AllContinuation rest
      → base_prev whole (length a + suc (length rest)) ≡ ok (some (length a))
  unfolding base_prev
  base_prev-split lead all = ground (arith, boundary_below-split lead all)
