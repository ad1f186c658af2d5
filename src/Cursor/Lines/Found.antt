-- ===== src/Cursor/Lines/Found.antt =====
-- The two searches of `LinesMetric`, against what `Spec` asks for.

use org_rs.Prelude.{
  ℕ, ◌+◌, ◌-◌, ◌≤◌, ◌<◌, ◌≡◌, inl, inr, true, Option, none, some, arith, length, get_elem?, take,
  drop, get_elem?-take, get_elem?-drop, lt_length-of-get_elem?, length-take, Option-cases, le→leb,
  lt→ltb, leb, List, sym, ap, ◌∙◌,
}
use org_rs.Crates.Memchr.{Memchr}
use org_rs.Cursor.Lines.Spec.{IsNextLine, NextAnswer, PrevAnswer}
use org_rs.Cursor.Metric.{lines_prev, lines_next}
use org_rs.Rust.Outcome.{ok}
use org_rs.Rust.Str.{Str, newline, bytes_from, bytes_to}

get_elem?-from {ℓ} :
    {A : Type ℓ} (s : List A) (p j : ℕ) → p ≤ j → get_elem? (drop p s) (j - p) ≡ get_elem? s j
get_elem?-from s p j h = get_elem?-drop p (j - p) s ∙ ap (get_elem? s) (omega arith)

module _ (mc : Memchr) (s : Str) (p : ℕ) where
  newline-found :
      (i : ℕ) → mc.memchr newline (drop p s) ≡ some i → get_elem? s (p + i) ≡ some newline
  newline-found i e = sym (get_elem?-drop p i s) ∙ mc.memchr_some newline (drop p s) i e

  next-IsNextLine : (i : ℕ) → mc.memchr newline (drop p s) ≡ some i → IsNextLine s p (p + i + 1)
  next-IsNextLine i e =
      let found = newline-found i e in
      record {
        above = omega arith;
        inside = omega (arith, lt_length-of-get_elem? s (p + i) found);
        newline_before = ap (get_elem? s) (omega arith) ∙ found;
        clear = λ j lo hi same.
            mc.memchr_first newline (drop p s) i (j - p) e (omega arith)
              (get_elem?-from s p j lo ∙ same);
      }

  -- The search forward answers the next line, or that there is none.
  pub lines_next-NextAnswer :
      p ≤ length s → (r : Option ℕ) × (lines_next mc s p ≡ ok r) × NextAnswer s p r
  unfolding lines_next bytes_from
  lines_next-NextAnswer h = elim (Option-cases (mc.memchr newline (drop p s))) [
    | inl e ↦ (
      none,
      rw (le→leb p (length s) h, e),
      λ j lo hi same. mc.memchr_none newline (drop p s) (j - p) e (get_elem?-from s p j lo ∙ same),
    )
    | inr (i, e) ↦ (some (p + i + 1), rw (le→leb p (length s) h, e), next-IsNextLine i e)
  ]

  prev-found :
      (i : ℕ) → 0 < p → mc.memrchr newline (take (p - 1) s) ≡ some i → PrevAnswer s p (some (i + 1))
  prev-found i pos e =
      let here = mc.memrchr_some newline (take (p - 1) s) i e in
      let short : i < p - 1 =
        omega (arith, lt_length-of-get_elem? _ i here, length-take (p - 1) s) in
      let back : i + 1 - 1 ≡ i = omega arith in
      (
        omega arith,
        omega arith,
        rw back (sym (get_elem?-take s (p - 1) i short) ∙ here),
        λ j lo hi same.
            mc.memrchr_last newline (take (p - 1) s) i j e (omega arith)
              (get_elem?-take s (p - 1) j hi ∙ same),
      )

  -- The search backward answers the last line start below, or that there is none but 0.
  pub lines_prev-PrevAnswer :
      0 < p → p ≤ length s → (r : Option ℕ) × (lines_prev mc s p ≡ ok r) × PrevAnswer s p r
  unfolding lines_prev bytes_to
  lines_prev-PrevAnswer pos h =
      let fits : leb (p - 1) (length s) ≡ true = le→leb (p - 1) (length s) (omega arith) in
      elim (Option-cases (mc.memrchr newline (take (p - 1) s))) [
        | inl e ↦ (
          none,
          rw (lt→ltb 0 p pos, fits, e),
          λ j lo hi same.
              mc.memrchr_none newline (take (p - 1) s) j e (get_elem?-take s (p - 1) j hi ∙ same),
        )
        | inr (i, e) ↦ (some (i + 1), rw (lt→ltb 0 p pos, fits, e), prev-found i pos e)
      ]
