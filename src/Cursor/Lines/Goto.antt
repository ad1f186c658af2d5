-- ===== src/Cursor/Lines/Goto.antt =====
-- The moves to the beginning of this line, of the next one and of the previous one.
use org_rs.Prelude.{
  ℕ, zero, suc, ◌-◌, ◌≤◌, ◌<◌, ◌≡◌, ◌≢◌, ◌⊎◌, inl, inr, refl, true, false, Option, none, some,
  arith, length, get_elem?, get_elem?-of-lt_length, Bool-cases, ◌==◌,
}
use org_rs.Crates.Memchr.{Memchr}
use org_rs.Cursor.Lines.{goto_line_begin, goto_next_line}
use org_rs.Cursor.Lines.Found.{lines_next-NextAnswer, lines_prev-PrevAnswer}
use org_rs.Cursor.Lines.Spec.{Clear-extend, IsLineBegin, NextAnswer, PrevAnswer}
use org_rs.Cursor.Metric.{lines_prev, lines_is_boundary, lines_metric}
use org_rs.Cursor.Moves.Arrive.{next-arrive, prev-arrive, at_or_prev-here, at_or_prev-there}
use org_rs.Cursor.State.{new}
use org_rs.Rust.Outcome.{ok}
use org_rs.Rust.Str.{Str, newline, byte_at}

module _ (mc : Memchr) (s : Str) where
  -- Whether the byte before a position inside the text is a newline.
  pub boundary-cases :
      (p : ℕ)
      → 0 < p
      → p ≤ length s
      → ((lines_is_boundary mc s p ≡ ok true) × (get_elem? s (p - 1) ≡ some newline))
        ⊎ ((lines_is_boundary mc s p ≡ ok false) × (get_elem? s (p - 1) ≢ some newline))
  unfolding lines_is_boundary byte_at
  boundary-cases p pos inside =
      let (b, e) = get_elem?-of-lt_length s (p - 1) (omega arith) in
      elim (Bool-cases (b == newline)) [
        | inl same ↦ inl (ground arith, ground arith)
        | inr other ↦ inr (ground arith, ground arith)
      ]

  -- From a place that does not follow a newline, the search backward finds the line's beginning.
  begin-PrevAnswer :
      (p : ℕ) (r : Option ℕ)
      → 0 < p
      → get_elem? s (p - 1) ≢ some newline
      → PrevAnswer s p r
      → IsLineBegin s p (elim r [ none ↦ 0 | some b ↦ b ])
  begin-PrevAnswer p none pos other clear = record {
    below = omega arith;
    starts = inl refl;
    clear = Clear-extend s 0 p clear other;
  }
  begin-PrevAnswer p (some b) pos other (b_pos, below, at_newline, clear) = record {
    below = omega arith;
    starts = inr (b_pos, at_newline);
    clear = Clear-extend s b p clear other;
  }

  goto_line_begin-prev :
      (p : ℕ) (r : Option ℕ)
      → 0 < p
      → lines_is_boundary mc s p ≡ ok false
      → lines_prev mc s p ≡ ok r
      → goto_line_begin mc (new s p)
        ≡ ok (elim r [ none ↦ 0 | some b ↦ b ], new s (elim r [ none ↦ 0 | some b ↦ b ]))
  unfolding goto_line_begin
  goto_line_begin-prev p r pos away found = ground (
    arith,
    at_or_prev-there (lines_metric mc) s p away,
    prev-arrive (lines_metric mc) s p r found,
  )

  goto_line_begin-zero : goto_line_begin mc (new s 0) ≡ ok (0, new s 0)
  unfolding goto_line_begin
  goto_line_begin-zero = refl

  goto_line_begin-here :
      (p : ℕ)
      → 0 < p
      → lines_is_boundary mc s p ≡ ok true
      → goto_line_begin mc (new s p) ≡ ok (p, new s p)
  unfolding goto_line_begin
  goto_line_begin-here p pos here = ground (arith, at_or_prev-here (lines_metric mc) s p here)

  goto_line_begin-inside :
      (p : ℕ)
      → 0 < p
      → p ≤ length s
      → (b : ℕ) × (goto_line_begin mc (new s p) ≡ ok (b, new s b)) × IsLineBegin s p b
  goto_line_begin-inside p pos inside = elim (boundary-cases p pos inside) [
    | inl (here, at_newline) ↦ (
      p,
      goto_line_begin-here p pos here,
      record {
        below = omega arith;
        starts = inr (pos, at_newline);
        clear = λ i lo hi same. omega arith;
      },
    )
    | inr (away, other) ↦
        let (r, found, answer) = lines_prev-PrevAnswer mc s p pos inside in
        (
          elim r [ none ↦ 0 | some b ↦ b ],
          goto_line_begin-prev p r pos away found,
          begin-PrevAnswer p r pos other answer,
        )
  ]

  -- From every position inside the text, or at its end, `goto_line_begin` does not panic. It leaves
  -- the cursor at the beginning of the line that holds the position, and returns that place.
  pub goto_line_begin-IsLineBegin :
      (p : ℕ)
      → p ≤ length s
      → (b : ℕ) × (goto_line_begin mc (new s p) ≡ ok (b, new s b)) × IsLineBegin s p b
  goto_line_begin-IsLineBegin zero inside = (
    0,
    goto_line_begin-zero,
    record { below = omega arith; starts = inl refl; clear = λ i lo hi same. omega arith },
  )
  goto_line_begin-IsLineBegin (suc n) inside = goto_line_begin-inside (suc n) (omega arith) inside

  -- `goto_next_line` does not panic at a position inside the text. Where a next line is, the cursor
  -- goes to its beginning; where there is none, that is, no newline follows, it goes to the end.
  pub goto_next_line-NextAnswer :
      (p : ℕ)
      → p ≤ length s
      → (r : Option ℕ) × NextAnswer s p r
        × (goto_next_line mc (new s p)
            ≡ ok (
              elim r [ none ↦ length s | some q ↦ q ],
              new s (elim r [ none ↦ length s | some q ↦ q ]),
            ))
  unfolding goto_next_line
  goto_next_line-NextAnswer p inside =
      let (r, found, answer) = lines_next-NextAnswer mc s p inside in
      (r, answer, ground (arith, next-arrive (lines_metric mc) s p r found))
