-- ===== src/Cursor/Lines/Prev.antt =====
-- The move to the previous line, and the test for the beginning of a line.
use mathlib.Core.Path.{subst}
use org_rs.Prelude.{
  ℕ, zero, suc, ◌-◌, ◌≤◌, ◌<◌, ◌≡◌, ◌↔◌, ◌⊎◌, inl, inr, refl, Bool, true, false, Option, none, some,
  arith, length,
}
use org_rs.Crates.Memchr.{Memchr}
use org_rs.Cursor.Lines.{goto_line_begin, goto_prev_line, is_bol}
use org_rs.Cursor.Lines.Found.{lines_prev-PrevAnswer}
use org_rs.Cursor.Lines.Goto.{boundary-cases, goto_line_begin-IsLineBegin}
use org_rs.Cursor.Lines.Spec.{Starts, IsLineBegin, PrevAnswer, LinesUp}
use org_rs.Cursor.Metric.{lines_prev, lines_metric}
use org_rs.Cursor.Moves.Arrive.{prev-arrive}
use org_rs.Cursor.State.{new}
use org_rs.Rust.Outcome.{ok}
use org_rs.Rust.Str.{Str}

module _ (mc : Memchr) (s : Str) where
  -- The position that the search backward from a line's beginning finds begins the line before.
  pub above-IsLineBegin :
      (b : ℕ) (r : Option ℕ)
      → 0 < b
      → PrevAnswer s b r
      → IsLineBegin s (b - 1) (elim r [ none ↦ 0 | some m ↦ m ])
  above-IsLineBegin b none pos clear = record {
    below = omega arith;
    starts = inl refl;
    clear = clear;
  }
  above-IsLineBegin b (some m) pos (m_pos, below, at_newline, clear) = record {
    below = omega arith;
    starts = inr (m_pos, at_newline);
    clear = clear;
  }

  goto_prev_line-found :
      (p b : ℕ) (r : Option ℕ)
      → 0 < b
      → goto_line_begin mc (new s p) ≡ ok (b, new s b)
      → lines_prev mc s b ≡ ok r
      → goto_prev_line mc (new s p)
        ≡ ok (elim r [ none ↦ 0 | some m ↦ m ], new s (elim r [ none ↦ 0 | some m ↦ m ]))
  unfolding goto_prev_line
  goto_prev_line-found p b r pos begun found =
      ground (arith, begun, prev-arrive (lines_metric mc) s b r found)

  goto_prev_line-top :
      (p : ℕ)
      → goto_line_begin mc (new s p) ≡ ok (0, new s 0)
      → goto_prev_line mc (new s p) ≡ ok (0, new s 0)
  unfolding goto_prev_line
  goto_prev_line-top p begun = ground (arith, begun)

  goto_prev_line-from :
      (p b : ℕ)
      → p ≤ length s
      → goto_line_begin mc (new s p) ≡ ok (b, new s b)
      → IsLineBegin s p b
      → (b ≡ 0) ⊎ (0 < b)
      → (m : ℕ) × (goto_prev_line mc (new s p) ≡ ok (m, new s m)) × LinesUp s 1 b m
  goto_prev_line-from p b inside begun begin (inl top) = (
    0,
    goto_prev_line-top p (subst (λ k. goto_line_begin mc (new s p) ≡ ok (k, new s k)) top begun),
    inl (top, refl),
  )
  goto_prev_line-from p b inside begun begin (inr lower) =
      let (r, found, answer) = lines_prev-PrevAnswer mc s b lower (omega (arith, begin.below)) in
      let m : ℕ = elim r [ none ↦ 0 | some m ↦ m ] in
      (
        m,
        goto_prev_line-found p b r lower begun found,
        inr (lower, (m, above-IsLineBegin b r lower answer, refl)),
      )

  -- `goto_prev_line` does not panic at a position inside the text. It leaves the cursor at the
  -- beginning of the line before the one that holds the position, or at 0 in the first line.
  pub goto_prev_line-LinesUp :
      (p : ℕ)
      → p ≤ length s
      → (b m : ℕ) × IsLineBegin s p b
        × (goto_prev_line mc (new s p) ≡ ok (m, new s m))
        × LinesUp s 1 b m
  goto_prev_line-LinesUp p inside =
      let (b, begun, begin) = goto_line_begin-IsLineBegin mc s p inside in
      let (m, moved, up) = goto_prev_line-from p b inside begun begin (omega arith) in
      (b, m, begin, moved, up)

  -- `is_bol` does not panic inside the text, does not move the cursor, and is true exactly where a
  -- line starts.
  pub is_bol-Starts :
      (p : ℕ)
      → p ≤ length s
      → (x : Bool) × (is_bol mc (new s p) ≡ ok (x, new s p)) × ((x ≡ true) ↔ Starts s p)
  unfolding is_bol
  is_bol-Starts zero inside = (true, refl, ((λ _. inl refl), (λ _. refl)))
  is_bol-Starts (suc n) inside = elim (boundary-cases mc s (suc n) (omega arith) inside) [
    | inl (here, e) ↦ (true, ground arith, ((λ _. inr (omega arith, e)), (λ _. refl)))
    | inr (away, other) ↦ (
      false,
      ground arith,
      (
        (λ x. cc),
        λ starts. elim starts [ inl z ↦ absurd (omega arith) | inr (lt, e) ↦ absurd (other e) ],
      ),
    )
  ]
