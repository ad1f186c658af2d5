-- ===== src/Cursor/Lines/RoundTrip.antt =====
-- A line down and up again, and lines down to the end of the text.
use org_rs.Prelude.{
  ℕ, zero, suc, ◌-◌, ◌≤◌, ◌≡◌, inl, inr, sym, ◌∙◌, ap, Option, none, some, arith, length,
}
use org_rs.Crates.Memchr.{Memchr}
use org_rs.Cursor.Lines.{goto_line_begin, goto_next_line, goto_prev_line, repeat}
use org_rs.Cursor.Lines.EndOfLine.{next_unique}
use org_rs.Cursor.Lines.Goto.{goto_line_begin-IsLineBegin, goto_next_line-NextAnswer}
use org_rs.Cursor.Lines.Prev.{goto_prev_line-LinesUp}
use org_rs.Cursor.Lines.Spec.{IsLineBegin, IsLineBegin-unique, IsNextLine, NextAnswer, LinesUp}
use org_rs.Cursor.State.{new, ◌>>◌}
use org_rs.Rust.Outcome.{ok}
use org_rs.Rust.Str.{Str}

module _ (s : Str) (p q : ℕ) (next : IsNextLine s p q) where
  -- A line's beginning is the beginning of its line.
  next-IsLineBegin : IsLineBegin s q q
  next-IsLineBegin = record {
    below = omega arith;
    starts = inr (omega (arith, next.above), next.newline_before);
    clear = λ i lo hi same. omega arith;
  }

  -- The line that ends before `q` holds `p`.
  same_line : (m : ℕ) → IsLineBegin s (q - 1) m → IsLineBegin s p m
  same_line m h =
      let below : m ≤ p = elim h.starts [
        | inl top ↦ omega arith
        | inr (pos, at_newline) ↦
            ground (arith, next.clear (m - 1), at_newline, h.below, next.above)
      ] in
      record {
        below = below;
        starts = h.starts;
        clear = λ i lo hi. h.clear i lo (omega (arith, next.above));
      }

  above_next : (b m : ℕ) → b ≡ q → LinesUp s 1 b m → IsLineBegin s p m
  above_next b m e (inl (top, at)) = absurd (omega (arith, next.above))
  above_next b m e (inr (lower, (a, begin, same))) = same_line m (ground (arith, e, same, begin))

module _ (mc : Memchr) (s : Str) where
  next_then_prev :
      (p q : ℕ)
      → p ≤ length s
      → IsNextLine s p q
      → goto_next_line mc (new s p) ≡ ok (q, new s q)
      → goto_prev_line mc (new s q) ≡ goto_line_begin mc (new s p)
  next_then_prev p q inside next down =
      let (a, m, begin, up, above) = goto_prev_line-LinesUp mc s q next.inside in
      let (b, begun, begins) = goto_line_begin-IsLineBegin mc s p inside in
      let same : m ≡ b =
        IsLineBegin-unique
          (above_next s p q next a m (IsLineBegin-unique begin (next-IsLineBegin s p q next)) above)
          begins in
      up ∙ ap (λ x. ok (x, new s x)) same ∙ sym begun

  -- From a position in the text whose line is not the last one, `goto_next_line` and then
  -- `goto_prev_line` do what `goto_line_begin` does: the cursor is at the beginning of its line again.
  pub goto_next_line-goto_prev_line :
      (p q : ℕ)
      → p ≤ length s
      → IsNextLine s p q
      → (goto_next_line mc >> goto_prev_line mc) (new s p) ≡ goto_line_begin mc (new s p)
  goto_next_line-goto_prev_line p q inside next =
      let (r, answer, run) = goto_next_line-NextAnswer mc s p inside in
      let down : goto_next_line mc (new s p) ≡ ok (q, new s q) =
        run
        ∙ ap
            (λ o. ok (
              elim o [ none ↦ length s | some x ↦ x ],
              new s (elim o [ none ↦ length s | some x ↦ x ]),
            ))
            (next_unique s p q r next answer) in
      rw down (next_then_prev p q inside next down)

  closer :
      (p : ℕ) (r : Option ℕ)
      → p ≤ length s
      → NextAnswer s p r
      → (k : ℕ) → length s - p ≤ suc k
      → (length s - (elim r [ none ↦ length s | some q ↦ q ]) ≤ k)
        × ((elim r [ none ↦ length s | some q ↦ q ]) ≤ length s)
  closer p none inside h k enough = (omega arith, omega arith)
  closer p (some q) inside h k enough = (omega (arith, h.above), h.inside)

  -- From a position in the text, at most as many calls of `goto_next_line` as there are bytes behind it
  -- bring the cursor to the end of the text, and further calls leave it there.
  pub repeat-goto_next_line :
      (k p : ℕ)
      → p ≤ length s
      → length s - p ≤ k
      → repeat k (goto_next_line mc) (new s p) ≡ ok (tt, new s (length s))
  unfolding repeat
  repeat-goto_next_line zero p inside enough = ap (λ x. ok (tt, new s x)) (omega arith)
  repeat-goto_next_line (suc k) p inside enough =
      let (r, answer, run) = goto_next_line-NextAnswer mc s p inside in
      let (near, fits) = closer p r inside answer k enough in
      rw run (repeat-goto_next_line k _ fits near)
