-- ===== src/Cursor/Lines/Loops.antt =====
-- The counted loops of `line_beginning_position` and `line_end_position`.
use org_rs.Prelude.{
  ℕ, zero, suc, ◌≤◌, ◌<◌, ◌≡◌, inl, inr, refl, ◌∙◌, Option, none, some, arith, length,
}
use org_rs.Crates.Memchr.{Memchr}
use org_rs.Cursor.Lines.{goto_next_line, repeat, prev_lines_or_start}
use org_rs.Cursor.Lines.Found.{lines_prev-PrevAnswer}
use org_rs.Cursor.Lines.Goto.{goto_next_line-NextAnswer}
use org_rs.Cursor.Lines.Prev.{above-IsLineBegin}
use org_rs.Cursor.Lines.Spec.{NextAnswer, PrevAnswer, LinesUp, LinesDown}
use org_rs.Cursor.Metric.{lines_prev, lines_metric}
use org_rs.Cursor.Moves.Arrive.{prev-arrive}
use org_rs.Cursor.State.{new}
use org_rs.Rust.Outcome.{ok}
use org_rs.Rust.Str.{Str}

module _ (mc : Memchr) (s : Str) where
  next-inside :
      (p : ℕ) (r : Option ℕ)
      → NextAnswer s p r
      → (elim r [ none ↦ length s | some q ↦ q ]) ≤ length s
  next-inside p none h = omega arith
  next-inside p (some q) h = h.inside

  -- `repeat k goto_next_line` goes down `k` lines, and stays inside the text.
  pub repeat-LinesDown :
      (k p : ℕ)
      → p ≤ length s
      → (q : ℕ) × (repeat k (goto_next_line mc) (new s p) ≡ ok (tt, new s q))
        × LinesDown s k p q
        × (q ≤ length s)
  unfolding repeat
  repeat-LinesDown zero p inside = (p, refl, refl, inside)
  repeat-LinesDown (suc k) p inside =
      let (r, answer, moved) = goto_next_line-NextAnswer mc s p inside in
      let n : ℕ = elim r [ none ↦ length s | some q ↦ q ] in
      let (q, run, down, fits) = repeat-LinesDown k n (next-inside p r answer) in
      (q, ground (arith, moved, run), (r, answer, down), fits)

  pub LinesUp-top : (k : ℕ) → LinesUp s k 0 0
  LinesUp-top zero = refl
  LinesUp-top (suc k) = inl (refl, refl)

  prev_lines_or_start-step :
      (k b : ℕ) (r : Option ℕ)
      → lines_prev mc s b ≡ ok r
      → prev_lines_or_start mc (suc k) (new s b)
        ≡ (elim r [ none ↦ ok (tt, new s 0) | some m ↦ prev_lines_or_start mc k (new s m) ])
  unfolding prev_lines_or_start
  prev_lines_or_start-step k b r found = ground (arith, prev-arrive (lines_metric mc) s b r found)

  abbrev Climbs : ℕ → Type 0
  Climbs k =
      (b : ℕ)
      → 0 < b
      → b ≤ length s
      → (m : ℕ) × (prev_lines_or_start mc k (new s b) ≡ ok (tt, new s m)) × LinesUp s k b m

  Climbs-suc :
      (k b : ℕ) (r : Option ℕ)
      → Climbs k
      → 0 < b
      → b ≤ length s
      → lines_prev mc s b ≡ ok r
      → PrevAnswer s b r
      → (m : ℕ) × (prev_lines_or_start mc (suc k) (new s b) ≡ ok (tt, new s m))
        × LinesUp s (suc k) b m
  Climbs-suc k b none ih pos inside found answer = (
    0,
    prev_lines_or_start-step k b none found,
    inr (pos, (0, above-IsLineBegin mc s b none pos answer, LinesUp-top k)),
  )
  Climbs-suc k b (some a) ih pos inside found answer =
      let (m, run, up) = ih a answer.0 (omega arith) in
      (
        m,
        prev_lines_or_start-step k b (some a) found ∙ run,
        inr (pos, (a, above-IsLineBegin mc s b (some a) pos answer, up)),
      )

  -- From the beginning of a line that is not the first, the loop goes up `k` lines, at most to 0.
  pub prev_lines_or_start-LinesUp : (k : ℕ) → Climbs k
  prev_lines_or_start-LinesUp zero b pos inside = (b, unfold prev_lines_or_start in refl, refl)
  prev_lines_or_start-LinesUp (suc k) b pos inside =
      let (r, found, answer) = lines_prev-PrevAnswer mc s b pos inside in
      Climbs-suc k b r (prev_lines_or_start-LinesUp k) pos inside found answer
