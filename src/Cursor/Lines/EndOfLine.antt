-- ===== src/Cursor/Lines/EndOfLine.antt =====
-- `line_end_position` with no argument: at a line that ends in a newline, in the last line, and,
-- with argument 0, from a line's beginning.
use mathlib.Core.Path.{subst}
use org_rs.Prelude.{
  ℕ, ◌-◌, ◌≤◌, ◌<◌, ◌≡◌, ◌⊎◌, inl, inr, refl, ◌∙◌, Option, none, some, arith, length, get_elem?, ap,
}
use org_rs.Prelude.Int.{pos}
use org_rs.Crates.Memchr.{Memchr}
use org_rs.Cursor.Lines.{line_end_position}
use org_rs.Cursor.Lines.End.{StartsUp, line_end_position-EndAnswer}
use org_rs.Cursor.Lines.Spec.{
  Clear, IsNextLine, IsNextLine-unique, NextAnswer, PrevAnswer, PrevAnswer-unique,
}
use org_rs.Cursor.Metric.Boundaries.{
  CharBefore, IsBoundaryBelow, IsBoundaryBelow-unique, newline-IsBoundaryBelow,
}
use org_rs.Cursor.State.{new}
use org_rs.Rust.Outcome.{ok}
use org_rs.Rust.Str.{Str, newline}

module _ (s : Str) (p : ℕ) where
  pub next_unique : (q : ℕ) (r : Option ℕ) → IsNextLine s p q → NextAnswer s p r → r ≡ some q
  next_unique q none next clear = absurd (
      clear (q - 1) (omega (arith, next.above)) (omega (arith, next.above, next.inside))
        next.newline_before)
  next_unique q (some n) next found = ap some (IsNextLine-unique found next)

  pub next-none : (r : Option ℕ) → Clear s p (length s) → NextAnswer s p r → r ≡ none
  next-none none clear found = refl
  next-none (some q) clear next = absurd (
      clear (q - 1) (omega (arith, next.above)) (omega (arith, next.above, next.inside))
        next.newline_before)

  before-newline :
      (q e : ℕ) → 0 < q → get_elem? s (q - 1) ≡ some newline → CharBefore s q e → e ≡ q - 1
  before-newline q e lower at_newline (inl (top, _)) = absurd (omega arith)
  before-newline q e lower at_newline (inr below) =
      IsBoundaryBelow-unique s below (newline-IsBoundaryBelow s q lower at_newline)

  before-end : (q e : ℕ) → 0 < q → CharBefore s q e → IsBoundaryBelow s q e
  before-end q e lower (inl (top, _)) = absurd (omega arith)
  before-end q e lower (inr below) = below

module _ (mc : Memchr) (s : Str) (p : ℕ) (inside : p ≤ length s) where
  -- Where a next line is, `line_end_position(None)` is the place of the newline that ends the line.
  pub line_end_position_newline :
      (q : ℕ) → IsNextLine s p q → line_end_position mc none (new s p) ≡ ok (q - 1, new s p)
  line_end_position_newline q next =
      let (e, q', run, (r, answer, there), before) =
        line_end_position-EndAnswer mc s p none inside tt in
      let same : q' ≡ q = rw (next_unique s p q r next answer) at there in
      run
      ∙ ap (λ (k : ℕ). ok (k, new s p))
          (before-newline s p q e (omega (arith, next.above)) next.newline_before
            (subst (λ k. CharBefore s k e) same before))

  -- In the last line, with no newline behind, `line_end_position(None)` is not the end of the text
  -- but the start of its last character.
  pub line_end_position_last_line :
      Clear s p (length s)
      → 0 < length s
      → (e : ℕ) × (line_end_position mc none (new s p) ≡ ok (e, new s p))
        × IsBoundaryBelow s (length s) e
  line_end_position_last_line clear nonempty =
      let (e, q', run, (r, answer, there), before) =
        line_end_position-EndAnswer mc s p none inside tt in
      let same : q' ≡ length s = rw (next-none s p r clear answer) at there in
      (e, run, before-end s p (length s) e nonempty (subst (λ k. CharBefore s k e) same before))

  zero-moves :
      (b e q : ℕ)
      → PrevAnswer s p (some b)
      → (((p ≡ 0) × (q ≡ 0)) ⊎ ((0 < p) × StartsUp s 1 p q))
      → CharBefore s q e
      → e ≡ b - 1
  zero-moves b e q found (inl (top, _)) before = absurd (omega arith)
  zero-moves b e q found (inr (lower, (r, answer, there))) before =
      let same : q ≡ b = rw (PrevAnswer-unique s p b r found answer) at there in
      before-newline s p b e found.0 found.2 (subst (λ k. CharBefore s k e) same before)

  -- `line_end_position(Some(0))` is the place of the last newline before the byte in front of the
  -- cursor: inside a line, the end of the line above; from a line's beginning, of the line before it.
  pub line_end_position_zero :
      (b : ℕ)
      → PrevAnswer s p (some b)
      → line_end_position mc (some (pos 0)) (new s p) ≡ ok (b - 1, new s p)
  line_end_position_zero b found =
      let (e, q, run, moves, before) =
        line_end_position-EndAnswer mc s p (some (pos 0)) inside tt in
      run ∙ ap (λ (k : ℕ). ok (k, new s p)) (zero-moves b e q found moves before)
