-- ===== src/Cursor/Lines.antt =====
-- The moves by lines of cursor.rs: the beginning of the line, the next and the previous line, and
-- the positions that `line-beginning-position` and `line-end-position` compute.
pub mod Spec
pub mod Found
pub mod Goto
pub mod Prev
mod Loops
pub mod Begin
pub mod End
pub mod EndOfLine
pub mod RoundTrip
pub mod Places
use org_rs.Prelude.{
  ℕ, zero, suc, ◌+◌, ◌-◌, ◌^◌, Bool, true, false, not, Option, none, some, ltb, ◌==◌, if◌then◌else◌,
  length,
}
use org_rs.Prelude.Int.{ℤ, pos, negsuc}
use org_rs.Crates.Memchr.{Memchr}
use org_rs.Cursor.Metric.{base_metric, lines_metric, lines_is_boundary}
use org_rs.Cursor.Moves.{next, prev, at_or_prev}
use org_rs.Cursor.State.{M, pure, lift, ◌>>=◌, ◌>>◌, set, get_pos, get_text, when}
use org_rs.Rust.Outcome.{Outcome, ok, check, overflow}

abbrev pub is_none {ℓ} : {A : Type ℓ} → Option A → Bool
is_none none = true
is_none (some a) = false

-- `for _p in 0..n { body }`
unfoldable pub repeat : ℕ → M ℕ → M (Unit {0})
repeat zero body = pure tt
repeat (suc n) body = do body; repeat n body

-- `(x - 1).abs()` and `x.abs()` in `i32`, for `x` of at most 1: they overflow at the end of the range.
unfoldable pub abs_pred_i32 : ℤ → Outcome ℕ
abs_pred_i32 (pos n) = ok (1 - n)
abs_pred_i32 (negsuc n) = check (ltb (n + 2) (2 ^ 31)) overflow (ok (n + 2))

unfoldable pub abs_i32 : ℤ → Outcome ℕ
abs_i32 (pos n) = ok n
abs_i32 (negsuc n) = check (ltb (n + 1) (2 ^ 31)) overflow (ok (n + 1))

module _ (mc : Memchr) where
  unfoldable pub goto_line_begin : M ℕ
  goto_line_begin = do
    p ← get_pos
    when (not (p == 0)) (do found ← at_or_prev (lines_metric mc); when (is_none found) (set 0))
    get_pos

  unfoldable pub goto_next_line : M ℕ
  goto_next_line = do
    res ← next (lines_metric mc)
    elim res [
      | none ↦ (do text ← get_text; set (length text); pure (length text))
      | some x ↦ pure x
    ]

  unfoldable pub prev_line_or_start : M ℕ
  prev_line_or_start = do
    res ← prev (lines_metric mc)
    elim res [ none ↦ (do set 0; pure 0) | some x ↦ pure x ]

  unfoldable pub goto_prev_line : M ℕ
  unfolding prev_line_or_start
  goto_prev_line = do goto_line_begin; p ← get_pos; if p == 0 then pure 0 else prev_line_or_start

  -- `for p in 0..n { if self.prev().is_none() { self.set(0); break; } }`
  unfoldable pub prev_lines_or_start : ℕ → M (Unit {0})
  prev_lines_or_start zero = pure tt
  prev_lines_or_start (suc n) = do
    res ← prev (lines_metric mc)
    elim res [ none ↦ set 0 | some x ↦ prev_lines_or_start n ]

  -- `for p in 0..n { if self.prev().is_none() { break; } }`
  unfoldable pub prev_lines : ℕ → M (Unit {0})
  prev_lines zero = pure tt
  prev_lines (suc n) = do
    res ← prev (lines_metric mc)
    elim res [ none ↦ pure tt | some x ↦ prev_lines n ]

  -- The branch of `line_beginning_position` for an argument below 1.
  unfoldable pub line_begin_back : ℤ → M (Unit {0})
  line_begin_back x = do
    goto_line_begin
    p ← get_pos
    if p == 0 then pure tt else (do rounds ← lift (abs_pred_i32 x); prev_lines_or_start rounds)

  unfoldable pub line_begin_move : Option ℤ → M (Unit {0})
  line_begin_move none = do goto_line_begin; pure tt
  line_begin_move (some (pos n)) =
      if n == 1
      then (do goto_line_begin; pure tt)
      else if ltb 1 n
      then repeat (n - 1) goto_next_line
      else line_begin_back (pos n)
  line_begin_move (some (negsuc n)) = line_begin_back (negsuc n)

  unfoldable pub line_beginning_position : Option ℤ → M ℕ
  line_beginning_position n = do
    saved ← get_pos
    line_begin_move n
    result ← get_pos
    set saved
    pure result

  -- The branch of `line_end_position` for an argument below 1.
  unfoldable pub line_end_back : ℤ → M (Unit {0})
  line_end_back x = do
    p ← get_pos
    if p == 0 then pure tt else (do rounds ← lift (abs_i32 x); prev_lines (rounds + 1))

  unfoldable pub line_end_move : Option ℤ → M (Unit {0})
  line_end_move none = do goto_next_line; pure tt
  line_end_move (some (pos n)) =
      if n == 1
      then (do goto_next_line; pure tt)
      else if ltb 1 n
      then repeat n goto_next_line
      else line_end_back (pos n)
  line_end_move (some (negsuc n)) = line_end_back (negsuc n)

  unfoldable pub line_end_position : Option ℤ → M ℕ
  line_end_position n = do
    saved ← get_pos
    line_end_move n
    found ← prev base_metric
    set saved
    pure (elim found [ none ↦ 0 | some p ↦ p ])

  unfoldable pub is_bol : M Bool
  is_bol c = lift (if c.pos == 0 then ok true else lines_is_boundary mc c.text c.pos) c
