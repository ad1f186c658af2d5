-- ===== src/Cursor/Lines/Begin.antt =====
-- What `line_beginning_position` returns.
use org_rs.Prelude.{
  ℕ, zero, suc, ◌+◌, ◌^◌, ◌≤◌, ◌<◌, ◌≡◌, refl, Option, none, some, arith, length, lt→ltb,
  not-lt→ltb,
}
use org_rs.Prelude.Int.{ℤ, pos, negsuc}
use org_rs.Crates.Memchr.{Memchr}
use org_rs.Cursor.Lines.{
  goto_line_begin, goto_next_line, repeat, prev_lines_or_start, line_beginning_position,
  line_begin_move, line_begin_back, abs_pred_i32,
}
use org_rs.Cursor.Lines.Goto.{goto_line_begin-IsLineBegin}
use org_rs.Cursor.Lines.Loops.{repeat-LinesDown, prev_lines_or_start-LinesUp, LinesUp-top}
use org_rs.Cursor.Lines.Spec.{IsLineBegin, IsLineBegin-unique, LinesUp, LinesDown}
use org_rs.Cursor.State.{new}
use org_rs.Rust.Outcome.{ok, panic, overflow}
use org_rs.Rust.Str.{Str}

-- What `line_beginning_position(n)` is to return at `p`: with no argument, or 1, the beginning of
-- the line; above 1, the beginning of the line `n - 1` lines below; else, the beginning of the line
-- `1 - n` lines above.
abbrev pub BeginAnswer : Str → ℕ → Option ℤ → ℕ → Type 0
BeginAnswer s p none b = IsLineBegin s p b
BeginAnswer s p (some (pos zero)) b = (a : ℕ) × IsLineBegin s p a × LinesUp s 1 a b
BeginAnswer s p (some (pos (suc zero))) b = IsLineBegin s p b
BeginAnswer s p (some (pos (suc (suc n)))) b = LinesDown s (suc n) p b
BeginAnswer s p (some (negsuc n)) b = (a : ℕ) × IsLineBegin s p a × LinesUp s (n + 2) a b

-- `(x - 1).abs()` does not overflow in `i32`.
abbrev pub InRange : Option ℤ → Type 0
InRange (some (negsuc n)) = n + 2 < 2 ^ 31
InRange _ = Unit

abs_pred_i32-fits : (n : ℕ) → n + 2 < 2 ^ 31 → abs_pred_i32 (negsuc n) ≡ ok (n + 2)
unfolding abs_pred_i32
abs_pred_i32-fits n h = rw (lt→ltb (n + 2) (2 ^ 31) h)

abs_pred_i32-over : (n : ℕ) → 2 ^ 31 ≤ n + 2 → abs_pred_i32 (negsuc n) ≡ panic overflow
unfolding abs_pred_i32
abs_pred_i32-over n h = rw (not-lt→ltb (n + 2) (2 ^ 31) h)

module _ (mc : Memchr) (s : Str) (p : ℕ) where
  -- The cursor is put back, whatever the move did.
  line_beginning_position-moved :
      (n : Option ℤ) (b : ℕ)
      → line_begin_move mc n (new s p) ≡ ok (tt, new s b)
      → line_beginning_position mc n (new s p) ≡ ok (b, new s p)
  unfolding line_beginning_position
  line_beginning_position-moved n b moved = ground (arith, moved)

  line_begin_back-begun :
      (x : ℤ) (k b m : ℕ)
      → goto_line_begin mc (new s p) ≡ ok (b, new s b)
      → 0 < b
      → abs_pred_i32 x ≡ ok k
      → prev_lines_or_start mc k (new s b) ≡ ok (tt, new s m)
      → line_begin_back mc x (new s p) ≡ ok (tt, new s m)
  unfolding line_begin_back
  line_begin_back-begun x k b m begun lower rounds run = ground (arith, begun, rounds, run)

  line_begin_back-top :
      (x : ℤ)
      → goto_line_begin mc (new s p) ≡ ok (0, new s 0)
      → line_begin_back mc x (new s p) ≡ ok (tt, new s 0)
  unfolding line_begin_back
  line_begin_back-top x begun = ground (arith, begun)

  line_begin_back-LinesUp :
      (x : ℤ) (k : ℕ)
      → p ≤ length s
      → abs_pred_i32 x ≡ ok k
      → (b a : ℕ) × (line_begin_back mc x (new s p) ≡ ok (tt, new s b))
        × IsLineBegin s p a
        × LinesUp s k a b
  line_begin_back-LinesUp x k inside rounds = go (goto_line_begin-IsLineBegin mc s p inside)
    where
      at :
          (a : ℕ)
          → goto_line_begin mc (new s p) ≡ ok (a, new s a)
          → IsLineBegin s p a
          → (b a : ℕ) × (line_begin_back mc x (new s p) ≡ ok (tt, new s b))
            × IsLineBegin s p a
            × LinesUp s k a b
      at zero begun begin = (0, 0, line_begin_back-top x begun, begin, LinesUp-top mc s k)
      at (suc a) begun begin =
          let (m, run, up) =
            prev_lines_or_start-LinesUp mc s k (suc a) (omega arith) (omega (arith, begin.below)) in
          (m, suc a, line_begin_back-begun x k (suc a) m begun (omega arith) rounds run, begin, up)

      go :
          ((b : ℕ) × (goto_line_begin mc (new s p) ≡ ok (b, new s b)) × IsLineBegin s p b)
          → (b a : ℕ) × (line_begin_back mc x (new s p) ≡ ok (tt, new s b))
            × IsLineBegin s p a
            × LinesUp s k a b
      go (a, begun, begin) = at a begun begin

  begin_move-begun :
      (b : ℕ)
      → goto_line_begin mc (new s p) ≡ ok (b, new s b)
      → (line_begin_move mc none (new s p) ≡ ok (tt, new s b))
        × (line_begin_move mc (some (pos 1)) (new s p) ≡ ok (tt, new s b))
  unfolding line_begin_move
  begin_move-begun b begun = (ground (arith, begun), ground (arith, begun))

  begin_move-down :
      (n q : ℕ)
      → repeat (suc n) (goto_next_line mc) (new s p) ≡ ok (tt, new s q)
      → line_begin_move mc (some (pos (suc (suc n)))) (new s p) ≡ ok (tt, new s q)
  unfolding line_begin_move
  begin_move-down n q run = ground (arith, run)

  begin_move-zero :
      (b : ℕ)
      → line_begin_back mc (pos 0) (new s p) ≡ ok (tt, new s b)
      → line_begin_move mc (some (pos 0)) (new s p) ≡ ok (tt, new s b)
  unfolding line_begin_move
  begin_move-zero b run = run

  begin_move-negsuc :
      (n b : ℕ)
      → line_begin_back mc (negsuc n) (new s p) ≡ ok (tt, new s b)
      → line_begin_move mc (some (negsuc n)) (new s p) ≡ ok (tt, new s b)
  unfolding line_begin_move
  begin_move-negsuc n b run = run

  -- Inside the text, and with an argument whose distance fits `i32`, `line_beginning_position`
  -- does not panic, returns the place that its argument asks for, and leaves the cursor where it is.
  pub line_beginning_position-BeginAnswer :
      (n : Option ℤ)
      → p ≤ length s
      → InRange n
      → (b : ℕ) × (line_beginning_position mc n (new s p) ≡ ok (b, new s p)) × BeginAnswer s p n b
  line_beginning_position-BeginAnswer none inside fits =
      let (b, begun, begin) = goto_line_begin-IsLineBegin mc s p inside in
      (b, line_beginning_position-moved none b (begin_move-begun b begun).0, begin)
  line_beginning_position-BeginAnswer (some (pos zero)) inside fits =
      let (b, a, run, begin, up) =
        line_begin_back-LinesUp (pos 0) 1 inside (unfold abs_pred_i32 in refl) in
      (b, line_beginning_position-moved (some (pos 0)) b (begin_move-zero b run), (a, begin, up))
  line_beginning_position-BeginAnswer (some (pos (suc zero))) inside fits =
      let (b, begun, begin) = goto_line_begin-IsLineBegin mc s p inside in
      (b, line_beginning_position-moved (some (pos 1)) b (begin_move-begun b begun).1, begin)
  line_beginning_position-BeginAnswer (some (pos (suc (suc n)))) inside fits =
      let (q, run, down, fits) = repeat-LinesDown mc s (suc n) p inside in
      (
        q,
        line_beginning_position-moved (some (pos (suc (suc n)))) q (begin_move-down n q run),
        down,
      )
  line_beginning_position-BeginAnswer (some (negsuc n)) inside fits =
      let (b, a, run, begin, up) =
        line_begin_back-LinesUp (negsuc n) (n + 2) inside (abs_pred_i32-fits n fits) in
      (
        b,
        line_beginning_position-moved (some (negsuc n)) b (begin_move-negsuc n b run),
        (a, begin, up),
      )

  -- Where `(x - 1).abs()` does not fit `i32`, for the two least values of `x`, the method
  -- `line_beginning_position` panics with an overflow, unless the cursor is in the first line.
  pub line_beginning_position_overflow :
      (n b : ℕ)
      → p ≤ length s
      → IsLineBegin s p b
      → 0 < b
      → 2 ^ 31 ≤ n + 2
      → line_beginning_position mc (some (negsuc n)) (new s p) ≡ panic overflow
  unfolding line_beginning_position line_begin_move line_begin_back
  line_beginning_position_overflow n b inside begin lower over =
      let (a, begun, begin') = goto_line_begin-IsLineBegin mc s p inside in
      ground (arith, begun, IsLineBegin-unique begin begin', abs_pred_i32-over n over)
