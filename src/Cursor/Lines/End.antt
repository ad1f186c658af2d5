-- ===== src/Cursor/Lines/End.antt =====
-- What `line_end_position` returns.
use native.Mathlib.Numerals.{add-one}
use org_rs.Prelude.{
  ℕ, zero, suc, ◌+◌, ◌^◌, ◌≤◌, ◌<◌, ◌≡◌, ◌⊎◌, inl, inr, refl, ◌∙◌, Option, none, some, arith,
  length, lt→ltb,
}
use org_rs.Prelude.Int.{ℤ, pos, negsuc}
use org_rs.Crates.Memchr.{Memchr}
use org_rs.Cursor.Lines.{
  goto_next_line, repeat, prev_lines, line_end_position, line_end_move, line_end_back, abs_i32,
}
use org_rs.Cursor.Lines.Found.{lines_prev-PrevAnswer}
use org_rs.Cursor.Lines.Loops.{repeat-LinesDown}
use org_rs.Cursor.Lines.Spec.{PrevAnswer, LinesDown}
use org_rs.Cursor.Metric.{base_metric, lines_metric, lines_prev, boundary_below, base_prev}
use org_rs.Cursor.Metric.Boundaries.{
  CharBefore, boundary_below-zero, base_prev-suc, boundary_below-CharBefore,
}
use org_rs.Cursor.Moves.Arrive.{prev-arrive}
use org_rs.Cursor.State.{new}
use org_rs.Rust.Outcome.{ok}
use org_rs.Rust.Str.{Str}

-- `q` is where `k` searches backward for a line start lead from `p`; they stop where one fails.
abbrev pub StartsUp : Str → ℕ → ℕ → ℕ → Type 0
StartsUp s zero p q = q ≡ p
StartsUp s (suc k) p q =
    (r : Option ℕ) × PrevAnswer s p r × (elim r [ none ↦ q ≡ p | some b ↦ StartsUp s k b q ])

-- Where `line_end_position(n)` goes before its last step back by one character: with no argument,
-- or 1, to the next line; above 1, `n` lines down; else up by `1 - n` line starts.
abbrev pub EndMoves : Str → ℕ → Option ℤ → ℕ → Type 0
EndMoves s p none q = LinesDown s 1 p q
EndMoves s p (some (pos zero)) q = ((p ≡ 0) × (q ≡ 0)) ⊎ ((0 < p) × StartsUp s 1 p q)
EndMoves s p (some (pos (suc n))) q = LinesDown s (suc n) p q
EndMoves s p (some (negsuc n)) q = ((p ≡ 0) × (q ≡ 0)) ⊎ ((0 < p) × StartsUp s (suc (n + 1)) p q)

-- `x.abs()` does not overflow in `i32`.
abbrev pub AbsInRange : Option ℤ → Type 0
AbsInRange (some (negsuc n)) = n + 1 < 2 ^ 31
AbsInRange _ = Unit

abs_i32-fits : (n : ℕ) → n + 1 < 2 ^ 31 → abs_i32 (negsuc n) ≡ ok (n + 1)
unfolding abs_i32
abs_i32-fits n h = rw (lt→ltb (n + 1) (2 ^ 31) h)

module _ (mc : Memchr) (s : Str) where
  prev_lines-step :
      (k p : ℕ) (r : Option ℕ)
      → lines_prev mc s p ≡ ok r
      → prev_lines mc (suc k) (new s p)
        ≡ (elim r [ none ↦ ok (tt, new s p) | some b ↦ prev_lines mc k (new s b) ])
  unfolding prev_lines
  prev_lines-step k p r found = ground (arith, prev-arrive (lines_metric mc) s p r found)

  abbrev Backs : ℕ → Type 0
  Backs k =
      (p : ℕ)
      → 0 < p
      → p ≤ length s
      → (q : ℕ) × (prev_lines mc k (new s p) ≡ ok (tt, new s q)) × StartsUp s k p q

  Backs-suc :
      (k p : ℕ) (r : Option ℕ)
      → Backs k
      → p ≤ length s
      → lines_prev mc s p ≡ ok r
      → PrevAnswer s p r
      → (q : ℕ) × (prev_lines mc (suc k) (new s p) ≡ ok (tt, new s q)) × StartsUp s (suc k) p q
  Backs-suc k p none ih inside found answer =
      (p, prev_lines-step k p none found, (none, answer, refl))
  Backs-suc k p (some b) ih inside found answer =
      let (q, run, up) = ih b answer.0 (omega arith) in
      (q, prev_lines-step k p (some b) found ∙ run, (some b, answer, up))

  prev_lines-StartsUp : (k : ℕ) → Backs k
  prev_lines-StartsUp zero p lower inside = (p, unfold prev_lines in refl, refl)
  prev_lines-StartsUp (suc k) p lower inside =
      let (r, found, answer) = lines_prev-PrevAnswer mc s p lower inside in
      Backs-suc k p r (prev_lines-StartsUp k) inside found answer

module _ (mc : Memchr) (s : Str) (p : ℕ) where
  -- The last step: to the character before, and the cursor is put back.
  line_end_position-moved :
      (n : Option ℤ) (q : ℕ)
      → line_end_move mc n (new s p) ≡ ok (tt, new s q)
      → line_end_position mc n (new s p) ≡ ok (boundary_below s q, new s p)
  unfolding line_end_position base_prev
  line_end_position-moved n zero moved =
      ground (arith, moved, prev-arrive base_metric s 0 none refl, boundary_below-zero s)
  line_end_position-moved n (suc q) moved = ground (
    arith,
    moved,
    prev-arrive base_metric s (suc q) (some (boundary_below s (suc q))) (base_prev-suc s q),
  )

  line_end_back-from :
      (x : ℤ) (k q : ℕ)
      → 0 < p
      → abs_i32 x ≡ ok k
      → prev_lines mc (k + 1) (new s p) ≡ ok (tt, new s q)
      → line_end_back mc x (new s p) ≡ ok (tt, new s q)
  unfolding line_end_back
  line_end_back-from x k q lower rounds run = ground (arith, rounds, run)

  line_end_back-zero : (x : ℤ) → p ≡ 0 → line_end_back mc x (new s p) ≡ ok (tt, new s 0)
  unfolding line_end_back
  line_end_back-zero x top = ground arith

  line_end_back-StartsUp :
      (x : ℤ) (k : ℕ)
      → p ≤ length s
      → abs_i32 x ≡ ok k
      → (q : ℕ) × (line_end_back mc x (new s p) ≡ ok (tt, new s q))
        × (((p ≡ 0) × (q ≡ 0)) ⊎ ((0 < p) × StartsUp s (suc k) p q))
  line_end_back-StartsUp x k inside rounds =
      let cases : (p ≡ 0) ⊎ (0 < p) = omega arith in
      elim cases [
        | inl top ↦ (0, line_end_back-zero x top, inl (top, refl))
        | inr lower ↦
            let (q, run, up) = prev_lines-StartsUp mc s (suc k) p lower inside in
            (q, line_end_back-from x k q lower rounds (rw add-one run), inr (lower, up))
      ]

  end_move-down :
      (n q : ℕ)
      → repeat (suc n) (goto_next_line mc) (new s p) ≡ ok (tt, new s q)
      → line_end_move mc (some (pos (suc n))) (new s p) ≡ ok (tt, new s q)
  unfolding line_end_move repeat
  end_move-down zero q run = run
  end_move-down (suc n) q run = ground (arith, run)

  end_move-none :
      (q : ℕ)
      → line_end_move mc (some (pos 1)) (new s p) ≡ ok (tt, new s q)
      → line_end_move mc none (new s p) ≡ ok (tt, new s q)
  unfolding line_end_move
  end_move-none q run = run

  end_move-back :
      (n q : ℕ)
      → (line_end_back mc (pos 0) (new s p) ≡ ok (tt, new s q)
          → line_end_move mc (some (pos 0)) (new s p) ≡ ok (tt, new s q))
        × (line_end_back mc (negsuc n) (new s p) ≡ ok (tt, new s q)
            → line_end_move mc (some (negsuc n)) (new s p) ≡ ok (tt, new s q))
  unfolding line_end_move
  end_move-back n q = (λ run. run, λ run. run)

  -- What `line_end_position(n)` answers at `p`.
  abbrev pub EndAnswer : Option ℤ → Type 0
  EndAnswer n =
      (e q : ℕ) × (line_end_position mc n (new s p) ≡ ok (e, new s p))
      × EndMoves s p n q
      × CharBefore s q e

  end-answer :
      (n : Option ℤ) (q : ℕ)
      → line_end_move mc n (new s p) ≡ ok (tt, new s q)
      → EndMoves s p n q
      → EndAnswer n
  end-answer n q moved moves = (
    boundary_below s q,
    q,
    line_end_position-moved n q moved,
    moves,
    boundary_below-CharBefore s q,
  )

  -- Inside the text, and with an argument whose absolute value fits `i32`, `line_end_position` does
  -- not panic and leaves the cursor where it is. It returns the start of the character before the
  -- place that its argument leads to, or 0 at the beginning of the text: with no argument, or `n`
  -- above 0, one or `n` lines down, or the end of the text behind the last line; else the last of
  -- `1 - n` searches for a line start before the cursor, each from the one before, which stop where
  -- one finds nothing, so that in the first line it is the cursor itself.
  pub line_end_position-EndAnswer : (n : Option ℤ) → p ≤ length s → AbsInRange n → EndAnswer n
  line_end_position-EndAnswer none inside fits =
      let (q, run, down, _) = repeat-LinesDown mc s 1 p inside in
      end-answer none q (end_move-none q (end_move-down 0 q run)) down
  line_end_position-EndAnswer (some (pos zero)) inside fits =
      let (q, run, up) = line_end_back-StartsUp (pos 0) 0 inside (unfold abs_i32 in refl) in
      end-answer (some (pos 0)) q ((end_move-back 0 q).0 run) up
  line_end_position-EndAnswer (some (pos (suc n))) inside fits =
      let (q, run, down, _) = repeat-LinesDown mc s (suc n) p inside in
      end-answer (some (pos (suc n))) q (end_move-down n q run) down
  line_end_position-EndAnswer (some (negsuc n)) inside fits =
      let (q, run, up) = line_end_back-StartsUp (negsuc n) (n + 1) inside (abs_i32-fits n fits) in
      end-answer (some (negsuc n)) q ((end_move-back n q).1 run) up
