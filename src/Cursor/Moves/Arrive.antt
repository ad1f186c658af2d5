-- ===== src/Cursor/Moves/Arrive.antt =====
-- Where a move by a metric leaves the cursor, given the metric's answer.
use org_rs.Prelude.{ℕ, ◌≡◌, true, false, Option, none, some, arith}
use org_rs.Cursor.Metric.{Metric}
use org_rs.Cursor.Moves.{next, prev, at_or_prev}
use org_rs.Cursor.State.{Cursor, new}
use org_rs.Rust.Outcome.{ok}
use org_rs.Rust.Str.{Str}

-- The cursor at the place found, or where it was.
abbrev pub arrive : Str → ℕ → Option ℕ → Cursor
arrive s p none = new s p
arrive s p (some q) = new s q

module _ (m : Metric) (s : Str) (p : ℕ) (r : Option ℕ) where
  pub next-arrive : m.next s p ≡ ok r → next m (new s p) ≡ ok (r, arrive s p r)
  unfolding next
  next-arrive h = ground arith

  pub prev-arrive : m.prev s p ≡ ok r → prev m (new s p) ≡ ok (r, arrive s p r)
  unfolding prev
  prev-arrive h = ground arith

module _ (m : Metric) (s : Str) (p : ℕ) where
  pub at_or_prev-here : m.is_boundary s p ≡ ok true → at_or_prev m (new s p) ≡ ok (some p, new s p)
  unfolding at_or_prev
  at_or_prev-here h = ground arith

  pub at_or_prev-there : m.is_boundary s p ≡ ok false → at_or_prev m (new s p) ≡ prev m (new s p)
  unfolding at_or_prev
  at_or_prev-there h = ground arith
