-- ===== src/Cursor/Metric.antt =====
-- `trait Metric` of cursor.rs with `BaseMetric` (code points) and `LinesMetric` (lines).
pub mod Boundaries
pub mod CharSplit
use org_rs.Prelude.{
  ℕ, zero, suc, ◌+◌, ◌-◌, Bool, false, Option, none, some, ltb, ◌==◌, if◌then◌else◌, length,
}
use org_rs.Crates.Memchr.{Memchr}
use org_rs.Rust.Outcome.{Outcome, ok, check, overflow, ◌>>=◌}
use org_rs.Rust.Str.{Str, newline, is_char_boundary, byte_at, bytes_to, bytes_from}
use mathlib.Core.Option

pub record Metric : Type 0 where
  pub is_boundary : Str → ℕ → Outcome Bool
  pub prev : Str → ℕ → Outcome (Option ℕ)
  pub next : Str → ℕ → Outcome (Option ℕ)

unfoldable pub len_utf8_from_first_byte : ℕ → ℕ
len_utf8_from_first_byte b =
    if ltb b 0x80 then 1 else if ltb b 0xe0 then 2 else if ltb b 0xf0 then 3 else 4

-- `while !s.is_char_boundary(offset - len) { len += 1 }`: the nearest boundary below `offset`.
-- Position 0 is a boundary, so the subtraction does not underflow.
unfoldable pub boundary_below : Str → ℕ → ℕ
boundary_below s zero = 0
boundary_below s (suc n) =
    let further = boundary_below s n in if is_char_boundary s n then n else further

unfoldable pub base_prev : Str → ℕ → Outcome (Option ℕ)
base_prev s offset = ok (if offset == 0 then none else some (boundary_below s offset))

unfoldable pub base_next : Str → ℕ → Outcome (Option ℕ)
base_next s offset =
    if offset == length s
    then ok none
    else do b ← byte_at s offset; ok (some (offset + len_utf8_from_first_byte b))

abbrev pub base_metric : Metric
base_metric = record {
  is_boundary = λ s offset. ok (is_char_boundary s offset);
  prev = base_prev;
  next = base_next;
}

module _ (mc : Memchr) where
  unfoldable pub lines_is_boundary : Str → ℕ → Outcome Bool
  lines_is_boundary s offset =
      if offset == 0 then ok false else do b ← byte_at s (offset - 1); ok (b == newline)

  -- The `debug_assert!`; without it `offset - 1` would overflow at 0.
  unfoldable pub lines_prev : Str → ℕ → Outcome (Option ℕ)
  lines_prev s offset = check (ltb 0 offset) overflow (do
    before ← bytes_to s (offset - 1)
    ok (Option.map (λ pos. pos + 1) (mc.memrchr newline before)))

  unfoldable pub lines_next : Str → ℕ → Outcome (Option ℕ)
  lines_next s offset = do
    rest ← bytes_from s offset
    ok (Option.map (λ pos. offset + pos + 1) (mc.memchr newline rest))

  abbrev pub lines_metric : Metric
  lines_metric = record { is_boundary = lines_is_boundary; prev = lines_prev; next = lines_next }
