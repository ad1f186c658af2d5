-- ===== src/Cursor/Runs/Ends.antt =====
-- The operations on the text, which have no fuel to run out of.
use org_rs.Prelude.{ℕ, ◌≢◌, arith}
use org_rs.Prelude.Int.{ℤ, pos, negsuc}
use org_rs.Crates.Memchr.{Memchr}
use org_rs.Cursor.Lines.{abs_pred_i32, abs_i32}
use org_rs.Cursor.Metric.{base_next, base_prev, lines_is_boundary, lines_prev, lines_next}
use org_rs.Rust.Outcome.{stuck}
use org_rs.Rust.Str.{Str, byte_at, bytes_to, bytes_from, str_from, str_between}

pub str_from-ne-stuck : (s : Str) (a : ℕ) → str_from s a ≢ stuck
unfolding str_from
str_from-ne-stuck s a = ground arith

pub str_between-ne-stuck : (s : Str) (a b : ℕ) → str_between s a b ≢ stuck
unfolding str_between
str_between-ne-stuck s a b = ground arith

pub base_next-ne-stuck : (s : Str) (p : ℕ) → base_next s p ≢ stuck
unfolding base_next byte_at
base_next-ne-stuck s p = ground arith

pub base_prev-ne-stuck : (s : Str) (p : ℕ) → base_prev s p ≢ stuck
unfolding base_prev
base_prev-ne-stuck s p = ground arith

pub abs_pred_i32-ne-stuck : (x : ℤ) → abs_pred_i32 x ≢ stuck
unfolding abs_pred_i32
abs_pred_i32-ne-stuck (pos n) = ground arith
abs_pred_i32-ne-stuck (negsuc n) = ground arith

pub abs_i32-ne-stuck : (x : ℤ) → abs_i32 x ≢ stuck
unfolding abs_i32
abs_i32-ne-stuck (pos n) = ground arith
abs_i32-ne-stuck (negsuc n) = ground arith

module _ (mc : Memchr) (s : Str) (p : ℕ) where
  pub lines_is_boundary-ne-stuck : lines_is_boundary mc s p ≢ stuck
  unfolding lines_is_boundary byte_at
  lines_is_boundary-ne-stuck = ground arith

  pub lines_prev-ne-stuck : lines_prev mc s p ≢ stuck
  unfolding lines_prev bytes_to
  lines_prev-ne-stuck = ground arith

  pub lines_next-ne-stuck : lines_next mc s p ≢ stuck
  unfolding lines_next bytes_from
  lines_next-ne-stuck = ground arith
