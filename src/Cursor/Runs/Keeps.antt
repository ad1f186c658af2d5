-- ===== src/Cursor/Runs/Keeps.antt =====
-- The moves of the cursor by lines and by metrics, seen from the text and the fuel (cursor.rs).
use org_rs.Prelude.{
  ℕ, zero, suc, ◌+◌, ◌-◌, ◌==◌, ltb, not, ◌≢◌, Bool, Option, none, some, true, false, if◌then◌else◌,
}
use org_rs.Prelude.Int.{ℤ, pos, negsuc}
use org_rs.Crates.Memchr.{Memchr}
use org_rs.Cursor.Lines.{
  is_none, repeat, goto_line_begin, goto_next_line, prev_lines_or_start, prev_lines,
  line_begin_back, line_begin_move, line_end_back, line_end_move, abs_pred_i32, abs_i32,
}
use org_rs.Cursor.Metric.{Metric, base_metric, lines_metric}
use org_rs.Cursor.Moves.{next, prev, at_or_prev, moved}
use org_rs.Cursor.Runs.Ends.{
  base_next-ne-stuck, base_prev-ne-stuck, lines_next-ne-stuck, lines_prev-ne-stuck,
  lines_is_boundary-ne-stuck, abs_pred_i32-ne-stuck, abs_i32-ne-stuck,
}
use org_rs.Cursor.Runs.{
  Triple, Stays, Same, Same-bind, Same-pure, Same-lift, Same-reads, Same-if, Same-get_pos,
  Same-get_text, Same-Stays, Stays-bind, Stays-then, Triple-if, Triple-option, Triple-pure, TextIs,
  excursion, put_back,
}
use org_rs.Cursor.State.{M, set, get_pos, pure, when, lift, ◌>>=◌, ◌>>◌}
use org_rs.Rust.Outcome.{stuck}
use org_rs.Rust.Str.{Str}

-- No operation of the metric runs out of fuel.
pub record NeverStuck (m : Metric) : Type 0 where
  pub next_ends : (s : Str) (p : ℕ) → m.next s p ≢ stuck
  pub prev_ends : (s : Str) (p : ℕ) → m.prev s p ≢ stuck
  pub is_boundary_ends : (s : Str) (p : ℕ) → m.is_boundary s p ≢ stuck

pub base-NeverStuck : NeverStuck base_metric
base-NeverStuck = record {
  next_ends = base_next-ne-stuck;
  prev_ends = base_prev-ne-stuck;
  is_boundary_ends = λ s p. cc;
}

pub lines-NeverStuck : (mc : Memchr) → NeverStuck (lines_metric mc)
lines-NeverStuck mc = record {
  next_ends = lines_next-ne-stuck mc;
  prev_ends = lines_prev-ne-stuck mc;
  is_boundary_ends = lines_is_boundary-ne-stuck mc;
}

module _ (s : Str) where
  abbrev pub Keeps : {A : Type 0} → M A → Type 0
  Keeps m = Stays (TextIs s) m

  pub Keeps-bind :
      {A B : Type 0} (m : M A) (f : A → M B) → Keeps m → ((a : A) → Keeps (f a)) → Keeps (m >>= f)
  Keeps-bind m f = Stays-bind (TextIs s) (λ _. TextIs s) m f

  pub Keeps-then : {A B : Type 0} (m : M A) (n : M B) → Keeps m → Keeps n → Keeps (m >> n)
  Keeps-then m n = Stays-then (TextIs s) (λ _. TextIs s) m n

  pub Keeps-pure : {A : Type 0} (a : A) → Keeps (pure a)
  Keeps-pure a = record { runs = λ c i. i }

  pub Keeps-set : (p : ℕ) → Keeps (set p)
  Keeps-set p = record { runs = λ c i. i }

  pub Keeps-Same : {A : Type 0} (m : M A) → Same m → Keeps m
  Keeps-Same m h = Same-Stays (TextIs s) m h

  pub Keeps-if :
      {A : Type 0} (t : Bool) (m n : M A) → Keeps m → Keeps n → Keeps (if t then m else n)
  Keeps-if t m n = Triple-if (TextIs s) (λ _. TextIs s) t m n

  pub Keeps-option :
      {A B : Type 0} (o : Option B) (n : M A) (f : B → M A)
      → Keeps n
      → ((b : B) → Keeps (f b))
      → Keeps (elim o [ none ↦ n | some b ↦ f b ])
  Keeps-option o n f = Triple-option (TextIs s) (λ _. TextIs s) o n f

  pub Keeps-when : (t : Bool) (m : M (Unit {0})) → Keeps m → Keeps (when t m)
  Keeps-when true m h = h
  Keeps-when false m h = Keeps-pure tt

pub ruleset keeping = (
  Keeps-bind, Keeps-then, Keeps-pure, Keeps-set, Keeps-if, Keeps-option, Keeps-when, Same-get_pos,
  Same-get_text, Keeps-Same,
)

module _ (s : Str) (m : Metric) (h : NeverStuck m) where
  moved-Keeps : (o : Option ℕ) → Keeps s (moved o)
  moved-Keeps none = search keeping
  moved-Keeps (some p) = search keeping

  pub next-Keeps : Keeps s (next m)
  unfolding next
  next-Keeps =
      Keeps-bind s _ _ (Keeps-Same s _ (Same-reads _ (λ c. h.next_ends c.text c.pos))) moved-Keeps

  pub prev-Keeps : Keeps s (prev m)
  unfolding prev
  prev-Keeps =
      Keeps-bind s _ _ (Keeps-Same s _ (Same-reads _ (λ c. h.prev_ends c.text c.pos))) moved-Keeps

  at_or_prev-Keeps : Keeps s (at_or_prev m)
  unfolding at_or_prev
  at_or_prev-Keeps =
      Keeps-bind s _ _ (Keeps-Same s _ (Same-reads _ (λ c. h.is_boundary_ends c.text c.pos)))
        (λ here. Keeps-if s here _ _ (record { runs = λ c i. i }) prev-Keeps)

module _ (mc : Memchr) (s : Str) where
  begin_from-Keeps :
      (p : ℕ)
      → Keeps s (do
        when (not (p == 0)) (do found ← at_or_prev (lines_metric mc); when (is_none found) (set 0))
        get_pos)
  begin_from-Keeps p =
      Keeps-then s _ _
        (Keeps-when s (not (p == 0)) _ (
          Keeps-bind s _ _ (at_or_prev-Keeps s (lines_metric mc) (lines-NeverStuck mc))
            (λ found. Keeps-when s (is_none found) _ (Keeps-set s 0))))
        (Keeps-Same s get_pos Same-get_pos)

  pub goto_line_begin-Keeps : Keeps s (goto_line_begin mc)
  unfolding goto_line_begin
  goto_line_begin-Keeps = record { runs = λ c. (begin_from-Keeps c.pos).runs c }

  pub goto_next_line-Keeps : Keeps s (goto_next_line mc)
  unfolding goto_next_line
  goto_next_line-Keeps =
      Keeps-bind s _ _ (next-Keeps s (lines_metric mc) (lines-NeverStuck mc))
        (λ res. Keeps-option s res _ _ (record { runs = λ c i. i }) (Keeps-pure s))

  repeat-Keeps : (n : ℕ) (body : M ℕ) → Keeps s body → Keeps s (repeat n body)
  unfolding repeat
  repeat-Keeps zero body h = search keeping
  repeat-Keeps (suc n) body h = Keeps-bind s _ _ h (λ _. repeat-Keeps n body h)

  prev_lines_or_start-Keeps : (n : ℕ) → Keeps s (prev_lines_or_start mc n)
  unfolding prev_lines_or_start
  prev_lines_or_start-Keeps zero = search keeping
  prev_lines_or_start-Keeps (suc n) =
      Keeps-bind s _ _ (prev-Keeps s (lines_metric mc) (lines-NeverStuck mc))
        (λ res. Keeps-option s res _ _ (Keeps-set s 0) (λ x. prev_lines_or_start-Keeps n))

  prev_lines-Keeps : (n : ℕ) → Keeps s (prev_lines mc n)
  unfolding prev_lines
  prev_lines-Keeps zero = search keeping
  prev_lines-Keeps (suc n) =
      Keeps-bind s _ _ (prev-Keeps s (lines_metric mc) (lines-NeverStuck mc))
        (λ res. Keeps-option s res _ _ (Keeps-pure s tt) (λ x. prev_lines-Keeps n))

  back_from-Keeps :
      (x : ℤ) (p : ℕ)
      → Keeps s (
          if p == 0
          then pure tt
          else (do rounds ← lift (abs_pred_i32 x); prev_lines_or_start mc rounds))
  back_from-Keeps x p = Keeps-if s (p == 0) _ _ (Keeps-pure s tt) (
      Keeps-bind s _ _ (Keeps-Same s _ (Same-lift _ (abs_pred_i32-ne-stuck x)))
        prev_lines_or_start-Keeps)

  line_begin_back-Keeps : (x : ℤ) → Keeps s (line_begin_back mc x)
  unfolding line_begin_back
  line_begin_back-Keeps x =
      Keeps-bind s _ _ goto_line_begin-Keeps
        (λ _. record { runs = λ c. (back_from-Keeps x c.pos).runs c })

  begin-Keeps : Keeps s (do goto_line_begin mc; pure tt)
  begin-Keeps = search (keeping, goto_line_begin-Keeps)

  pub line_begin_move-Keeps : (n : Option ℤ) → Keeps s (line_begin_move mc n)
  unfolding line_begin_move
  line_begin_move-Keeps none = begin-Keeps
  line_begin_move-Keeps (some (pos n)) = Keeps-if s (n == 1) _ _ begin-Keeps (
      Keeps-if s (ltb 1 n) _ _ (repeat-Keeps (n - 1) _ goto_next_line-Keeps)
        (line_begin_back-Keeps (pos n)))
  line_begin_move-Keeps (some (negsuc n)) = line_begin_back-Keeps (negsuc n)

  end_from-Keeps :
      (x : ℤ) (p : ℕ)
      → Keeps s
          (if p == 0 then pure tt else (do rounds ← lift (abs_i32 x); prev_lines mc (rounds + 1)))
  end_from-Keeps x p = Keeps-if s (p == 0) _ _ (Keeps-pure s tt) (
      Keeps-bind s _ _ (Keeps-Same s _ (Same-lift _ (abs_i32-ne-stuck x)))
        (λ k. prev_lines-Keeps (k + 1)))

  line_end_back-Keeps : (x : ℤ) → Keeps s (line_end_back mc x)
  unfolding line_end_back
  line_end_back-Keeps x = record { runs = λ c. (end_from-Keeps x c.pos).runs c }

  next_line-Keeps : Keeps s (do goto_next_line mc; pure tt)
  next_line-Keeps = search (keeping, goto_next_line-Keeps)

  pub line_end_move-Keeps : (n : Option ℤ) → Keeps s (line_end_move mc n)
  unfolding line_end_move
  line_end_move-Keeps none = next_line-Keeps
  line_end_move-Keeps (some (pos n)) = Keeps-if s (n == 1) _ _ next_line-Keeps (
      Keeps-if s (ltb 1 n) _ _ (repeat-Keeps n _ goto_next_line-Keeps)
        (line_end_back-Keeps (pos n)))
  line_end_move-Keeps (some (negsuc n)) = line_end_back-Keeps (negsuc n)
